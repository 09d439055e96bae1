-- ===== src/Proxy/Relay/Answered.antt =====
-- The answer that the public side gets for a forwarded request (internal/proxy/forward.go).
use reverse_http.Prelude.{
  ℕ, ◌≡◌, refl, sym, ap, ◌∙◌, Bool, true, false, List, [], ◌∷◌, ◌++◌, append-nil, append_assoc,
  if◌then◌else◌, if_cases, nat_eq,
}
use reverse_http.Prelude.Int.{ℤ, pos}
use reverse_http.H2.Conn.{submitted}
use reverse_http.Proxy.Relay.{
  Reply, error_page, head, chunk, flushed, Gate, replied, reset_stream, Relaying, gives, ends,
  context_ends, Result, returns, panics, blocks, flush_if, relay_body,
}

-- The status codes of the calls of http.Error and WriteHeader, of which net/http takes a 1xx other
-- than 101 for an interim response.
abbrev pub status_of : Reply → List ℤ
status_of (error_page n cause) = pos n ∷ []
status_of (head z h) = z ∷ []
status_of (chunk p) = []
status_of flushed = []

abbrev pub statuses : List Reply → List ℤ
statuses [] = []
statuses (r ∷ rs) = status_of r ++ statuses rs

statuses-snoc : (rs : List Reply) (r : Reply) → statuses (rs ++ r ∷ []) ≡ statuses rs ++ status_of r
statuses-snoc [] r = append-nil (status_of r)
statuses-snoc (x ∷ rs) r =
    rw (statuses-snoc rs r) (sym (append_assoc (status_of x) (statuses rs) (status_of r)))

-- The gate after a step that leaves the streams and the count alone and sends these status codes.
pub record Sent (zs : List ℤ) (g v : Gate) : Type 0 where
  pub sent : statuses v.reply ≡ statuses g.reply ++ zs
  pub same_streams : v.worker.streams ≡ g.worker.streams
  pub same_below : v.worker.conn.streams ≡ g.worker.conn.streams
  pub same_count : v.in_flight ≡ g.in_flight

pub replied-Sent : (g : Gate) (r : Reply) → Sent (status_of r) g (replied g r)
replied-Sent g r = record {
  sent = statuses-snoc g.reply r;
  same_streams = refl;
  same_below = refl;
  same_count = refl;
}

pub Sent-trans : {xs : List ℤ} {a b c : Gate} → Sent [] a b → Sent xs b c → Sent xs a c
Sent-trans {xs} {a} {b} {c} p q = record {
  sent = q.sent ∙ ap (λ zs. zs ++ xs) (p.sent ∙ append-nil (statuses a.reply));
  same_streams = q.same_streams ∙ p.same_streams;
  same_below = q.same_below ∙ p.same_below;
  same_count = q.same_count ∙ p.same_count;
}

pub Sent-quiet : {xs : List ℤ} {a b c : Gate} → Sent xs a b → Sent [] b c → Sent xs a c
Sent-quiet {xs} {a} {b} {c} p q = record {
  sent = q.sent ∙ append-nil (statuses b.reply) ∙ p.sent;
  same_streams = q.same_streams ∙ p.same_streams;
  same_below = q.same_below ∙ p.same_below;
  same_count = q.same_count ∙ p.same_count;
}

Sent-none : (g : Gate) → Sent [] g g
Sent-none g = record {
  sent = sym (append-nil (statuses g.reply));
  same_streams = refl;
  same_below = refl;
  same_count = refl;
}

pub reset-Sent : (id : ℕ) (g : Gate) → Sent [] g (reset_stream id g)
unfolding submitted
reset-Sent id g = record {
  sent = sym (append-nil (statuses g.reply));
  same_streams = refl;
  same_below = refl;
  same_count = refl;
}

flush-Sent : (b : Bool) (g : Gate) → Sent [] g (flush_if b g)
flush-Sent true g = replied-Sent g flushed
flush-Sent false g = Sent-none g

-- No answer of `Read` and no failing write ends the relay.
abbrev pub Endless : List Relaying → Type 0
Endless [] = Unit
Endless (gives [] takes ∷ rs) = Endless rs
Endless (gives (b ∷ p) true ∷ rs) = Endless rs
Endless (gives (b ∷ p) false ∷ rs) = ⊥
Endless (ends err ∷ rs) = ⊥
Endless (context_ends ∷ rs) = Endless rs

-- How the relay of a body leaves the gate.
abbrev pub BodyDone : List Relaying → Gate → Result → Type 0
BodyDone rs g (returns v) = Sent [] g v
BodyDone rs g (panics v) = ⊥
BodyDone rs g (blocks v) = Endless rs

BodyDone-after :
    (rs rs' : List Relaying) (g v : Gate) (r : Result)
    → (Endless rs → Endless rs')
    → Sent [] g v
    → BodyDone rs v r
    → BodyDone rs' g r
BodyDone-after rs rs' g v (returns x) f s d = Sent-trans s d
BodyDone-after rs rs' g v (panics x) f s d = d
BodyDone-after rs rs' g v (blocks x) f s d = f d

pub relay_body-done :
    (id : ℕ) (can_flush watched : Bool) (rs : List Relaying) (g : Gate)
    → BodyDone rs g (relay_body id can_flush watched rs g)
unfolding relay_body
relay_body-done id can_flush watched [] g = tt
relay_body-done id can_flush watched (gives [] takes ∷ rs) g =
    BodyDone-after rs (gives [] takes ∷ rs) g g _ (λ h. h) (Sent-none g)
      (relay_body-done id can_flush watched rs g)
relay_body-done id can_flush watched (gives (b ∷ p) true ∷ rs) g =
    BodyDone-after rs (gives (b ∷ p) true ∷ rs) g (flush_if can_flush (replied g (chunk (b ∷ p)))) _
      (λ h. h) (Sent-trans (replied-Sent g (chunk (b ∷ p))) (flush-Sent can_flush _))
      (relay_body-done id can_flush watched rs _)
relay_body-done id can_flush watched (gives (b ∷ p) false ∷ rs) g =
    Sent-trans (replied-Sent g (chunk (b ∷ p))) (reset-Sent id _)
relay_body-done id can_flush watched (ends err ∷ rs) g = Sent-none g
relay_body-done id can_flush watched (context_ends ∷ rs) g =
    BodyDone-after rs (context_ends ∷ rs) g (if watched then reset_stream id g else g) _ (λ h. h)
      (if_cases (Sent [] g) watched (λ _. reset-Sent id g) λ _. Sent-none g)
      (relay_body-done id can_flush false rs _)
