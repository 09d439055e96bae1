-- ===== src/Proxy/Relay/Spoken.antt =====
-- The status codes that a forward sends (internal/proxy/forward.go).
use reverse_http.Prelude.{
  ℕ, ◌≡◌, refl, sym, ap, ◌∙◌, subst, inl, inr, true, false, Option, none, some, List, [], ◌∷◌, ◌++◌,
  append-nil, Bool-cases, nat_eq,
}
use reverse_http.Prelude.Int.{ℤ, pos}
use reverse_http.Prelude.Table.{lookup, Unique}
use reverse_http.H2.Errors.{Err}
use reverse_http.H2.Writer.{Header}
use reverse_http.Proxy.Tunnel.{ClientStream, Worker}
use reverse_http.Proxy.Serve.Matched.{Matched, MatchedAt}
use reverse_http.Proxy.Relay.{
  error_page, head, Gate, replied, reset_stream, Waking, responded, cancelled, detached, Scene,
  Result, returns, panics, blocks, held, relay_status, is_status, relay_header, write_response,
  elsewhere, if_answered, respond, disconnected, stream_failed,
}
use reverse_http.Proxy.Relay.Answered.{
  statuses, Sent, replied-Sent, reset-Sent, Sent-quiet, Endless, BodyDone, relay_body-done,
}

-- The status codes of a response that was settled so.
abbrev settled_codes : Option Err → ℤ → List ℤ
settled_codes (some err) z = pos 502 ∷ []
settled_codes none z = relay_status z ∷ []

-- The status codes of the calls that are due: none if it has gone away, 502 if the tunnel or the
-- stream has failed, and else the worker's, or 502 in place of 0.
abbrev pub due : Waking → ClientStream → List ℤ
due cancelled cs = []
due detached cs = pos 502 ∷ []
due responded cs = settled_codes cs.resp_err cs.resp_status

-- The codes `zs` were sent, the count is as it was, and the tunnel's streams are matched.
pub record Spoke (zs : List ℤ) (g v : Gate) : Type 0 where
  pub codes_sent : statuses v.reply ≡ statuses g.reply ++ zs
  pub same_count : v.in_flight ≡ g.in_flight
  pub matched : Matched v.worker

Matched-same :
    (w v : Worker) → v.streams ≡ w.streams → v.conn.streams ≡ w.conn.streams → Matched w → Matched v
Matched-same w v a b m = record {
  once = subst Unique (sym a) m.once;
  once_below = subst Unique (sym b) m.once_below;
  matches = λ id.
      subst (λ x. MatchedAt (lookup id x) (lookup id v.conn.streams)) (sym a)
        (subst (λ y. MatchedAt (lookup id w.streams) (lookup id y)) (sym b) (m.matches id));
}

Sent-Spoke : {zs : List ℤ} {g v : Gate} → Matched g.worker → Sent zs g v → Spoke zs g v
Sent-Spoke {zs} {g} {v} m s = record {
  codes_sent = s.sent;
  same_count = s.same_count;
  matched = Matched-same g.worker v.worker s.same_streams s.same_below m;
}

-- What the forwarder has done before its deferred calls, for a stream settled as `cs`.
abbrev pub Spoken : Scene → ClientStream → Gate → Result → Type 0
Spoken e cs g (returns v) = Spoke (due e.waking cs) g v
Spoken e cs g (panics v) =
    Spoke [] g v × (e.waking ≡ responded) × (is_status (relay_status cs.resp_status) ≡ false)
Spoken e cs g (blocks v) = (e.waking ≡ responded) × Endless e.relaying

quiet_Spoke : (g : Gate) → Matched g.worker → Spoke [] g g
quiet_Spoke g m = record {
  codes_sent = sym (append-nil (statuses g.reply));
  same_count = refl;
  matched = m;
}

module _ (id : ℕ) (e : Scene) (keeps : (w : Worker) → Matched w → Matched (e.until_relayed w)) where
  -- `write_response` alone, for a gate whose tunnel is matched.
  abbrev Written : ClientStream → Gate → Result → Type 0
  Written cs g (returns v) = Spoke (relay_status cs.resp_status ∷ []) g v
  Written cs g (panics v) = Spoke [] g v × (is_status (relay_status cs.resp_status) ≡ false)
  Written cs g (blocks v) = Endless e.relaying

  relayed-Written :
      (cs : ClientStream) (g : Gate) (h : Header) (r : Result)
      → Matched g.worker
      → BodyDone e.relaying (replied g (head (relay_status cs.resp_status) h)) r
      → Written cs g r
  relayed-Written cs g h (returns v) m d =
      Sent-Spoke m (Sent-quiet (replied-Sent g (head (relay_status cs.resp_status) h)) d)
  relayed-Written cs g h (panics v) m d = absurd d
  relayed-Written cs g h (blocks v) m d = d

  write_response-Written :
      (cs : ClientStream) (g : Gate) → Matched g.worker → Written cs g (write_response id e cs g)
  unfolding write_response
  write_response-Written cs g m = elim (Bool-cases (is_status (relay_status cs.resp_status))) [
    | inl good ↦ rw good (
        relayed-Written cs g (relay_header cs.resp_header e.preset) _ m (
          relay_body-done id e.can_flush true e.relaying (
            replied g (head (relay_status cs.resp_status) (relay_header cs.resp_header e.preset)))))
    | inr bad ↦ rw bad (quiet_Spoke g m, bad)
  ]

  nearer : {zs : List ℤ} (g v : Gate) → Spoke zs (elsewhere e.until_relayed g) v → Spoke zs g v
  nearer g v s = record {
    codes_sent = s.codes_sent;
    same_count = s.same_count;
    matched = s.matched;
  }

  -- The tunnel changes while the response is relayed.
  from_elsewhere :
      (cs : ClientStream) (g : Gate) (r : Result)
      → e.waking ≡ responded
      → cs.resp_err ≡ none
      → Written cs (elsewhere e.until_relayed g) r
      → Spoken e cs g r
  from_elsewhere cs g (returns v) woke clean w =
      subst (λ zs. Spoke zs g v)
        (sym (ap (λ k. due k cs) woke ∙ ap (λ o. settled_codes o cs.resp_status) clean))
        (nearer g v w)
  from_elsewhere cs g (panics v) woke clean w = (nearer g v w.0, woke, w.1)
  from_elsewhere cs g (blocks v) woke clean w = (woke, w)

  answered-Spoken :
      (cs : ClientStream) (g : Gate) (o : Option Err)
      → e.waking ≡ responded
      → cs.resp_err ≡ o
      → Matched g.worker
      → Spoken e cs g (if_answered id e g cs o)
  answered-Spoken cs g (some err) woke er m =
      subst (λ zs. Spoke zs g (replied g (error_page 502 (stream_failed err))))
        (sym (ap (λ k. due k cs) woke ∙ ap (λ o. settled_codes o cs.resp_status) er))
        (Sent-Spoke m (replied-Sent g (error_page 502 (stream_failed err))))
  answered-Spoken cs g none woke er m =
      from_elsewhere cs g (write_response id e cs (elsewhere e.until_relayed g)) woke er
        (write_response-Written cs (elsewhere e.until_relayed g) (keeps g.worker m))

  pub respond-Spoken :
      (g : Gate) (k : Waking)
      → e.waking ≡ k
      → Matched g.worker
      → Spoken e (held (lookup id g.worker.streams)) g (respond id e g k)
  unfolding respond
  respond-Spoken g responded woke m =
      let cs = held (lookup id g.worker.streams) in answered-Spoken cs g cs.resp_err woke refl m
  respond-Spoken g cancelled woke m =
      subst (λ k. Spoke (due k (held (lookup id g.worker.streams))) g (reset_stream id g))
        (sym woke) (Sent-Spoke m (reset-Sent id g))
  respond-Spoken g detached woke m =
      subst
        (λ k.
          Spoke (due k (held (lookup id g.worker.streams))) g
            (replied g (error_page 502 disconnected)))
        (sym woke) (Sent-Spoke m (replied-Sent g (error_page 502 disconnected)))
