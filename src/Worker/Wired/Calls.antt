-- ===== src/Worker/Wired/Calls.antt =====
-- The stream's own calls over the shared writer and credit: what `submit` and `Reserve` have done
-- when they return (internal/h2/writer.go, internal/h2/flow.go).
use reverse_http.Prelude.{
  ℕ, ◌≡◌, subst, ap, ◌∙◌, sym, Bool, true, false, Option, none, some, List, [], ◌∷◌, ◌++◌,
  map-append, if◌then◌else◌, append-nil,
}
use reverse_http.Prelude.Int.{ℤ, pos, ◌≤ℤ◌, ◌<ℤ◌}
use reverse_http.H2.Errors.{Err}
use reverse_http.H2.Flow.{
  SendCredit, Round, returned, parked, broadcast, init_cond, reserve_round, add_conn, add_stream,
  apply_initial_window_delta, mark_dead,
}
use reverse_http.H2.Flow
use reverse_http.H2.Flow.Credit.{reserve-Ends, Ends, gone, waits, grants}
use reverse_http.H2.Writer.{Intent, Writer, Framer}
use reverse_http.H2.Writer.Rendered.{render}
use reverse_http.H2.Writer.Quiet.{frames, is_of, is_err}
use reverse_http.H2.Writer.Submitted.{Told, submit-Told}
use reverse_http.Worker.Wired.{
  Happening, Shared, elapse, answered_send, send, Grants, settle, attempt, await_credit,
  reserve_over,
}
use reverse_http.Worker.Wired.Valid.{
  Valid, Kept, Kept-trans, credit-Kept, reserve_ranges, portion-Kept, elapse-Kept,
}

module _ (framer : Framer) (id who : ℕ) where
  -- What a call of the stream's own goroutine has done.
  pub record Sent (s : Shared id) (i : Intent) (r : Shared id × Option Err) : Type 0 where
    pub valid : Valid r.0
    pub now_put : r.0.put ≡ s.put ++ (if is_err r.1 then [] else i ∷ [])

  answered_send-Sent :
      (s t : Shared id) (i : Intent) (r : Writer × Option Err)
      → Kept s t
      → Told id i t.writer r
      → Sent s i (answered_send framer id who i t r)
  answered_send-Sent s t i (w, none) k x = record {
    valid = record {
      ready = x.ready;
      shown =
          x.told
          ∙ ap (λ l. l ++ render i ∷ []) k.valid.shown
          ∙ sym (map-append render t.put (i ∷ []));
      conn_range = k.valid.conn_range;
      window_range = k.valid.window_range;
    };
    now_put = ap (λ l. l ++ i ∷ []) k.same;
  }
  answered_send-Sent s t i (w, some e) k x = record {
    valid = record {
      ready = x.ready;
      shown = x.told ∙ append-nil (frames id t.writer.wire) ∙ k.valid.shown;
      conn_range = k.valid.conn_range;
      window_range = k.valid.window_range;
    };
    now_put = k.same ∙ sym (append-nil s.put);
  }

  pub send-Sent :
      (s : Shared id) (i : Intent)
      → is_of id (render i) ≡ true
      → Valid s
      → Sent s i (send framer id who s i)
  unfolding send
  send-Sent s i mine v =
      let k = elapse-Kept framer id who s v in
      answered_send-Sent s (elapse framer id who s) i _ k
        (submit-Told framer id i mine (elapse framer id who s).writer k.valid.ready)

  -- What `Reserve` gives, when it returns.
  pub data Gives (s : Shared id) (want : ℤ) : Grants framer id who → Type 0 where
    never : Gives s want none
    gives :
        {t : Shared id} {got : ℤ} {dead : Bool}
        → Kept s t
        → (pos 0 <ℤ want → dead ≡ false → (pos 0 <ℤ got) × (got ≤ℤ want))
        → Gives s want (some (t, got, dead))

  Gives-later :
      {s t : Shared id} {want : ℤ} {o : Grants framer id who}
      → Kept s t
      → Gives t want o
      → Gives s want o
  Gives-later k never = never
  Gives-later k (gives j g) = gives (Kept-trans k j) g

  -- A round that does not wait gives what it may.
  round_gives :
      (sc : SendCredit) (window want : ℤ) (r : SendCredit × ℤ × Round) (got : ℤ)
      → Ends want sc window r.0 r.1 r.2
      → r.2 ≡ returned got false
      → (pos 0 <ℤ got) × (got ≤ℤ want)
  round_gives sc window want (sc', window', x) got (gone d e) h = cc
  round_gives sc window want (sc', window', x) got (waits d m e) h = cc
  round_gives sc window want (sc', window', x) got (grants {got = n} d g) h =
      subst (λ z. (pos 0 <ℤ z) × (z ≤ℤ want)) (given h) (g.positive, g.wanted)
    where
      given : returned n false ≡ returned got false → n ≡ got
      given e = cc

  settled-Gives :
      (s : Shared id) (want : ℤ) (next : Shared id → Grants framer id who)
      (r : SendCredit × ℤ × Round)
      → Kept s (record s { credit = r.0; window = r.1 })
      → (pos 0 <ℤ want → (got : ℤ) → r.2 ≡ returned got false → (pos 0 <ℤ got) × (got ≤ℤ want))
      → ((t : Shared id) → Kept s t → Gives s want (next t))
      → Gives s want (settle framer id who next (record s { credit = r.0; window = r.1 }, r.2))
  settled-Gives s want next (sc, window, returned got dead) kept good k =
      gives kept λ w alive. good w got (ap (returned got) alive)
  settled-Gives s want next (sc, window, parked) kept good k = k _ kept

  settle-Gives :
      (s : Shared id) (want : ℤ) (next : Shared id → Grants framer id who)
      → Valid s
      → ((t : Shared id) → Kept s t → Gives s want (next t))
      → Gives s want (settle framer id who next (attempt framer id who s want))
  settle-Gives s want next v k =
      let c = reserve_ranges s.credit s.window want who v.conn_range v.window_range in
      settled-Gives s want next (Flow.reserve s.credit s.window want who)
        (credit-Kept s _ _ v c.0 c.1)
        (λ w got h.
          round_gives s.credit s.window want _ got
            (reserve-Ends s.credit s.window want who v.conn_range v.window_range w) h)
        k

  await_credit-Gives :
      (x : List (List (Happening id))) (want : ℤ) (s : Shared id)
      → Valid s
      → Gives s want (await_credit framer id who x want s)
  await_credit-Gives [] want s v = settle-Gives s want (λ t. none) v (λ t k. never)
  await_credit-Gives (hs ∷ rest) want s v = settle-Gives s want _ v λ t k.
      let j = portion-Kept framer id who hs rest t k.valid in
      Gives-later (Kept-trans k j) (await_credit-Gives rest want _ j.valid)

  pub reserve_over-Gives :
      (s : Shared id) (want : ℤ) → Valid s → Gives s want (reserve_over framer id who s want)
  unfolding reserve_over
  reserve_over-Gives s want v =
      let k = elapse-Kept framer id who s v in
      Gives-later k (await_credit-Gives (elapse framer id who s).schedule want _ k.valid)
