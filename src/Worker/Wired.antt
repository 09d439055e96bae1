-- ===== src/Worker/Wired.antt =====
-- A stream's sends over the writer goroutine and the flow control of its connection
-- (internal/h2/writer.go, internal/h2/flow.go), beside the other goroutines that use both. `elapse`
-- and `await_credit` take what those do from a schedule, one portion for each call and each wait.
pub mod Valid
pub mod Calls
pub mod Served
use reverse_http.Prelude.{
  ℕ, ◌+◌, ◌≡◌, Bool, true, false, Option, none, some, List, [], ◌∷◌, ◌++◌, if◌then◌else◌,
}
use reverse_http.Prelude.Int.{ℤ}
use reverse_http.H2.Errors.{Err}
use reverse_http.H2.Flow.{
  SendCredit, Round, returned, parked, add_conn, add_stream, apply_initial_window_delta, mark_dead,
}
use reverse_http.H2.Flow
use reverse_http.H2.Writer.{
  Intent, Writer, Framer, enqueue, make_room, take_intent, submit, submit_async, stop,
  shutdown_writer,
}
use reverse_http.H2.Writer.Rendered.{render}
use reverse_http.H2.Writer.Quiet.{is_of, is_err}

-- What another goroutine does between the calls: nobody else submits HEADERS or DATA of the stream.
pub data Happening (id : ℕ) : Type 0 where
  submits_async : (i : Intent) → is_of id (render i) ≡ false → Happening id
  submits : (i : Intent) → is_of id (render i) ≡ false → Happening id
  takes shuts stops dies : Happening id
  reserves : ℤ → ℤ → ℕ → Happening id
  grows_conn : ℤ → Happening id
  grows_stream : ℤ → Happening id
  resizes : ℤ → Happening id
  allows : ℕ → Happening id

-- `put` has the intents of the stream whose submission was answered without an error.
pub record Shared (id : ℕ) : Type 0 where
  pub writer : Writer
  pub credit : SendCredit
  pub window : ℤ
  pub max_frame : ℕ
  pub put : List Intent
  pub schedule : List (List (Happening id))

-- `submit` of another goroutine, up to its wait.
unfoldable pub begin_submit : Framer → Writer → Intent → Writer
begin_submit framer w i =
    let w = make_room framer w in
    if w.dead then w else enqueue (some w.tickets) i (record w { tickets = w.tickets + 1 })

module _ (framer : Framer) (id who : ℕ) where
  abbrev pub happen : Happening id → Shared id → Shared id
  happen (submits_async i f) s = record s { writer = submit_async framer s.writer i }
  happen (submits i f) s = record s { writer = begin_submit framer s.writer i }
  happen takes s = record s { writer = take_intent framer s.writer }
  happen shuts s = record s { writer = shutdown_writer s.writer }
  happen stops s = record s { writer = stop s.writer }
  happen dies s = record s { credit = mark_dead s.credit }
  happen (reserves want window other) s = record s {
    credit = (Flow.reserve s.credit window want other).0;
  }
  happen (grows_conn delta) s = record s { credit = add_conn s.credit delta }
  happen (grows_stream delta) s =
      let (credit, window) = add_stream s.credit s.window delta in
      record s { credit = credit; window = window }
  happen (resizes size) s =
      let (credit, adjust) = apply_initial_window_delta s.credit size in
      record s { credit = credit; window = adjust s.window }
  happen (allows size) s = record s { max_frame = size }

  abbrev pub happen_all : List (Happening id) → Shared id → Shared id
  happen_all [] s = s
  happen_all (h ∷ hs) s = happen_all hs (happen h s)

  abbrev pub elapse_from : List (List (Happening id)) → Shared id → Shared id
  elapse_from [] s = s
  elapse_from (hs ∷ rest) s = happen_all hs (record s { schedule = rest })

  -- What the others do before the next call.
  unfoldable pub elapse : Shared id → Shared id
  elapse s = elapse_from s.schedule s

  abbrev pub answered_send : Intent → Shared id → Writer × Option Err → Shared id × Option Err
  answered_send i s (w, none) = (record s { writer = w; put = s.put ++ i ∷ [] }, none)
  answered_send i s (w, some e) = (record s { writer = w }, some e)

  -- SendResponseHeaders and SendData: `submit` of their intent.
  unfoldable pub send : Shared id → Intent → Shared id × Option Err
  send s i = let s = elapse s in answered_send i s (submit framer s.writer i)

  abbrev pub Grants : Type 0
  Grants = Option (Shared id × ℤ × Bool)

  abbrev pub settle : (Shared id → Grants) → Shared id × Round → Grants
  settle next (s, returned got dead) = some (s, got, dead)
  settle next (s, parked) = next s

  abbrev pub attempt : Shared id → ℤ → Shared id × Round
  attempt s want =
      let (credit, window, r) = Flow.reserve s.credit s.window want who in
      (record s { credit = credit; window = window }, r)

  -- A caller that waits makes another round after each portion; it waits for ever when there is
  -- none left.
  abbrev pub await_credit : List (List (Happening id)) → ℤ → Shared id → Grants
  await_credit [] want s = settle (λ t. none) (attempt s want)
  await_credit (hs ∷ rest) want s =
      settle (λ t. await_credit rest want (happen_all hs (record t { schedule = rest })))
        (attempt s want)

  unfoldable pub reserve_over : Shared id → ℤ → Grants
  unfolding elapse
  reserve_over s want = let s = elapse s in await_credit s.schedule want s
