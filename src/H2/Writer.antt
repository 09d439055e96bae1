-- ===== src/H2/Writer.antt =====
-- internal/h2/writer.go: the writer goroutine of a connection and its queue.
-- `Wire` is what reaches the framer and the HPACK encoder, both of golang.org/x/net, one value for a
-- call; the block of a HEADERS frame is the list of the fields given to the encoder.
pub mod Headers
pub mod Rendered
pub mod Order
pub mod Quiet
pub mod Awaited
pub mod Submitted
use reverse_http.Prelude.{
  ℕ, zero, suc, ◌+◌, Bool, true, false, Option, none, some, List, [], ◌∷◌, ◌++◌, length, map, ltb,
  nat_beq, if◌then◌else◌, Bytes, codes, bytes_eq, nat_eq, ◌==◌, not, ◌&&◌,
}
use reverse_http.Prelude.Table.{Table, lookup, insert}
use reverse_http.H2.Errors.{Err, conn_closed, ErrCode}
use reverse_http.H2.Names.{to_lower, forbidden_forward_header, status_string, common_lower_names}

-- http.Header
abbrev pub Header : Type 0
Header = Table Bytes (List Bytes)

-- hpack.HeaderField: name and value.
abbrev pub Field : Type 0
Field = Bytes × Bytes

-- writeIntent, one constructor for each writeKind with the fields that the kind uses. The opaque
-- data of a PING is the number that its eight bytes spell.
pub data Intent : Type 0 where
  settings_ack : Intent
  window_update : ℕ → ℕ → Intent
  ping : Bool → ℕ → Intent
  rst_stream : ℕ → ErrCode → Intent
  resp_headers : ℕ → ℕ → Header → Bool → Intent
  req_headers : ℕ → Bytes → Bytes → Bytes → Bytes → Header → Bool → Intent
  body : ℕ → Bytes → Bool → Intent
  set_max_dyn_tab : ℕ → Intent
  go_away : ℕ → ErrCode → Intent

pub data Wire : Type 0 where
  settings_ack : Wire
  window_update : ℕ → ℕ → Wire
  ping : Bool → ℕ → Wire
  rst_stream : ℕ → ErrCode → Wire
  headers : ℕ → List Field → Bool → Wire
  body : ℕ → Bytes → Bool → Wire
  table_size : ℕ → Wire
  go_away : ℕ → ErrCode → Wire

abbrev pub write_q_size : ℕ
write_q_size = 256

-- `queue` is writeQ, each intent with the number that stands for its done channel (`none`: fire
-- and forget). `shutdown` and `dead` say that writeShutdown and writeDeadCh are closed. `done` has
-- what was sent on done channels, and `tickets` is the next unused number.
pub record Writer : Type 0 where
  pub queue : List (Option ℕ × Intent)
  pub shutdown : Bool
  pub dead : Bool
  pub write_err : Option Err
  pub lower_names : Table Bytes Bytes
  pub wire : List Wire
  pub done : Table ℕ (Option Err)
  pub tickets : ℕ

-- startWriter, with the cache that `New` seeds.
abbrev pub start_writer : Writer
start_writer = record {
  queue = [];
  shutdown = false;
  dead = false;
  write_err = none;
  lower_names = common_lower_names;
  wire = [];
  done = [];
  tickets = 0;
}

abbrev pub or_lower : Option Bytes → Bytes → Bytes
or_lower none k = to_lower k
or_lower (some lk) k = lk

-- c.lowerNames[k], or what `ToLower` makes of the name.
abbrev pub cached_name : Table Bytes Bytes → Bytes → Bytes
cached_name names k = or_lower (lookup k names) k

abbrev pub remember : Option Bytes → Bytes → Table Bytes Bytes → Table Bytes Bytes
remember none k names = insert k (to_lower k) names
remember (some lk) k names = names

abbrev pub remember_name : Table Bytes Bytes → Bytes → Table Bytes Bytes
remember_name names k = remember (lookup k names) k names

-- The cache after the loop, and the fields in the order in which they are encoded.
unfoldable pub encode_regular_headers : Table Bytes Bytes → Header → Table Bytes Bytes × List Field
encode_regular_headers names [] = (names, [])
encode_regular_headers names ((k, vv) ∷ header) =
    let lk = cached_name names k in
    let (names, fields) = encode_regular_headers (remember_name names k) header in
    if forbidden_forward_header lk
    then (names, fields)
    else (names, map (λ v. (lk, v)) vv ++ fields)

abbrev pub response_pseudo : ℕ → List Field
response_pseudo status = (codes ":status", status_string status) ∷ []

-- An empty scheme is written as https, and an empty authority not at all.
abbrev pub request_pseudo : Bytes → Bytes → Bytes → Bytes → List Field
request_pseudo method scheme authority path =
    let scheme = if scheme == [] then codes "https" else scheme in
    let rest = (codes ":path", path) ∷ [] in
    (codes ":method", method)
    ∷ (codes ":scheme", scheme)
    ∷ (if authority == [] then rest else (codes ":authority", authority) ∷ rest)

-- What the framer answers to a write after the writes so far: `none` for nil.
pub record Framer : Type 0 where
  pub write : List Wire → Wire → Option Err

abbrev pub emitted : Option Err → Writer → Wire → Writer × Option Err
emitted none w x = (record w { wire = w.wire ++ x ∷ [] }, none)
emitted (some e) w x = (w, some e)

-- The error that every queued intent gets: the loop's, or that of a closed connection.
abbrev pub exit_error : Option Err → Err
exit_error none = conn_closed
exit_error (some e) = e

-- `if intent.done != nil { intent.done <- err }`
unfoldable pub answer : Option ℕ → Option Err → Writer → Writer
answer none err w = w
answer (some ticket) err w = record w { done = (ticket, err) ∷ w.done }

-- The drain of the deferred function: every intent that is still queued gets the error.
unfoldable pub drain_queue : Err → List (Option ℕ × Intent) → Writer → Writer
unfolding answer
drain_queue e [] w = record w { queue = [] }
drain_queue e ((ticket, i) ∷ rest) w = drain_queue e rest (answer ticket (some e) w)

-- The deferred function of runWriter; `none` is a loop that ended without an error.
unfoldable pub exit_writer : Option Err → Writer → Writer
unfolding drain_queue
exit_writer loop_err w =
    drain_queue (exit_error loop_err) w.queue
      (record w { write_err = some (exit_error loop_err); dead = true })

-- How a round ends, after the intent has been processed and answered.
abbrev pub go_on : Option Err → Writer → Writer
go_on none w = w
go_on (some e) w = exit_writer (some e) w

-- One round of the loop that finds writeShutdown closed.
unfoldable pub stop : Writer → Writer
unfolding exit_writer
stop w = if not w.dead && w.shutdown then exit_writer none w else w

-- close(c.writeShutdown)
unfoldable pub shutdown_writer : Writer → Writer
shutdown_writer w = record w { shutdown = true }

-- `c.writeQ <- intent`, where the queue has room.
unfoldable pub enqueue : Option ℕ → Intent → Writer → Writer
enqueue ticket i w =
    if ltb (length w.queue) write_q_size
    then record w { queue = w.queue ++ (ticket, i) ∷ [] }
    else w

abbrev awaited : Option (Option Err) → Writer → Option (Option Err)
awaited (some err) w = some err
awaited none w = if w.dead then some w.write_err else none

-- What a submitter that holds `ticket` reads: the answer on its done channel, or the writer's
-- exit error, or nothing yet.
unfoldable pub await : ℕ → Writer → Option (Option Err)
await ticket w = awaited (lookup ticket w.done) w

module _ (framer : Framer) where
  emit : Writer → Wire → Writer × Option Err
  emit w x = emitted (framer.write w.wire x) w x

  write_headers : Writer → ℕ → List Field → Header → Bool → Writer × Option Err
  unfolding emit
  write_headers w stream_id pseudo header end_stream =
      let (names, fields) = encode_regular_headers w.lower_names header in
      emit (record w { lower_names = names }) (Wire.headers stream_id (pseudo ++ fields) end_stream)

  unfoldable pub process_intent : Writer → Intent → Writer × Option Err
  unfolding emit write_headers
  process_intent w Intent.settings_ack = emit w Wire.settings_ack
  process_intent w (Intent.window_update id inc) = emit w (Wire.window_update id inc)
  process_intent w (Intent.ping ack opaque) = emit w (Wire.ping ack opaque)
  process_intent w (Intent.rst_stream id code) = emit w (Wire.rst_stream id code)
  process_intent w (Intent.body id bytes end_stream) = emit w (Wire.body id bytes end_stream)
  process_intent w (Intent.resp_headers id status header end_stream) =
      write_headers w id (response_pseudo status) header end_stream
  process_intent w (Intent.req_headers id method scheme authority path header end_stream) =
      write_headers w id (request_pseudo method scheme authority path) header end_stream
  process_intent w (Intent.set_max_dyn_tab v) =
      (record w { wire = w.wire ++ Wire.table_size v ∷ [] }, none)
  process_intent w (Intent.go_away id code) = emit w (Wire.go_away id code)

  -- The loop of runWriter takes one intent; the writer is not dead.
  unfoldable pub take_one : Option ℕ → Intent → List (Option ℕ × Intent) → Writer → Writer
  take_one ticket i rest w =
      let (w, err) = process_intent (record w { queue = rest }) i in go_on err (answer ticket err w)

  abbrev take_from : List (Option ℕ × Intent) → Writer → Writer
  take_from [] w = w
  take_from ((ticket, i) ∷ rest) w = take_one ticket i rest w

  -- One round of the loop that finds an intent, if there is one and the writer runs.
  unfoldable pub take_intent : Writer → Writer
  take_intent w = if w.dead then w else take_from w.queue w

  unfoldable pub take_many : ℕ → Writer → Writer
  take_many zero w = w
  take_many (suc n) w = take_many n (take_intent w)

  -- A sender that finds the queue full waits until the writer has taken an intent, or has died.
  unfoldable pub make_room : Writer → Writer
  make_room w = if ltb (length w.queue) write_q_size then w else take_intent w

  -- `submitAsync`: a dead writer's intent is dropped.
  unfoldable pub submit_async : Writer → Intent → Writer
  submit_async w i = let w = make_room w in if w.dead then w else enqueue none i w

  -- `submit`: the caller waits until its intent has been processed, with all that is queued before
  -- it; the result is the error that it reads.
  unfoldable pub submit : Writer → Intent → Writer × Option Err
  submit w i =
      let w = make_room w in
      if w.dead
      then (w, w.write_err)
      else (let ticket = w.tickets in
          let w = enqueue (some ticket) i (record w { tickets = ticket + 1 }) in
          let w = take_many (length w.queue) w in
          (w, elim (await ticket w) [ some err ↦ err | none ↦ none ]))
