-- ===== src/H2/Stream.antt =====
-- internal/h2/stream.go: the inbound body of a stream, as a queue of DATA chunks that `bodyReader`
-- consumes. A call that runs under `mu` is one step; a buffer of the pool goes by a number, and
-- `returned` lists the buffers that were passed to `PutDataSlice`. `cond` is left out: `waits` is
-- the answer of a call of `Read` that would sleep on it.
pub mod Queue
pub mod Body
pub mod Buffers
use reverse_http.Prelude.{
  ℕ, zero, suc, ◌*◌, Bool, true, false, ◌&&◌, not, Option, none, some, List, [], ◌∷◌, ◌++◌, length,
  take, drop, ltb, leb, min, if◌then◌else◌, Bytes, ◌==◌, nat_eq, get_elem?,
}
use reverse_http.Prelude.Int.{ℤ}
use reverse_http.H2.Errors.{Err}

-- internal/h2/pools.go: `bp` is the handle of the pooled buffer that `bytes` stands in.
pub record DataChunk : Type 0 where
  pub bytes : Bytes
  pub bp : Option ℕ

abbrev pub blank : DataChunk
blank = record { bytes = []; bp = none }

-- `cancelled` is whether Cancel was called. `buf` and `buf_bp` are the fields of `bodyReader`.
pub record Stream : Type 0 where
  pub id : ℕ
  pub send_window : ℤ
  pub queue : List DataChunk
  pub q_head : ℕ
  pub data_done : Bool
  pub data_err : Option Err
  pub cancelled : Bool
  pub buf : Bytes
  pub buf_bp : Option ℕ
  pub returned : List ℕ

abbrev pub acquire : ℕ → ℤ → Stream
acquire id initial_window = record {
  id = id;
  send_window = initial_window;
  queue = [];
  q_head = 0;
  data_done = false;
  data_err = none;
  cancelled = false;
  buf = [];
  buf_bp = none;
  returned = [];
}

abbrev pub handles : Option ℕ → List ℕ
handles none = []
handles (some bp) = bp ∷ []

-- The handles of the chunks, in order.
pub all_handles : List DataChunk → List ℕ
all_handles [] = []
all_handles (c ∷ q) = handles c.bp ++ all_handles q

unfoldable pub return_buf : Stream → Stream
return_buf s = record s { buf_bp = none; returned = s.returned ++ handles s.buf_bp }

unfoldable pub push_data : Stream → DataChunk → Stream
push_data s chunk = record s { queue = s.queue ++ chunk ∷ [] }

unfoldable pub close_data : Stream → Stream
close_data s = record s { data_done = true }

abbrev pub first_error : Option Err → Err → Option Err
first_error none err = some err
first_error (some e) err = some e

unfoldable pub fail_body : Stream → Err → Stream
fail_body s err = record s {
  data_err = first_error s.data_err err;
  data_done = true;
  cancelled = true;
}

-- What `Read` answers. `panics` is an index out of range.
pub data Reading : Type 0 where
  got : Bytes → Reading
  fails : Err → Reading
  eof waits panics : Reading

abbrev pub at_end : Option Err → Reading
at_end none = eof
at_end (some err) = fails err

-- `s.queue[i] = DataChunk{}`
abbrev pub clear_chunk : List DataChunk → ℕ → List DataChunk
clear_chunk [] i = []
clear_chunk (c ∷ q) zero = blank ∷ q
clear_chunk (c ∷ q) (suc i) = c ∷ clear_chunk q i

unfoldable pub compact : Stream → Stream
compact s =
    if ltb 8 s.q_head && leb (length s.queue) (s.q_head * 2)
    then record s { queue = drop s.q_head s.queue; q_head = 0 }
    else s

-- After `s.queue[s.qHead]` has been read, for a destination of `n` bytes.
unfoldable pub consume : ℕ → Stream → DataChunk → Stream × Reading
unfolding compact return_buf
consume n s chunk =
    let s = compact (record s { queue = clear_chunk s.queue s.q_head; q_head = suc s.q_head }) in
    let s = record s { buf_bp = chunk.bp } in
    if ltb (min n (length chunk.bytes)) (length chunk.bytes)
    then (record s { buf = drop n chunk.bytes }, got (take n chunk.bytes))
    else (return_buf s, got (take n chunk.bytes))

abbrev pub consume_at : ℕ → Stream → Option DataChunk → Stream × Reading
consume_at n s none = (s, panics)
consume_at n s (some chunk) = consume n s chunk

-- `Read` for a destination of `n` bytes.
unfoldable pub read : ℕ → Stream → Stream × Reading
unfolding return_buf
read n s =
    if ltb 0 (length s.buf)
    then (let rest = drop n s.buf in
        let next = record s { buf = rest } in
        ((if length rest == 0 then return_buf next else next), got (take n s.buf)))
    else if s.q_head == length s.queue
    then (s, if s.data_done then at_end s.data_err else waits)
    else consume_at n s (get_elem? s.queue s.q_head)

-- `Close` of the body.
unfoldable pub close_body : Stream → Stream
unfolding return_buf
close_body s =
    let s = return_buf s in
    record s {
      queue = [];
      q_head = 0;
      returned = s.returned ++ all_handles (drop s.q_head s.queue);
    }

unfoldable pub release : Stream → Stream
unfolding return_buf
release s =
    let s = return_buf s in
    record s {
      cancelled = true;
      queue = [];
      q_head = 0;
      data_err = none;
      returned = s.returned ++ all_handles (drop s.q_head s.queue);
    }

-- The calls that a stream sees between Acquire and Release.
pub data Op : Type 0 where
  pushes : DataChunk → Op
  reads : ℕ → Op
  closes_data closes_body : Op
  fails_body : Err → Op

unfoldable pub step : Stream → Op → Stream
step s (pushes chunk) = push_data s chunk
step s (reads n) = (read n s).0
step s closes_data = close_data s
step s closes_body = close_body s
step s (fails_body err) = fail_body s err

unfoldable pub run : Stream → List Op → Stream
run s [] = s
run s (op ∷ ops) = run (step s op) ops
