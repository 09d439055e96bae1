-- ===== src/Proxy/Tunnel.antt =====
-- internal/proxy/worker.go: one attached tunnel as the proxy sees it. A method that runs under
-- `streamsMu` is one step.
pub mod Response
pub mod Opening
pub mod Ids
use reverse_http.Prelude.{
  ℕ, ◌+◌, ◌%◌, ◌^◌, Bool, true, false, Option, none, some, List, [], ◌∷◌, ◌++◌, length, map, ltb,
  leb, if◌then◌else◌, ◌==◌, nat_eq,
}
use reverse_http.Prelude.Int.{ℤ, pos}
use reverse_http.Prelude.Table.{Table, lookup, insert, delete}
use reverse_http.H2.Errors.{Err, stream_reset}
use reverse_http.H2.Conn.{Conn, add_to_registry, remove_stream, next_stream_id, begin_drain}
use reverse_http.H2.Stream.{Stream, acquire}
use reverse_http.H2.Writer.{Header}

-- clientStream. `closed` is whether respCh is closed, which goes with respOnce; the stream that it
-- wraps is in the registry of the connection.
pub record ClientStream : Type 0 where
  pub resp_err : Option Err
  pub resp_status : ℤ
  pub resp_header : Header
  pub closed : Bool

abbrev pub new_client : ClientStream
new_client = record { resp_err = none; resp_status = pos 0; resp_header = []; closed = false }

unfoldable pub deliver_headers : ℤ → Header → ClientStream → ClientStream
deliver_headers status header cs =
    if cs.closed
    then cs
    else record cs { resp_status = status; resp_header = header; closed = true }

unfoldable pub fail : Err → ClientStream → ClientStream
fail err cs = if cs.closed then cs else record cs { resp_err = some err; closed = true }

-- `announced` has the stream IDs that were passed to `sendHeaders`, in order.
pub record Worker : Type 0 where
  pub conn : Conn
  pub streams : Table ℕ ClientStream
  pub announced : List ℕ

pub data OpenErr : Type 0 where
  draining saturated : OpenErr
  sending : Err → OpenErr

pub data Opened : Type 0 where
  opened : ℕ → Opened
  refused : OpenErr → Opened

unfoldable pub is_saturated : Worker → Bool
is_saturated w = leb w.conn.peer_max_streams (length w.streams % 2 ^ 32)

-- What `openStream` does with the answer of `sendHeaders`, the stream being registered.
abbrev pub settled : Worker → ℕ → Option Err → Worker × Opened
settled w id none = (w, opened id)
settled w id (some err) = (
  record w { streams = delete id w.streams; conn = remove_stream w.conn id },
  refused (sending err),
)

unfoldable pub open_stream : (ℕ → Option Err) → ℤ → Worker → Worker × Opened
unfolding is_saturated
open_stream send_headers initial_window w =
    if w.conn.draining
    then (w, refused draining)
    else if is_saturated w
    then (w, refused saturated)
    else (let (c, id) = next_stream_id w.conn in
        let w = record w {
          conn = add_to_registry c (acquire id initial_window);
          streams = insert id new_client w.streams;
          announced = w.announced ++ id ∷ [];
        } in
        settled w id (send_headers id))

unfoldable pub deregister_stream : ℕ → Worker → Worker
deregister_stream id w = record w { streams = delete id w.streams }

-- The deferred function of `forward` (internal/proxy/forward.go).
unfoldable pub finish_forward : ℕ → Worker → Worker
unfolding deregister_stream
finish_forward id w = deregister_stream id (record w { conn = remove_stream w.conn id })
