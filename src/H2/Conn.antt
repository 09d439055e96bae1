-- ===== src/H2/Conn.antt =====
-- internal/h2/conn.go: the connection, its stream registry, graceful drain, PING liveness, the
-- settings of the peer and the frames that need no header decoding. A method that runs under
-- `streamsMu` is one step. `sent` has the intents that were handed to the writer, in order.
pub mod Decode
pub mod Drain
pub mod Settings
pub mod Inbound
pub mod Liveness
use reverse_http.Prelude.{
  ℕ, suc, ◌+◌, ◌-◌, ◌*◌, ◌^◌, ◌%◌, Bool, true, false, ◌&&◌, ◌||◌, not, Option, none, some, List, [],
  ◌∷◌, ◌++◌, map, length, ltb, leb, if◌then◌else◌, Bytes, ◌==◌, nat_eq,
}
use reverse_http.Prelude.Int.{ℤ, pos}
use reverse_http.Prelude.Table.{Table, lookup, insert, delete}
use reverse_http.H2.Errors.{
  Err, ErrCode, stream_closed, stream_reset, ping_timeout, bad_settings, no_stream_limit,
}
use reverse_http.H2.Flow.{
  SendCredit, apply_initial_window_delta, add_conn, add_stream, default_initial_window,
}
use reverse_http.H2.Names.{common_canon_names}
use reverse_http.H2.Stream.{Stream, DataChunk, push_data, close_data, fail_body}
use reverse_http.H2.Writer.{Intent}

-- `ping_deadline` is a time; `ping_data` the number that the eight bytes spell. The `uint32` and
-- `uint64` fields are kept below 2^32 and 2^64 by the operations.
pub record Conn : Type 0 where
  pub streams : Table ℕ Stream
  pub send : SendCredit
  pub sent : List Intent
  pub draining : Bool
  pub drain_started : Bool
  pub drain_done : Bool
  pub ping_pending : Bool
  pub ping_data : ℕ
  pub ping_counter : ℕ
  pub ping_deadline : ℕ
  pub max_frame_size : ℕ
  pub peer_max_streams : ℕ
  pub last_stream_id : ℕ
  pub next_stream_id : ℕ
  pub cont_stream_id : ℕ
  pub cont_stream_ended : Bool
  pub cont_block : Bytes
  pub canon_names : Table Bytes Bytes

-- `New`, after the initial SETTINGS have been written.
abbrev pub new_conn : Conn
new_conn = record {
  streams = [];
  send = record {
    cond = none;
    conn_send_window = default_initial_window;
    peer_init_window = default_initial_window;
    dead = false;
  };
  sent = [];
  draining = false;
  drain_started = false;
  drain_done = false;
  ping_pending = false;
  ping_data = 0;
  ping_counter = 0;
  ping_deadline = 0;
  max_frame_size = 16384;
  peer_max_streams = no_stream_limit;
  last_stream_id = 0;
  next_stream_id = 0;
  cont_stream_id = 0;
  cont_stream_ended = false;
  cont_block = [];
  canon_names = common_canon_names;
}

unfoldable pub submitted : Conn → Intent → Conn
submitted c intent = record c { sent = c.sent ++ intent ∷ [] }

unfoldable pub max_frame_size_of : Conn → ℕ
max_frame_size_of c = if c.max_frame_size == 0 then 16384 else c.max_frame_size

unfoldable pub next_stream_id : Conn → Conn × ℕ
next_stream_id c =
    let id = if c.next_stream_id == 0 then 1 else (c.next_stream_id + 2) % 2 ^ 32 in
    (record c { next_stream_id = id }, id)

-- The stream registry.

unfoldable pub add_to_registry : Conn → Stream → Conn
add_to_registry c s = record c { streams = insert s.id s c.streams }

unfoldable pub get_stream : Conn → ℕ → Option Stream
get_stream c id = lookup id c.streams

unfoldable pub finish_drain : Conn → Conn
finish_drain c = record c { drain_done = true }

unfoldable pub remove_stream : Conn → ℕ → Conn
unfolding finish_drain
remove_stream c id =
    let c = record c { streams = delete id c.streams } in
    if length c.streams == 0 && c.draining then finish_drain c else c

abbrev pub each_stream : (Stream → Stream) → Table ℕ Stream → Table ℕ Stream
each_stream f = map λ (e : ℕ × Stream). (e.0, f e.1)

unfoldable pub fail_all_streams : Conn → Err → Conn
fail_all_streams c err = record c { streams = each_stream (λ s. fail_body s err) c.streams }

-- Graceful drain.

unfoldable pub begin_drain : Conn → Conn
unfolding finish_drain
begin_drain c =
    let c = record c { draining = true; drain_started = true } in
    if length c.streams == 0 then finish_drain c else c

unfoldable pub drain_complete : Conn → Bool
drain_complete c = c.drain_done

-- PING liveness. `now` is time.Now().

abbrev pub ping_timeout_ns : ℕ
ping_timeout_ns = 15 * 10 ^ 9

unfoldable pub send_or_check_ping : ℕ → Conn → Conn × Option Err
unfolding submitted
send_or_check_ping now c =
    if c.ping_pending
    then (c, if ltb c.ping_deadline now then some ping_timeout else none)
    else (let counter = (c.ping_counter + 1) % 2 ^ 64 in
        let c = record c {
          ping_counter = counter;
          ping_pending = true;
          ping_data = counter;
          ping_deadline = now + ping_timeout_ns;
        } in
        (submitted c (Intent.ping false counter), none))

unfoldable pub handle_ping_ack : Conn → ℕ → Conn
handle_ping_ack c payload =
    if c.ping_pending && (c.ping_data == payload) then record c { ping_pending = false } else c

-- The settings of the peer.

pub data Setting : Type 0 where
  max_frame_size initial_window_size header_table_size : ℕ → Setting
  max_concurrent_streams enable_push : ℕ → Setting
  other : ℕ → ℕ → Setting

abbrev pub resized : Conn → SendCredit × (ℤ → ℤ) → Conn
resized c (send, adjust) = record c {
  send = send;
  streams = each_stream (λ s. record s { send_window = adjust s.send_window }) c.streams;
}

-- The function that `ForeachSetting` calls.
unfoldable pub apply_setting : Conn → Setting → Conn × Option Err
unfolding submitted
apply_setting c (Setting.max_frame_size v) =
    if ltb v 16384 || ltb 16777215 v
    then (c, some bad_settings)
    else (record c { max_frame_size = v }, none)
apply_setting c (Setting.initial_window_size v) =
    if ltb (2 ^ 31 - 1) v
    then (c, some bad_settings)
    else (resized c (apply_initial_window_delta c.send (pos v)), none)
apply_setting c (Setting.header_table_size v) = (submitted c (Intent.set_max_dyn_tab v), none)
apply_setting c (Setting.max_concurrent_streams v) = (record c { peer_max_streams = v }, none)
apply_setting c (Setting.enable_push v) = (c, if ltb 1 v then some bad_settings else none)
apply_setting c (Setting.other id v) = (c, none)

abbrev pub apply_rest : (Conn → Conn × Option Err) → Conn × Option Err → Conn × Option Err
apply_rest next (c, none) = next c
apply_rest next (c, some err) = (c, some err)

-- `ForeachSetting` stops at the first error.
unfoldable pub apply_peer_settings : List Setting → Conn → Conn × Option Err
apply_peer_settings [] c = (c, none)
apply_peer_settings (x ∷ xs) c = apply_rest (apply_peer_settings xs) (apply_setting c x)

-- Frames that need no decoding.

abbrev pub put_stream : Conn → ℕ → Stream → Conn
put_stream c id s = record c { streams = insert id s c.streams }

abbrev pub to_stream : (Stream → Stream) → ℕ → Conn → Option Stream → Conn
to_stream f id c none = c
to_stream f id c (some s) = put_stream c id (f s)

-- The stream's share of an inbound DATA frame. `bp` is the buffer that GetDataSlice has given.
unfoldable pub receive : ℕ → Bytes → Bool → Stream → Stream
receive bp bytes end_stream s =
    let s =
      if ltb 0 (length bytes) then push_data s (record { bytes = bytes; bp = some bp }) else s in
    if end_stream then close_data s else s

-- `HandleInboundData` once the connection has been credited.
abbrev pub inbound : ℕ → ℕ → Bytes → ℕ → Bool → Conn → Option Stream → Conn
inbound bp id bytes flow_len end_stream c none =
    if ltb 0 flow_len then submitted c (Intent.rst_stream id stream_closed) else c
inbound bp id bytes flow_len end_stream c (some s) =
    let c = if ltb 0 flow_len then submitted c (Intent.window_update id flow_len) else c in
    put_stream c id (receive bp bytes end_stream s)

unfoldable pub handle_inbound_data : ℕ → Conn → ℕ → Bytes → ℕ → Bool → Conn
unfolding get_stream
handle_inbound_data bp c id bytes flow_len end_stream =
    let c' = if ltb 0 flow_len then submitted c (Intent.window_update 0 flow_len) else c in
    inbound bp id bytes flow_len end_stream c' (get_stream c id)

abbrev pub credit_stream : ℕ → Conn → ℤ → Option Stream → Conn
credit_stream id c inc none = c
credit_stream id c inc (some s) =
    let (send, window) = add_stream c.send s.send_window inc in
    put_stream (record c { send = send }) id (record s { send_window = window })

unfoldable pub handle_window_update : Conn → ℕ → ℤ → Conn
unfolding get_stream
handle_window_update c id inc =
    if id == 0
    then record c { send = add_conn c.send inc }
    else credit_stream id c inc (get_stream c id)

unfoldable pub handle_rst_stream : Conn → ℕ → Conn
unfolding get_stream
handle_rst_stream c id = to_stream (λ s. fail_body s stream_reset) id c (get_stream c id)
