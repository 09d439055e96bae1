-- ===== src/Examples/Connection.antt =====
-- Instances for internal/h2: the connection, its streams and its writer; and for request targets.
use reverse_http.Prelude.{
  ◌+◌, ◌*◌, ◌≤◌, ◌-◌, ◌<◌, ◌^◌, ◌≡◌, ◌≢◌, refl, ◌⊎◌, inr, ◌↔◌, Bool, true, false, none, some, List,
  [], ◌∷◌, ◌++◌, arith, length, Bytes, codes, bytes_beq, All,
}
use reverse_http.Prelude.Int.{pos, ◌+ℤ◌, ◌-ℤ◌, int32}
use reverse_http.Prelude.Table.{lookup, insert, delete}
use reverse_http.H2.Errors.{ping_timeout}
use reverse_http.H2.Flow.Credit.{last_size}
use reverse_http.H2.Names.{common_lower_names, common_canon_names}
use reverse_http.H2.Writer.{Intent, Framer, Header, Field, start_writer, encode_regular_headers}
use reverse_http.H2.Writer.Headers.{
  Lowered, common_lower_names-Lowered, plain_fields, encode_regular_headers_lem,
}
use reverse_http.H2.Writer.Order
use reverse_http.H2.Conn.{
  Conn, new_conn, Setting, apply_peer_settings, send_or_check_ping, drain_complete, add_to_registry,
  get_stream,
}
use reverse_http.H2.Conn.Decode.{no_scratch, emit_all, start_headers, in_continuation}
use reverse_http.H2.Conn.Decode.Canon.{
  Faithful, reference_all, common_canon_names-Faithful, emit_all_lem,
}
use reverse_http.H2.Conn.Decode.Fragments.{
  feed, read_block, continuations, fragmentation_irrelevant, block_bounded,
}
use reverse_http.H2.Conn.Drain
use reverse_http.H2.Conn.Inbound.{DataFrame, receive_all, credited, flow_of, window_refilled}
use reverse_http.H2.Conn.Liveness.{handle_acks, next_payload, watchdog}
use reverse_http.H2.Conn.Settings.{
  Limits, Legal, HasWindow, sizes_in, apply_peer_settings-Limits, windows_shift,
}
use reverse_http.H2.Stream
use reverse_http.H2.Stream.{
  DataChunk, Stream, acquire, release, close_body, got, all_handles, Op, run, pushes, reads,
  closes_data, closes_body, fails_body,
}
use reverse_http.H2.Stream.Body.{received, unread, pushed, body_in_order}
use reverse_http.H2.Stream.Buffers.{brought, buffers_returned_once}
use reverse_http.H2.Stream.Queue.{Tidy, run-Tidy}
use reverse_http.Worker.Uri.{Url, parse_request_uri, path_unescape}
use reverse_http.Worker.Uri.Lossless.{escaped_path, parse_request_uri_lossless}

abbrev hello : DataChunk
hello = record { bytes = codes "hello"; bp = some 7 }

abbrev world : DataChunk
world = record { bytes = codes "world"; bp = some 8 }

-- Two chunks, read in pieces, and the end of the body.
abbrev two_chunks : List Op
two_chunks = pushes hello ∷ reads 3 ∷ pushes world ∷ reads 3 ∷ closes_data ∷ reads 9 ∷ []

body_in_order_example :
    received (acquire 1 (pos 65535)) two_chunks ++ unread (run (acquire 1 (pos 65535)) two_chunks)
    ≡ pushed two_chunks
body_in_order_example = body_in_order 1 (pos 65535) two_chunks tt

-- The reader closes the body in the middle of a chunk.
abbrev closed_early : List Op
closed_early = pushes hello ∷ reads 3 ∷ pushes world ∷ closes_body ∷ []

buffers_returned_once_example :
    (release (run (acquire 1 (pos 65535)) closed_early)).returned ≡ brought closed_early
buffers_returned_once_example = buffers_returned_once 1 (pos 65535) closed_early

abbrev partly_read : Stream
partly_read = record (acquire 1 (pos 65535)) { buf = codes "lo"; buf_bp = some 7 }

run-Tidy_example :
    let v = run (acquire 1 (pos 65535)) two_chunks in
    Tidy v × (length v.queue ≤ 2 * (length v.queue - v.q_head) + 8)
run-Tidy_example = run-Tidy 1 (pos 65535) two_chunks

abbrev starting : Conn
starting = new_conn

starting-Limits : Limits starting
starting-Limits = record {
  frame_size = (omega arith, omega arith);
  window_size = (omega arith, (omega arith, omega arith));
}

abbrev peer_settings : List Setting
peer_settings =
    Setting.initial_window_size 1000
    ∷ Setting.max_frame_size 20000
    ∷ Setting.initial_window_size 70000
    ∷ []

apply_peer_settings-Limits_example :
    Limits (apply_peer_settings peer_settings starting).0
    × (((apply_peer_settings peer_settings starting).1 ≡ none) ↔ All Legal peer_settings)
apply_peer_settings-Limits_example =
    apply_peer_settings-Limits peer_settings starting starting-Limits

abbrev one_stream : Conn
one_stream = record new_conn { streams = (1, acquire 1 (pos 65535)) ∷ [] }

one_stream-Limits : Limits one_stream
one_stream-Limits = record {
  frame_size = (omega arith, omega arith);
  window_size = (omega arith, (omega arith, omega arith));
}

windows_shift_example :
    HasWindow 1
      (int32 (pos 65535 +ℤ (last_size (pos 65535) (sizes_in peer_settings) -ℤ pos 65535)))
      (apply_peer_settings peer_settings one_stream).0
unfolding lookup
windows_shift_example =
    windows_shift peer_settings one_stream 1 (pos 65535) one_stream-Limits
      (omega arith, ((omega arith, omega arith), (omega arith, tt))) (omega arith, omega arith)
      (acquire 1 (pos 65535), (refl, refl))

-- One frame for the stream, with padding, and one for a stream that is gone.
abbrev data_frames : List DataFrame
data_frames =
    record { bp = 7; id = 1; bytes = codes "hello"; flow_len = 9; end_stream = false }
    ∷ record { bp = 8; id = 3; bytes = codes "late"; flow_len = 4; end_stream = true }
    ∷ []

window_refilled_example :
    credited 1 (receive_all data_frames one_stream).sent ≡ credited 1 [] + flow_of 1 data_frames
unfolding get_stream lookup
window_refilled_example =
    window_refilled data_frames one_stream 1
      ((λ h. absurd (omega arith)), ((λ h. absurd (omega arith)), tt)) (inr refl)

watchdog_example :
    ((send_or_check_ping 30000000000 (handle_acks (5 ∷ 6 ∷ []) (send_or_check_ping 0 starting).0)).1
      ≡ some ping_timeout)
    ↔ (All (λ a. a ≢ next_payload starting) (5 ∷ 6 ∷ []) × (0 + 15 * 10 ^ 9 < 30000000000))
watchdog_example = watchdog starting 0 30000000000 (5 ∷ 6 ∷ []) refl

-- A drain that begins while a stream is open, whose removal then completes it.
abbrev draining_run : List Drain.Step
draining_run =
    Drain.adds (acquire 1 (pos 65535))
    ∷ Drain.removes 1
    ∷ Drain.begins
    ∷ Drain.counts
    ∷ Drain.checks 0
    ∷ Drain.finishes
    ∷ Drain.finishes
    ∷ []

drain_completes_example : drain_complete (Drain.run (Drain.alone new_conn) draining_run).conn ≡ true
unfolding Drain.run Drain.step delete add_to_registry insert
drain_completes_example =
    Drain.drain_completes draining_run (Drain.run (Drain.alone new_conn) draining_run) refl refl
      refl refl refl refl

-- A decoder that takes the block for the value of one field.
abbrev one_field : Bool → Bytes → Bool × List Field × Bool
one_field d block = (d, (codes "x-block", block) ∷ [], false)

fragmentation_irrelevant_example :
    read_block one_field
      (new_conn, true)
      (record { id = 1; fragment = codes "ab"; headers_ended = false; stream_ended = true })
      (continuations one_field (codes "cd" ∷ [] ∷ []) (codes "ef"))
    ≡ start_headers one_field
        (new_conn, true)
        (record { id = 1; fragment = codes "abcdef"; headers_ended = true; stream_ended = true })
unfolding in_continuation
fragmentation_irrelevant_example =
    fragmentation_irrelevant one_field new_conn true 1 (codes "ab") (codes "cd" ∷ [] ∷ [])
      (codes "ef") true refl refl refl (omega arith)

block_bounded_example :
    length
      (feed one_field
        (record { fragment = codes "ab"; headers_ended = false } ∷ [])
        (new_conn, true)).0.0.cont_block
    ≤ 2 ^ 20
block_bounded_example =
    block_bounded one_field (record { fragment = codes "ab"; headers_ended = false } ∷ []) new_conn
      true (omega arith, tt) (omega arith)

abbrev two_fields : List Field
two_fields = (codes ":path", codes "/") ∷ (codes "x-new", codes "1") ∷ []

emit_all_lem_example :
    ((emit_all two_fields (common_canon_names, no_scratch)).1 ≡ reference_all two_fields no_scratch)
    × Faithful (emit_all two_fields (common_canon_names, no_scratch)).0
emit_all_lem_example =
    emit_all_lem two_fields common_canon_names no_scratch common_canon_names-Faithful

abbrev response_header : Header
response_header = (codes "Keep-Alive", codes "5" ∷ []) ∷ (codes "X-New", codes "1" ∷ []) ∷ []

encode_regular_headers_lem_example :
    Lowered (encode_regular_headers common_lower_names response_header).0
    × ((encode_regular_headers common_lower_names response_header).1 ≡ plain_fields response_header)
encode_regular_headers_lem_example =
    encode_regular_headers_lem common_lower_names response_header common_lower_names-Lowered

-- A framer that takes every frame.
abbrev willing : Framer
willing = record { write = λ wire x. none }

abbrev writer_ops : List Order.Op
writer_ops =
    Order.enqueues none Intent.settings_ack
    ∷ Order.enqueues (some 0) (Intent.body 1 (codes "a") true)
    ∷ Order.takes
    ∷ Order.shuts_down
    ∷ Order.takes
    ∷ []

wire_in_order_example :
    Order.Fifo
      (Order.submitted willing start_writer writer_ops)
      (Order.run willing start_writer writer_ops)
wire_in_order_example = Order.wire_in_order willing writer_ops

abbrev some_url : Url
some_url = record { path = codes "/a b"; raw_path = codes "/a%20b"; raw_query = codes "q=1" }

parse_request_uri_lossless_example :
    (((escaped_path some_url ≡ codes "/a%20b?q=1") × (some_url.raw_query ≡ []))
      ⊎ (escaped_path some_url ++ b'?' ∷ some_url.raw_query ≡ codes "/a%20b?q=1"))
    × (path_unescape (escaped_path some_url) ≡ some some_url.path)
unfolding parse_request_uri bytes_beq
parse_request_uri_lossless_example = parse_request_uri_lossless (codes "/a%20b?q=1") some_url refl
