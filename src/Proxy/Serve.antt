-- ===== src/Proxy/Serve.antt =====
-- internal/proxy/tunnel.go: the frame loop of a tunnel, with its teardown. The events are what the
-- loop meets, in order, and what forwarders do on their own goroutines in between; the frames are
-- those of the framer, as in the loop of a worker.
pub mod Grown
pub mod Changes
pub mod Matched
pub mod Teardown
pub mod Kept
use reverse_http.Prelude.{
  ℕ, Bool, true, false, not, ◌||◌, Option, none, some, List, [], ◌∷◌, ◌++◌, map, if◌then◌else◌,
  Bytes, ◌==◌, nat_eq,
}
use reverse_http.Prelude.Int.{ℤ}
use reverse_http.Prelude.Decimal.{atoi}
use reverse_http.Prelude.Table.{Table, lookup, insert}
use reverse_http.H2.Errors.{
  Err, ErrCode, no_error, stream_closed, conn_closed, goaway, cont_interleaved, stream_reset,
}
use reverse_http.H2.Flow.{mark_dead}
use reverse_http.H2.Conn.{
  Conn, submitted, get_stream, to_stream, apply_peer_settings, handle_window_update,
  handle_inbound_data, handle_ping_ack, begin_drain, handle_rst_stream, drain_complete,
  fail_all_streams, send_or_check_ping, remove_stream,
}
use reverse_http.H2.Conn.Decode.{
  DecodedHeaders, HeadersFrame, ContinuationFrame, Result, in_continuation, start_headers,
  consume_continuation,
}
use reverse_http.H2.Stream.{close_data, fail_body}
use reverse_http.H2.Writer.{Field, Intent}
use reverse_http.Worker.Frames.{
  Frame, settings, window_update, headers, data_frame, ping, go_away, rst_stream, continuation,
  unknown,
}
use reverse_http.Proxy.Tunnel.{
  ClientStream, Worker, deliver_headers, fail, open_stream, deregister_stream,
}

-- `detached` is whether the worker's shutdownCh is closed.
pub record Session (D : Type 0) : Type 0 where
  pub worker : Worker
  pub decoder : D
  pub detached : Bool

-- What forwarders do on their own goroutines: open a stream, with the answers of `sendHeaders`, and
-- at the end of a forward `RemoveStream` and then `deregisterStream`, each under its own lock.
pub data Act : Type 0 where
  opens : (ℕ → Option Err) → ℤ → Act
  removes deregisters : ℕ → Act

-- What forwarders do between the deferred calls of `serveTunnel`: after MarkDead, after the worker's
-- failAllStreams, after that of the connection, and from SendGoAway on.
pub record Late : Type 0 where
  pub after_mark : List Act
  pub after_responses : List Act
  pub after_bodies : List Act
  pub after_goaway : List Act

-- An answer of ReadFrame: a frame, an error, or a timeout at a time, with its error and whether the
-- proxy has been shut down.
pub data Answer : Type 0 where
  frame : Frame → Answer
  breaks : Err → Answer
  times_out : ℕ → Err → Bool → Answer

-- A round of the loop: what forwarders do before its tests, whether the proxy has been shut down
-- by then, what they do until ReadFrame returns, its answer, and what they do during the deferred
-- calls if the loop returns.
pub record Round : Type 0 where
  pub before : List Act
  pub shut : Bool
  pub meanwhile : List Act
  pub answer : Answer
  pub late : Late

-- Whether the loop goes on, or how it returns.
pub data Ending : Type 0 where
  running : Ending
  returned : Option Err → Ending

-- `cs.fail(err)` for the stream `id`, if it is there.
abbrev pub fail_client : Err → ℕ → Worker → Option ClientStream → Worker
fail_client err id w none = w
fail_client err id w (some cs) = record w {
  streams = insert id (fail err cs) w.streams;
  conn = to_stream (λ s. fail_body s err) id w.conn (get_stream w.conn id);
}

-- `failAllStreams`, in two parts: the responses, and the bodies of the streams that they wrap.
abbrev pub fail_responses : Err → Table ℕ ClientStream → Table ℕ ClientStream
fail_responses err = map λ (e : ℕ × ClientStream). (e.0, fail err e.1)

unfoldable pub fail_bodies : Err → Table ℕ ClientStream → Conn → Conn
unfolding get_stream
fail_bodies err [] c = c
fail_bodies err ((id, _) ∷ css) c =
    fail_bodies err css (to_stream (λ s. fail_body s err) id c (get_stream c id))

unfoldable pub fail_worker_streams : Err → Worker → Worker
unfolding fail_bodies
fail_worker_streams err w = record w {
  streams = fail_responses err w.streams;
  conn = fail_bodies err w.streams w.conn;
}

unfoldable pub forwards : List Act → Worker → Worker
unfolding deregister_stream
forwards [] w = w
forwards (opens send window ∷ acts) w = forwards acts (open_stream send window w).0
forwards (removes id ∷ acts) w = forwards acts (record w { conn = remove_stream w.conn id })
forwards (deregisters id ∷ acts) w = forwards acts (deregister_stream id w)

abbrev pub ends_body : DecodedHeaders → Conn → Conn
ends_body decoded c =
    if decoded.end_stream
    then to_stream close_data decoded.stream_id c (get_stream c decoded.stream_id)
    else c

abbrev pub reset : ℕ → Worker → Worker
reset id w =
    let w = fail_client stream_reset id w (lookup id w.streams) in
    record w { conn = handle_rst_stream w.conn id }

module _ {D : Type 0} (decode : D → Bytes → D × List Field × Bool) where
  abbrev pub with_conn : Session D → Conn → Session D
  with_conn s c = record s { worker = record s.worker { conn = c } }

  abbrev pub delivered : DecodedHeaders → Session D → Option ClientStream → Session D
  delivered decoded s none =
      with_conn s (submitted s.worker.conn (Intent.rst_stream decoded.stream_id stream_closed))
  delivered decoded s (some cs) =
      let cs = deliver_headers (atoi decoded.scratch.status) decoded.scratch.header cs in
      record s {
        worker = record s.worker {
          streams = insert decoded.stream_id cs s.worker.streams;
          conn = ends_body decoded s.worker.conn;
        };
      }

  unfoldable pub deliver_response : DecodedHeaders → Session D → Session D
  unfolding submitted get_stream
  deliver_response decoded s = delivered decoded s (lookup decoded.stream_id s.worker.streams)

  abbrev pub at : Session D → Conn × D → Session D
  at s (c, d) = record s { worker = record s.worker { conn = c }; decoder = d }

  abbrev pub decoded_block : Session D → Result decode → Session D × Option Err
  decoded_block s (cd, out, some err) = (at s cd, some err)
  decoded_block s (cd, none, none) = (at s cd, none)
  decoded_block s (cd, some decoded, none) = (deliver_response decoded (at s cd), none)

  abbrev pub acknowledged : Session D → Conn × Option Err → Session D × Option Err
  acknowledged s (c, some err) = (with_conn s c, some err)
  acknowledged s (c, none) = (with_conn s (submitted c Intent.settings_ack), none)

  abbrev pub received_goaway : Session D → ErrCode → Session D × Option Err
  received_goaway s no_error = (with_conn s (begin_drain s.worker.conn), none)
  received_goaway s _ = (s, some goaway)

  unfoldable pub handle_proxy_frame : Session D → Frame → Session D × Option Err
  unfolding submitted get_stream deliver_response
  handle_proxy_frame s (settings ack xs) =
      if ack then (s, none) else acknowledged s (apply_peer_settings xs s.worker.conn)
  handle_proxy_frame s (window_update id inc) =
      (with_conn s (handle_window_update s.worker.conn id inc), none)
  handle_proxy_frame s (headers f) =
      decoded_block s (start_headers decode (s.worker.conn, s.decoder) f)
  handle_proxy_frame s (data_frame bp id bytes flow_len end_stream) =
      (with_conn s (handle_inbound_data bp s.worker.conn id bytes flow_len end_stream), none)
  handle_proxy_frame s (ping ack payload) =
      if ack
      then (with_conn s (handle_ping_ack s.worker.conn payload), none)
      else (with_conn s (submitted s.worker.conn (Intent.ping true payload)), none)
  handle_proxy_frame s (go_away code) = received_goaway s code
  handle_proxy_frame s (rst_stream id) = (record s { worker = reset id s.worker }, none)
  handle_proxy_frame s (continuation id f) = (s, none)
  handle_proxy_frame s unknown = (s, none)

  abbrev pub in_block : Session D → Frame → Session D × Option Err
  in_block s (continuation id f) =
      if not (id == s.worker.conn.cont_stream_id)
      then (s, some cont_interleaved)
      else decoded_block s (consume_continuation decode (s.worker.conn, s.decoder) f)
  in_block s _ = (s, some cont_interleaved)

  unfoldable pub serve_frame : Session D → Frame → Session D × Option Err
  unfolding handle_proxy_frame in_continuation deliver_response
  serve_frame s f = if in_continuation s.worker.conn then in_block s f else handle_proxy_frame s f

  abbrev pub pinged : Session D → Conn × Option Err → Session D × Option Err
  pinged s (c, err) = (with_conn s c, err)

  -- The deferred function of `serveTunnel`.
  unfoldable pub teardown : Late → Session D → Session D
  unfolding fail_worker_streams submitted forwards
  teardown late s =
      let c = s.worker.conn in
      let w =
        forwards late.after_mark
          (record s.worker { conn = record c { send = mark_dead c.send } }) in
      let w = forwards late.after_responses (fail_worker_streams conn_closed w) in
      let w =
        forwards late.after_bodies (record w { conn = fail_all_streams w.conn conn_closed }) in
      let w =
        forwards late.after_goaway
          (record w { conn = submitted w.conn (Intent.go_away 0 no_error) }) in
      record s { worker = w; detached = true }

  abbrev pub stops : Late → Session D → Option Err → Session D × Ending
  stops late s err = (teardown late s, returned err)

  abbrev pub goes_on :
      Late → (Session D → Session D × Ending) → Session D × Option Err → Session D × Ending
  goes_on late next (s, none) = next s
  goes_on late next (s, some err) = stops late s (some err)

  abbrev pub meantime : List Act → Session D → Session D
  meantime acts s = record s { worker = forwards acts s.worker }

  abbrev pub answered :
      Late → (Session D → Session D × Ending) → Session D → Answer → Session D × Ending
  answered late next s (frame f) = goes_on late next (serve_frame s f)
  answered late next s (breaks err) = stops late s (some err)
  answered late next s (times_out now err shut) =
      if shut
      then stops late s none
      else if drain_complete s.worker.conn
      then stops late s (some goaway)
      else goes_on late next (pinged s (send_or_check_ping now s.worker.conn))

  -- The loop after the initial SETTINGS.
  unfoldable pub serve_loop : List Round → Session D → Session D × Ending
  unfolding serve_frame drain_complete teardown forwards
  serve_loop [] s = (s, running)
  serve_loop (r ∷ rs) s =
      let s = meantime r.before s in
      if r.shut
      then stops r.late s none
      else if drain_complete s.worker.conn
      then stops r.late s (some goaway)
      else answered r.late (serve_loop rs) (meantime r.meanwhile s) r.answer

  abbrev pub greeted :
      Late
      → (Session D → Session D × Ending)
      → (Session D → Session D × Ending)
      → Session D
      → Answer
      → Session D × Ending
  greeted late wait next s (frame (settings false xs)) =
      goes_on late next (acknowledged s (apply_peer_settings xs s.worker.conn))
  greeted late wait next s (frame f) = wait s
  greeted late wait next s (breaks err) = stops late s (some err)
  greeted late wait next s (times_out now err shut) = stops late s (some err)

  -- `serveTunnel`: first the wait for the peer's initial SETTINGS, which makes no tests and takes a
  -- timeout for an error; then the loop.
  unfoldable pub serve_tunnel : List Round → Session D → Session D × Ending
  unfolding serve_loop teardown forwards
  serve_tunnel [] s = (s, running)
  serve_tunnel (r ∷ rs) s =
      greeted r.late (serve_tunnel rs) (serve_loop rs) (meantime r.meanwhile (meantime r.before s))
        r.answer
