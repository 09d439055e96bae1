-- ===== src/Worker/Frames/Always.antt =====
-- The frame loop of a worker keeps its session healthy, whatever the peer sends (handler.go).
use reverse_http.Prelude.{
  ℕ, ◌≤◌, ◌^◌, Bool, true, not, Option, none, some, List, [], ◌∷◌, length, if_cases, Bytes, arith,
  ◌==◌, nat_eq, All,
}
use reverse_http.H2.Errors.{Err}
use reverse_http.H2.Conn.{Conn, new_conn, submitted, get_stream, drain_complete, remove_stream}
use reverse_http.H2.Conn.Decode.{HeadersFrame, in_continuation}
use reverse_http.H2.Conn.Decode.Canon.{common_canon_names-Faithful}
use reverse_http.H2.Stream.{Stream}
use reverse_http.H2.Writer.{Field, Intent}
use reverse_http.Worker.Frames.Quiet.{
  Quiet, handle_window_update-Quiet, handle_inbound_data-Quiet, handle_rst_stream-Quiet,
  handle_ping_ack-Quiet, begin_drain-Quiet, remove_stream-Quiet,
}
use reverse_http.Worker.Frames.Healthy.{
  Healthy, Fits, Quiet-Healthy, acknowledged-Healthy, dispatched-Healthy, start-Noted,
  consume-Noted,
}
use reverse_http.Worker.Frames.{
  Frame, settings, window_update, headers, data_frame, ping, go_away, rst_stream, continuation,
  unknown, Session, headers_received, is_no_error, handle_frame, in_block, serve_frame, serve_next,
  serve, Turn, take_off, handled,
}

module _ {D : Type 0} (decode : D → Bytes → D × List Field × Bool) where
  -- A session, with or without an error.
  abbrev Kept : Session D × Option Err → Type 0
  Kept r = Healthy r.0

  submitted-Quiet : (c : Conn) (x : Intent) → Quiet c (submitted c x)
  unfolding submitted
  submitted-Quiet c x = ground arith

  received-Healthy :
      (s : Session D) (f : HeadersFrame) (o : Option Stream)
      → length f.fragment ≤ 2 ^ 14
      → Healthy s
      → Kept (headers_received decode s f o)
  received-Healthy s f (some x) small h = h
  received-Healthy s f none small h = dispatched-Healthy decode s _ (start-Noted decode s f small h)

  handle_frame-Healthy :
      (s : Session D) (f : Frame) → Fits f → Healthy s → Kept (handle_frame decode s f)
  unfolding handle_frame
  handle_frame-Healthy s (settings ack xs) small h =
      if_cases Kept ack (λ _. h) λ _. acknowledged-Healthy decode s xs h
  handle_frame-Healthy s (window_update id inc) small h =
      Quiet-Healthy decode s _ (handle_window_update-Quiet s.conn id inc) h
  handle_frame-Healthy s (headers f) small h = received-Healthy s f (get_stream s.conn f.id) small h
  handle_frame-Healthy s (data_frame bp id bytes flow_len end_stream) small h =
      Quiet-Healthy decode s _ (handle_inbound_data-Quiet bp s.conn id bytes flow_len end_stream) h
  handle_frame-Healthy s (ping ack payload) small h =
      if_cases Kept ack (λ _. Quiet-Healthy decode s _ (handle_ping_ack-Quiet s.conn payload) h)
        λ _. Quiet-Healthy decode s _ (submitted-Quiet s.conn (Intent.ping true payload)) h
  handle_frame-Healthy s (go_away code) small h =
      if_cases Kept (is_no_error decode code)
        (λ _. Quiet-Healthy decode s _ (begin_drain-Quiet s.conn) h) λ _. h
  handle_frame-Healthy s (rst_stream id) small h =
      Quiet-Healthy decode s _ (handle_rst_stream-Quiet s.conn id) h
  handle_frame-Healthy s (continuation id f) small h = h
  handle_frame-Healthy s unknown small h = h

  in_block-Healthy : (s : Session D) (f : Frame) → Fits f → Healthy s → Kept (in_block decode s f)
  in_block-Healthy s (continuation id f) small h =
      if_cases Kept (not (id == s.conn.cont_stream_id)) (λ _. h)
        λ _. dispatched-Healthy decode s _ (consume-Noted decode s f small h)
  in_block-Healthy s (settings ack xs) small h = h
  in_block-Healthy s (window_update id inc) small h = h
  in_block-Healthy s (headers f) small h = h
  in_block-Healthy s (data_frame bp id bytes flow_len end_stream) small h = h
  in_block-Healthy s (ping ack payload) small h = h
  in_block-Healthy s (go_away code) small h = h
  in_block-Healthy s (rst_stream id) small h = h
  in_block-Healthy s unknown small h = h

  serve_frame-Healthy :
      (s : Session D) (f : Frame) → Fits f → Healthy s → Kept (serve_frame decode s f)
  unfolding serve_frame
  serve_frame-Healthy s f small h =
      if_cases Kept (in_continuation s.conn) (λ _. in_block-Healthy s f small h)
        λ _. handle_frame-Healthy s f small h

  next-Healthy :
      (next : Session D → Session D × Option Err) (r : Session D × Option Err)
      → Kept r
      → ((s : Session D) → Healthy s → Kept (next s))
      → Kept (serve_next decode next r)
  next-Healthy next (s, none) h k = k s h
  next-Healthy next (s, some err) h k = h

  handled-Healthy : (ids : List ℕ) (s : Session D) → Healthy s → Healthy (handled decode ids s)
  unfolding take_off
  handled-Healthy [] s h = h
  handled-Healthy (id ∷ ids) s h =
      handled-Healthy ids (record s { conn = remove_stream s.conn id })
        (Quiet-Healthy decode s _ (remove_stream-Quiet s.conn id) h)

  -- Whatever frames the peer sends, each within the framer's read limit, and whenever handlers end
  -- and take their streams off, the frame loop of a worker keeps its session healthy: the limits of
  -- the settings stay in the ranges of RFC 9113, the accumulated header block stays within
  -- MaxHeaderListSize, the cache of header names stays faithful, and no request is started above the
  -- stream ID that GOAWAY will name.
  pub serve-Healthy :
      (ts : List Turn) (s : Session D)
      → All (λ t. Fits t.frame) ts
      → Healthy s
      → Healthy (serve decode ts s).0
  unfolding serve
  serve-Healthy [] s small h = h
  serve-Healthy (t ∷ ts) s small h =
      let before = handled-Healthy t.before s h in
      let s' = handled decode t.before s in
      if_cases Kept (drain_complete s'.conn) (λ _. before)
        λ _.
          next-Healthy (serve decode ts)
            (serve_frame decode (handled decode t.meanwhile s') t.frame)
            (serve_frame-Healthy (handled decode t.meanwhile s') t.frame small.0
              (handled-Healthy t.meanwhile s' before))
            λ v k. serve-Healthy ts v small.1 k

-- A new session is healthy.
pub new-Healthy :
    {D : Type 0} (d : D) → Healthy (record { conn = new_conn; decoder = d; started = [] })
new-Healthy d = record {
  limits = record {
    frame_size = (omega arith, omega arith);
    window_size = (omega arith, (omega arith, omega arith));
  };
  block = omega arith;
  names = common_canon_names-Faithful;
  cont_below = omega arith;
  started_below = tt;
}
