-- ===== src/Worker/Frames.antt =====
-- handler.go: the frame loop of a worker's connection. The frames are those that the framer gives,
-- in order; a read that times out is the PING watchdog's, in H2.Conn. A handler goroutine that is
-- started is an entry of `started`.
pub mod Quiet
pub mod Healthy
pub mod Always
use reverse_http.Prelude.{
  ℕ, Bool, true, false, not, ◌||◌, Option, none, some, List, [], ◌∷◌, ◌++◌, if◌then◌else◌, Bytes,
  ◌==◌, nat_eq,
}
use reverse_http.Prelude.Int.{ℤ}
use reverse_http.H2.Errors.{Err, ErrCode, no_error, goaway, cont_interleaved}
use reverse_http.H2.Conn.{
  Conn, Setting, submitted, get_stream, add_to_registry, apply_peer_settings, handle_window_update,
  handle_inbound_data, handle_ping_ack, begin_drain, handle_rst_stream, drain_complete,
  remove_stream,
}
use reverse_http.H2.Conn.Decode.{
  DecodedHeaders, HeadersFrame, ContinuationFrame, Result, in_continuation, start_headers,
  consume_continuation,
}
use reverse_http.H2.Flow.{initial_stream_window}
use reverse_http.H2.Stream.{Stream, acquire, close_data}
use reverse_http.H2.Writer.{Field, Intent}

-- The frames; an inbound DATA frame comes with the pooled buffer for its bytes.
pub data Frame : Type 0 where
  settings : Bool → List Setting → Frame
  window_update : ℕ → ℤ → Frame
  headers : HeadersFrame → Frame
  data_frame : ℕ → ℕ → Bytes → ℕ → Bool → Frame
  ping : Bool → ℕ → Frame
  go_away : ErrCode → Frame
  rst_stream : ℕ → Frame
  continuation : ℕ → ContinuationFrame → Frame
  unknown : Frame

-- A turn of the loop: the streams whose handlers end before its test of the drain, those whose
-- handlers end before ReadFrame returns, and the frame.
pub record Turn : Type 0 where
  pub before : List ℕ
  pub meanwhile : List ℕ
  pub frame : Frame

-- `RemoveStream`, which the handler goroutines call at their end (stream.go).
unfoldable pub take_off : List ℕ → Conn → Conn
take_off [] c = c
take_off (id ∷ ids) c = take_off ids (remove_stream c id)

pub record Session (D : Type 0) : Type 0 where
  pub conn : Conn
  pub decoder : D
  pub started : List DecodedHeaders

module _ {D : Type 0} (decode : D → Bytes → D × List Field × Bool) where
  -- `dispatchInboundHeaders`
  unfoldable pub dispatch : DecodedHeaders → Session D → Session D
  dispatch decoded s =
      let stream = acquire decoded.stream_id (initial_stream_window s.conn.send) in
      let stream = if decoded.end_stream then close_data stream else stream in
      record s { conn = add_to_registry s.conn stream; started = s.started ++ decoded ∷ [] }

  abbrev pub at : Session D → Conn × D → Session D
  at s (c, d) = record s { conn = c; decoder = d }

  abbrev pub dispatched : Session D → Result decode → Session D × Option Err
  dispatched s (cd, out, some err) = (at s cd, some err)
  dispatched s (cd, none, none) = (at s cd, none)
  dispatched s (cd, some decoded, none) = (dispatch decoded (at s cd), none)

  -- After `ApplyPeerSettings`.
  abbrev pub acknowledged : Session D → Conn × Option Err → Session D × Option Err
  acknowledged s (c, some err) = (record s { conn = c }, some err)
  acknowledged s (c, none) = (record s { conn = submitted c Intent.settings_ack }, none)

  abbrev pub headers_received : Session D → HeadersFrame → Option Stream → Session D × Option Err
  headers_received s f (some _) = (s, none)
  headers_received s f none = dispatched s (start_headers decode (s.conn, s.decoder) f)

  abbrev pub is_no_error : ErrCode → Bool
  is_no_error no_error = true
  is_no_error _ = false

  unfoldable pub handle_frame : Session D → Frame → Session D × Option Err
  unfolding submitted get_stream
  handle_frame s (settings ack xs) =
      if ack then (s, none) else acknowledged s (apply_peer_settings xs s.conn)
  handle_frame s (window_update id inc) =
      (record s { conn = handle_window_update s.conn id inc }, none)
  handle_frame s (headers f) = headers_received s f (get_stream s.conn f.id)
  handle_frame s (data_frame bp id bytes flow_len end_stream) =
      (record s { conn = handle_inbound_data bp s.conn id bytes flow_len end_stream }, none)
  handle_frame s (ping ack payload) =
      if ack
      then (record s { conn = handle_ping_ack s.conn payload }, none)
      else (record s { conn = submitted s.conn (Intent.ping true payload) }, none)
  handle_frame s (go_away code) =
      if is_no_error code then (record s { conn = begin_drain s.conn }, none) else (s, some goaway)
  handle_frame s (rst_stream id) = (record s { conn = handle_rst_stream s.conn id }, none)
  handle_frame s (continuation id f) = (s, none)
  handle_frame s unknown = (s, none)

  abbrev pub in_block : Session D → Frame → Session D × Option Err
  in_block s (continuation id f) =
      if not (id == s.conn.cont_stream_id)
      then (s, some cont_interleaved)
      else dispatched s (consume_continuation decode (s.conn, s.decoder) f)
  in_block s _ = (s, some cont_interleaved)

  -- What the loop does with one frame.
  unfoldable pub serve_frame : Session D → Frame → Session D × Option Err
  unfolding handle_frame in_continuation
  serve_frame s f = if in_continuation s.conn then in_block s f else handle_frame s f

  abbrev pub serve_next :
      (Session D → Session D × Option Err) → Session D × Option Err → Session D × Option Err
  serve_next next (s, none) = next s
  serve_next next (s, some err) = (s, some err)

  abbrev pub handled : List ℕ → Session D → Session D
  handled ids s = record s { conn = take_off ids s.conn }

  -- The loop after the initial SETTINGS, until an error ends it or the frames run out.
  unfoldable pub serve : List Turn → Session D → Session D × Option Err
  unfolding serve_frame drain_complete take_off
  serve [] s = (s, none)
  serve (t ∷ ts) s =
      let s = handled t.before s in
      if drain_complete s.conn
      then (s, some goaway)
      else serve_next (serve ts) (serve_frame (handled t.meanwhile s) t.frame)

  abbrev pub first_frame :
      (Session D → Session D × Option Err)
      → (Session D → Session D × Option Err)
      → Session D
      → Frame
      → Session D × Option Err
  first_frame wait next s (settings false xs) =
      serve_next next (acknowledged s (apply_peer_settings xs s.conn))
  first_frame wait next s f = wait s

  -- The wait for the peer's initial SETTINGS: other frames are passed over. No handler runs yet.
  unfoldable pub handshake : List Turn → Session D → Session D × Option Err
  unfolding serve
  handshake [] s = (s, none)
  handshake (t ∷ ts) s = first_frame (handshake ts) (serve ts) s t.frame
