-- ===== src/Proxy/Serve/Changes.antt =====
-- The operations that the frames of a tunnel are handed to (internal/h2/conn.go): none adds or removes
-- a stream.
use reverse_http.Prelude.{
  ℕ, ◌≡◌, refl, ap, ◌∙◌, ◌^◌, ◌-◌, Bool, true, Option, none, some, List, [], ◌∷◌, ltb,
  if◌then◌else◌, if_cases, Bytes, arith, ◌==◌, nat_eq,
}
use reverse_http.Prelude.Int.{ℤ}
use reverse_http.Prelude.Table.{lookup}
use reverse_http.H2.Errors.{Err}
use reverse_http.H2.Flow.{add_stream}
use reverse_http.H2.Conn.{
  Conn, Setting, submitted, get_stream, put_stream, apply_setting, apply_peer_settings, apply_rest,
  credit_stream, inbound, receive, to_stream, handle_window_update, handle_inbound_data,
  handle_ping_ack, begin_drain, finish_drain, handle_rst_stream, send_or_check_ping,
}
use reverse_http.H2.Conn.Decode.{
  HeadersFrame, ContinuationFrame, start_headers, consume_continuation,
}
use reverse_http.H2.Stream.{Stream, push_data, close_data, fail_body}
use reverse_http.H2.Writer.{Field, Intent}
use reverse_http.Proxy.Serve.Grown.{Grown, Grown-trans, same-Grown, put-Grown, each-Grown}

-- A stream that is found and changed.
pub to_stream-Grown :
    (f : Stream → Stream) (c : Conn) (id : ℕ) (o : Option Stream)
    → ((s : Stream) → s.data_done ≡ true → (f s).data_done ≡ true)
    → lookup id c.streams ≡ o
    → Grown c (to_stream f id c o)
to_stream-Grown f c id none h at = same-Grown c c refl
to_stream-Grown f c id (some s) h at = put-Grown c id s (f s) at (h s)

pub fail_body-ends : (s : Stream) (e : Err) → (fail_body s e).data_done ≡ true
unfolding fail_body
fail_body-ends s e = refl

pub fail_stream-Grown :
    (e : Err) (c : Conn) (id : ℕ) → Grown c (to_stream (λ s. fail_body s e) id c (get_stream c id))
unfolding get_stream
fail_stream-Grown e c id =
    to_stream-Grown (λ s. fail_body s e) c id (lookup id c.streams) (λ s _. fail_body-ends s e) refl

pub close_stream-Grown : (c : Conn) (id : ℕ) → Grown c (to_stream close_data id c (get_stream c id))
unfolding get_stream close_data
close_stream-Grown c id = to_stream-Grown close_data c id (lookup id c.streams) (λ s _. refl) refl

pub handle_rst_stream-Grown : (c : Conn) (id : ℕ) → Grown c (handle_rst_stream c id)
unfolding handle_rst_stream
handle_rst_stream-Grown c id = fail_stream-Grown _ c id

put_after :
    (c v : Conn) (id : ℕ) (s w : Stream)
    → v.streams ≡ c.streams
    → lookup id c.streams ≡ some s
    → (s.data_done ≡ true → w.data_done ≡ true)
    → Grown c (put_stream v id w)
put_after c v id s w e at h =
    Grown-trans (same-Grown c v e) (put-Grown v id s w (ap (lookup id) e ∙ at) h)

submitted_if :
    (b : Bool) (c : Conn) (i : Intent) → (if b then submitted c i else c).streams ≡ c.streams
unfolding submitted
submitted_if b c i = ground arith

credit_stream-Grown :
    (c : Conn) (id : ℕ) (inc : ℤ) (o : Option Stream)
    → lookup id c.streams ≡ o
    → Grown c (credit_stream id c inc o)
credit_stream-Grown c id inc none at = same-Grown c c refl
credit_stream-Grown c id inc (some s) at =
    let (send, window) = add_stream c.send s.send_window inc in
    put_after c (record c { send = send }) id s (record s { send_window = window }) refl at (λ h. h)

pub handle_window_update-Grown :
    (c : Conn) (id : ℕ) (inc : ℤ) → Grown c (handle_window_update c id inc)
unfolding handle_window_update get_stream
handle_window_update-Grown c id inc =
    if_cases (Grown c) (id == 0) (λ _. same-Grown c _ refl)
      λ _. credit_stream-Grown c id inc (lookup id c.streams) refl

receive-ends :
    (bp : ℕ) (bytes : Bytes) (end_stream : Bool) (s : Stream)
    → s.data_done ≡ true
    → (receive bp bytes end_stream s).data_done ≡ true
unfolding receive push_data close_data
receive-ends bp bytes end_stream s h = ground arith

inbound-Grown :
    (bp id : ℕ) (bytes : Bytes) (flow_len : ℕ) (end_stream : Bool) (c : Conn) (o : Option Stream)
    → lookup id c.streams ≡ o
    → Grown c (inbound bp id bytes flow_len end_stream c o)
inbound-Grown bp id bytes flow_len end_stream c none at =
    same-Grown c _ (submitted_if (ltb 0 flow_len) c _)
inbound-Grown bp id bytes flow_len end_stream c (some s) at =
    put_after c _ id s (receive bp bytes end_stream s) (submitted_if (ltb 0 flow_len) c _) at
      (receive-ends bp bytes end_stream s)

pub handle_inbound_data-Grown :
    (bp : ℕ) (c : Conn) (id : ℕ) (bytes : Bytes) (flow_len : ℕ) (end_stream : Bool)
    → Grown c (handle_inbound_data bp c id bytes flow_len end_stream)
unfolding handle_inbound_data get_stream
handle_inbound_data-Grown bp c id bytes flow_len end_stream =
    let c' = if ltb 0 flow_len then submitted c (Intent.window_update 0 flow_len) else c in
    let same = submitted_if (ltb 0 flow_len) c (Intent.window_update 0 flow_len) in
    Grown-trans (same-Grown c c' same)
      (inbound-Grown bp id bytes flow_len end_stream c' (lookup id c.streams) (ap (lookup id) same))

pub handle_ping_ack-Grown : (c : Conn) (payload : ℕ) → Grown c (handle_ping_ack c payload)
unfolding handle_ping_ack
handle_ping_ack-Grown c payload = same-Grown c _ (ground arith)

pub begin_drain-Grown : (c : Conn) → Grown c (begin_drain c)
unfolding begin_drain finish_drain
begin_drain-Grown c = same-Grown c _ (ground arith)

pub submitted-Grown : (c : Conn) (i : Intent) → Grown c (submitted c i)
unfolding submitted
submitted-Grown c i = same-Grown c _ refl

pub send_or_check_ping-Grown : (now : ℕ) (c : Conn) → Grown c (send_or_check_ping now c).0
unfolding send_or_check_ping submitted
send_or_check_ping-Grown now c = same-Grown c _ (ground arith)

-- SETTINGS change send windows only.
setting-Grown : (x : Setting) (c : Conn) → Grown c (apply_setting c x).0
unfolding apply_setting submitted
setting-Grown (Setting.max_frame_size v) c = same-Grown c _ (ground arith)
setting-Grown (Setting.initial_window_size v) c =
    if_cases (λ (r : Conn × Option Err). Grown c r.0) (ltb (2 ^ 31 - 1) v)
      (λ _. same-Grown c c refl) λ _. each-Grown _ c _ (λ s h. h) refl
setting-Grown (Setting.header_table_size v) c = same-Grown c _ (ground arith)
setting-Grown (Setting.max_concurrent_streams v) c = same-Grown c _ (ground arith)
setting-Grown (Setting.enable_push v) c = same-Grown c _ (ground arith)
setting-Grown (Setting.other id v) c = same-Grown c _ (ground arith)

rest-Grown :
    (xs : List Setting) (c : Conn) (r : Conn × Option Err)
    → Grown c r.0
    → Grown r.0 (apply_peer_settings xs r.0).0
    → Grown c (apply_rest (apply_peer_settings xs) r).0
rest-Grown xs c (v, none) p q = Grown-trans p q
rest-Grown xs c (v, some e) p q = p

pub settings-Grown : (xs : List Setting) (c : Conn) → Grown c (apply_peer_settings xs c).0
unfolding apply_peer_settings
settings-Grown [] c = same-Grown c c refl
settings-Grown (x ∷ xs) c =
    rest-Grown xs c (apply_setting c x) (setting-Grown x c)
      (settings-Grown xs (apply_setting c x).0)

-- Header blocks leave the streams alone.
module _ {D : Type 0} (decode : D → Bytes → D × List Field × Bool) (c : Conn) (d : D) where
  pub start_headers-Grown : (f : HeadersFrame) → Grown c (start_headers decode (c, d) f).0.0
  unfolding start_headers
  start_headers-Grown f = same-Grown c _ (ground arith)

  pub consume_continuation-Grown :
      (f : ContinuationFrame) → Grown c (consume_continuation decode (c, d) f).0.0
  unfolding consume_continuation
  consume_continuation-Grown f = same-Grown c _ (ground arith)
