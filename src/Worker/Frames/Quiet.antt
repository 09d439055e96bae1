-- ===== src/Worker/Frames/Quiet.antt =====
-- What the frames that carry no header block leave alone (internal/h2/conn.go).
use reverse_http.Prelude.{
  ℕ, ◌≡◌, refl, ◌∙◌, Bool, Option, none, some, List, [], ◌∷◌, ltb, if_cases, Bytes, arith, ◌==◌,
  nat_eq,
}
use reverse_http.Prelude.Int.{ℤ}
use reverse_http.H2.Errors.{Err}
use reverse_http.H2.Flow.{broadcast, add_conn, add_stream}
use reverse_http.H2.Conn.{
  Conn, Setting, submitted, get_stream, apply_setting, apply_peer_settings, apply_rest,
  credit_stream, inbound, to_stream, handle_window_update, handle_inbound_data, handle_ping_ack,
  begin_drain, finish_drain, handle_rst_stream, remove_stream,
}
use reverse_http.H2.Stream.{Stream}

-- The parts of a connection that belong to header blocks stay as they are.
pub record Alike (c v : Conn) : Type 0 where
  pub same_block : v.cont_block ≡ c.cont_block
  pub same_names : v.canon_names ≡ c.canon_names
  pub same_cont : v.cont_stream_id ≡ c.cont_stream_id
  pub same_last : v.last_stream_id ≡ c.last_stream_id

-- And so do the limits.
pub record Quiet (c v : Conn) : Type 0 where
  pub alike : Alike c v
  pub same_frame_size : v.max_frame_size ≡ c.max_frame_size
  pub same_window : v.send.peer_init_window ≡ c.send.peer_init_window

pub quiet : (c : Conn) → Quiet c c
quiet c = record {
  alike = record { same_block = refl; same_names = refl; same_cont = refl; same_last = refl };
  same_frame_size = refl;
  same_window = refl;
}

pub credit_stream-Quiet :
    (id : ℕ) (c : Conn) (inc : ℤ) (o : Option Stream) → Quiet c (credit_stream id c inc o)
unfolding add_stream broadcast
credit_stream-Quiet id c inc none = quiet c
credit_stream-Quiet id c inc (some s) = ground arith

pub handle_window_update-Quiet :
    (c : Conn) (id : ℕ) (inc : ℤ) → Quiet c (handle_window_update c id inc)
unfolding handle_window_update add_conn broadcast
handle_window_update-Quiet c id inc =
    if_cases (Quiet c) (id == 0) (λ _. ground arith)
      λ _. credit_stream-Quiet id c inc (get_stream c id)

pub inbound-Quiet :
    (bp id : ℕ) (bytes : Bytes) (flow_len : ℕ) (end_stream : Bool) (c v : Conn) (o : Option Stream)
    → Quiet c v
    → Quiet c (inbound bp id bytes flow_len end_stream v o)
unfolding submitted
inbound-Quiet bp id bytes flow_len end_stream c v none q = ground (arith, q.alike)
inbound-Quiet bp id bytes flow_len end_stream c v (some s) q = ground (arith, q.alike)

pub handle_inbound_data-Quiet :
    (bp : ℕ) (c : Conn) (id : ℕ) (bytes : Bytes) (flow_len : ℕ) (end_stream : Bool)
    → Quiet c (handle_inbound_data bp c id bytes flow_len end_stream)
unfolding handle_inbound_data submitted
handle_inbound_data-Quiet bp c id bytes flow_len end_stream =
    inbound-Quiet bp id bytes flow_len end_stream c _ (get_stream c id)
      (if_cases (Quiet c) (ltb 0 flow_len) (λ _. ground arith) λ _. quiet c)

pub to_stream-Quiet :
    (f : Stream → Stream) (id : ℕ) (c : Conn) (o : Option Stream) → Quiet c (to_stream f id c o)
to_stream-Quiet f id c none = quiet c
to_stream-Quiet f id c (some s) = ground arith

pub handle_rst_stream-Quiet : (c : Conn) (id : ℕ) → Quiet c (handle_rst_stream c id)
unfolding handle_rst_stream
handle_rst_stream-Quiet c id = to_stream-Quiet _ id c (get_stream c id)

pub handle_ping_ack-Quiet : (c : Conn) (payload : ℕ) → Quiet c (handle_ping_ack c payload)
unfolding handle_ping_ack
handle_ping_ack-Quiet c payload = ground arith

pub begin_drain-Quiet : (c : Conn) → Quiet c (begin_drain c)
unfolding begin_drain finish_drain
begin_drain-Quiet c = ground arith

-- SETTINGS leave the parts for header blocks alone.
pub setting-Alike : (x : Setting) (c : Conn) → Alike c (apply_setting c x).0
unfolding apply_setting submitted
setting-Alike (Setting.max_frame_size v) c = ground arith
setting-Alike (Setting.initial_window_size v) c = ground arith
setting-Alike (Setting.header_table_size v) c = ground arith
setting-Alike (Setting.max_concurrent_streams v) c = ground arith
setting-Alike (Setting.enable_push v) c = ground arith
setting-Alike (Setting.other id v) c = ground arith

Alike-trans : {a b c : Conn} → Alike a b → Alike b c → Alike a c
Alike-trans p q = record {
  same_block = q.same_block ∙ p.same_block;
  same_names = q.same_names ∙ p.same_names;
  same_cont = q.same_cont ∙ p.same_cont;
  same_last = q.same_last ∙ p.same_last;
}

pub rest-Alike :
    (xs : List Setting) (c : Conn) (r : Conn × Option Err)
    → Alike c r.0
    → Alike r.0 (apply_peer_settings xs r.0).0
    → Alike c (apply_rest (apply_peer_settings xs) r).0
rest-Alike xs c (v, none) p q = Alike-trans p q
rest-Alike xs c (v, some e) p q = p

pub settings-Alike : (xs : List Setting) (c : Conn) → Alike c (apply_peer_settings xs c).0
unfolding apply_peer_settings
settings-Alike [] c = (quiet c).alike
settings-Alike (x ∷ xs) c =
    rest-Alike xs c (apply_setting c x) (setting-Alike x c)
      (settings-Alike xs (apply_setting c x).0)

pub remove_stream-Quiet : (c : Conn) (id : ℕ) → Quiet c (remove_stream c id)
unfolding remove_stream finish_drain
remove_stream-Quiet c id = ground arith
