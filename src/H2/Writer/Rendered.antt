-- ===== src/H2/Writer/Rendered.antt =====
-- What an intent is on the wire, and what processing it does (internal/h2/writer.go).
use reverse_http.Prelude.{ℕ, Bool, Option, none, some, List, [], ◌∷◌, ◌++◌}
use reverse_http.H2.Errors.{Err}
use reverse_http.H2.Writer.{
  Header, Field, Intent, Wire, Writer, Framer, process_intent, response_pseudo, request_pseudo,
  emitted, emit, write_headers,
}
use reverse_http.H2.Writer.Headers.{Lowered, plain_fields, encode_regular_headers_lem}

-- What an intent is on the wire, by itself.
abbrev pub render : Intent → Wire
render Intent.settings_ack = Wire.settings_ack
render (Intent.window_update id inc) = Wire.window_update id inc
render (Intent.ping ack opaque) = Wire.ping ack opaque
render (Intent.rst_stream id code) = Wire.rst_stream id code
render (Intent.body id bytes end_stream) = Wire.body id bytes end_stream
render (Intent.resp_headers id status header end_stream) =
    Wire.headers id (response_pseudo status ++ plain_fields header) end_stream
render (Intent.req_headers id method scheme authority path header end_stream) =
    Wire.headers id (request_pseudo method scheme authority path ++ plain_fields header) end_stream
render (Intent.set_max_dyn_tab v) = Wire.table_size v
render (Intent.go_away id code) = Wire.go_away id code

-- An intent that has been processed is on the wire, last; or its write failed.
pub data Processed (w : Writer) (x : Wire) : Writer × Option Err → Type 0 where
  written :
      {names : _}
      → Lowered names
      → Processed w x (record w { lower_names = names; wire = w.wire ++ x ∷ [] }, none)
  failed :
      {names : _}
      → Lowered names
      → (e : Err) → Processed w x (record w { lower_names = names }, some e)

emitted-Processed :
    (o : Option Err) (w : Writer) (x : Wire) → Lowered w.lower_names → Processed w x (emitted o w x)
emitted-Processed none w x l = written l
emitted-Processed (some e) w x l = failed l e

-- The cache that a header leaves behind.
renamed-Processed :
    (o : Option Err) (w : Writer) (x : Wire) (names : _)
    → Lowered names
    → Processed w x (emitted o (record w { lower_names = names }) x)
renamed-Processed none w x names l = written l
renamed-Processed (some e) w x names l = failed l e

module _ (framer : Framer) where
  write_headers-Processed :
      (w : Writer) (id : ℕ) (pseudo : List Field) (header : Header) (end_stream : Bool)
      → Lowered w.lower_names
      → Processed w
          (Wire.headers id (pseudo ++ plain_fields header) end_stream)
          (write_headers framer w id pseudo header end_stream)
  unfolding write_headers emit
  write_headers-Processed w id pseudo header end_stream l =
      let r = encode_regular_headers_lem w.lower_names header l in
      rw r.1 (renamed-Processed _ w _ _ r.0)

  pub process_intent-Processed :
      (w : Writer) (i : Intent)
      → Lowered w.lower_names
      → Processed w (render i) (process_intent framer w i)
  unfolding process_intent
  process_intent-Processed w (Intent.resp_headers id status header end_stream) l =
      write_headers-Processed w id (response_pseudo status) header end_stream l
  process_intent-Processed w (Intent.req_headers id method scheme authority path header end_stream)
        l =
      write_headers-Processed w id (request_pseudo method scheme authority path) header end_stream l
  process_intent-Processed w (Intent.set_max_dyn_tab v) l = written l
  process_intent-Processed w Intent.settings_ack l = emitted-Processed _ w _ l
  process_intent-Processed w (Intent.window_update id inc) l = emitted-Processed _ w _ l
  process_intent-Processed w (Intent.ping ack opaque) l = emitted-Processed _ w _ l
  process_intent-Processed w (Intent.rst_stream id code) l = emitted-Processed _ w _ l
  process_intent-Processed w (Intent.body id bytes end_stream) l = emitted-Processed _ w _ l
  process_intent-Processed w (Intent.go_away id code) l = emitted-Processed _ w _ l
