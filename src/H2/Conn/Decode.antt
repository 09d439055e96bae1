-- ===== src/H2/Conn/Decode.antt =====
-- internal/h2/conn.go: the header blocks of HEADERS and CONTINUATION frames. The HPACK decoder of
-- golang.org/x/net is a parameter: `decode` is `dec.Write` of a whole block and `dec.Close`, with
-- the fields that are emitted on the way and whether either fails.
pub mod Fragments
pub mod Canon
use reverse_http.Prelude.{
  ℕ, suc, ◌+◌, ◌-◌, ◌^◌, ◌%◌, Bool, true, false, ◌&&◌, ◌||◌, not, Option, none, some, List, [], ◌∷◌,
  ◌++◌, length, ltb, leb, if◌then◌else◌, Bytes, codes, ◌==◌, nat_eq, bytes_eq, bytes_beq, map,
}
use reverse_http.Prelude.Table.{Table, lookup, insert}
use reverse_http.H2.Errors.{Err, hpack_decode, header_list_too_large, max_header_list_size}
use reverse_http.H2.Names.{lower_byte, canonical}
use reverse_http.H2.Writer.{Header, Field}
use reverse_http.H2.Conn.{Conn}

-- DecodedHeaders, without the stream and the flag; the fields are the scratch fields of Conn too.
pub record Scratch : Type 0 where
  pub method : Bytes
  pub path : Bytes
  pub authority : Bytes
  pub status : Bytes
  pub header : Header

abbrev pub no_scratch : Scratch
no_scratch = record { method = []; path = []; authority = []; status = []; header = [] }

pub record DecodedHeaders : Type 0 where
  pub scratch : Scratch
  pub stream_id : ℕ
  pub end_stream : Bool

-- `canonNames[name]`, with the canonical form entered where it is missing.
abbrev pub canon_name : Bytes → Table Bytes Bytes → Option Bytes → Table Bytes Bytes × Bytes
canon_name name names (some canon) = (names, canon)
canon_name name names none = (insert name (canonical name) names, canonical name)

abbrev pub values_of : Option (List Bytes) → List Bytes
values_of none = []
values_of (some vv) = vv

-- m[k] = append(m[k], v)
unfoldable pub append_value : Bytes → Bytes → Header → Header
append_value k v m = insert k (values_of (lookup k m) ++ v ∷ []) m

abbrev pub is_pseudo : Bytes → Bool
is_pseudo name =
    name == codes ":method"
    || name == codes ":path"
    || name == codes ":authority"
    || name == codes ":status"
    || name == codes ":scheme"

unfoldable pub emit_pseudo : Field → Scratch → Scratch
unfolding bytes_beq
emit_pseudo (name, value) x =
    if name == codes ":method"
    then record x { method = value }
    else if name == codes ":path"
    then record x { path = value }
    else if name == codes ":authority"
    then record x { authority = value }
    else if name == codes ":status"
    then record x { status = value }
    else x

-- `emitHeader`
unfoldable pub emit_header : Field → Table Bytes Bytes × Scratch → Table Bytes Bytes × Scratch
emit_header (name, value) (names, x) =
    if is_pseudo name
    then (names, emit_pseudo (name, value) x)
    else (let (names, canon) = canon_name name names (lookup name names) in
        (names, record x { header = append_value canon value x.header }))

unfoldable pub emit_all : List Field → Table Bytes Bytes × Scratch → Table Bytes Bytes × Scratch
emit_all [] e = e
emit_all (f ∷ fs) e = emit_all fs (emit_header f e)

-- A HEADERS or a CONTINUATION frame, as the framer gives it.
pub record HeadersFrame : Type 0 where
  pub id : ℕ
  pub fragment : Bytes
  pub headers_ended : Bool
  pub stream_ended : Bool

pub record ContinuationFrame : Type 0 where
  pub fragment : Bytes
  pub headers_ended : Bool

unfoldable pub in_continuation : Conn → Bool
in_continuation c = not (c.cont_stream_id == 0)

-- The highest stream so far.
abbrev pub accepted : Conn → ℕ → Conn
accepted c id = if ltb c.last_stream_id id then record c { last_stream_id = id } else c

module _ {D : Type 0} (decode : D → Bytes → D × List Field × Bool) where
  -- The connection and the decoder, the headers if they are complete, and the error.
  abbrev pub Result : Type 0
  Result = (Conn × D) × Option DecodedHeaders × Option Err

  abbrev pub decoded : Conn → ℕ → Bool → D × List Field × Bool → Result
  decoded c id ended (d, fields, fails) =
      let (names, x) = emit_all fields (c.canon_names, no_scratch) in
      let c = record c { canon_names = names } in
      if fails
      then ((c, d), none, some hpack_decode)
      else ((c, d), some (record { scratch = x; stream_id = id; end_stream = ended }), none)

  unfoldable pub decode_block : Conn × D → ℕ → Bytes → Bool → Result
  decode_block (c, d) id block ended = decoded c id ended (decode d block)

  unfoldable pub start_headers : Conn × D → HeadersFrame → Result
  unfolding decode_block
  start_headers (c, d) f =
      let c = accepted c f.id in
      if f.headers_ended then decode_block (c, d) f.id f.fragment f.stream_ended else (
        (
          record c {
            cont_stream_id = f.id;
            cont_stream_ended = f.stream_ended;
            cont_block = f.fragment;
          },
          d,
        ),
        none,
        none,
      )

  unfoldable pub consume_continuation : Conn × D → ContinuationFrame → Result
  unfolding decode_block
  consume_continuation (c, d) f =
      if ltb max_header_list_size
        ((length c.cont_block % 2 ^ 32 + length f.fragment % 2 ^ 32) % 2 ^ 32)
      then ((c, d), none, some header_list_too_large)
      else (let block = c.cont_block ++ f.fragment in
          if not f.headers_ended
          then ((record c { cont_block = block }, d), none, none)
          else decode_block
              (record c { cont_stream_id = 0; cont_stream_ended = false; cont_block = [] }, d)
              c.cont_stream_id block c.cont_stream_ended)
