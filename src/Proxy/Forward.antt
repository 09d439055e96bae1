-- ===== src/Proxy/Forward.antt =====
-- internal/proxy/forward.go: the request header that goes to a worker.
pub mod Stripped
use reverse_http.Prelude.{
  Bool, true, false, ◌||◌, List, [], ◌∷◌, if◌then◌else◌, Bytes, codes, ◌==◌, bytes_eq, bytes_beq,
}
use reverse_http.H2.Conn.Decode.{append_value}
use reverse_http.H2.Names.{canonical}
use reverse_http.H2.Writer.{Header}

unfoldable pub is_hop_by_hop : Bytes → Bool
unfolding bytes_beq
is_hop_by_hop name =
    name == codes "Connection"
    || name == codes "Keep-Alive"
    || name == codes "Proxy-Authenticate"
    || name == codes "Proxy-Authorization"
    || name == codes "Te"
    || name == codes "Trailer"
    || name == codes "Transfer-Encoding"
    || name == codes "Upgrade"
    || name == codes "Proxy-Connection"

-- `h.Add(k, v)` for each `v`.
unfoldable pub add_all : Bytes → List Bytes → Header → Header
add_all k [] h = h
add_all k (v ∷ vv) h = add_all k vv (append_value (canonical k) v h)

unfoldable pub forward_onto : Header → Header → Header
forward_onto [] h = h
forward_onto ((k, vv) ∷ req) h = forward_onto req (if is_hop_by_hop k then h else add_all k vv h)

unfoldable pub build_forwarded_header : Header → Header
unfolding forward_onto
build_forwarded_header req = forward_onto req []
