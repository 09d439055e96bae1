-- ===== src/Worker/Uri.antt =====
-- `parseRequestURI` of stream.go. `url.PathUnescape` and `strings.Cut` are the standard library's.
pub mod Lossless
use reverse_http.Prelude.{
  ℕ, ◌+◌, ◌-◌, ◌*◌, ◌≡◌, refl, Bool, true, false, not, ◌&&◌, ◌||◌, Option, none, some, List, [],
  ◌∷◌, ltb, leb, nat_beq, if◌then◌else◌, Bytes, codes, bytes_eq, nat_eq, bytes_beq, ◌==◌,
}

-- The fields of url.URL that are set.
pub record Url : Type 0 where
  pub path : Bytes
  pub raw_path : Bytes
  pub raw_query : Bytes

abbrev unhex : ℕ → Option ℕ
unhex c =
    if leb b'0' c && leb c b'9'
    then some (c - b'0')
    else if leb b'a' c && leb c b'f'
    then some (c - b'a' + 10)
    else if leb b'A' c && leb c b'F'
    then some (c - b'A' + 10)
    else none

abbrev prepend : Option ℕ → Option Bytes → Option Bytes
prepend (some c) (some s) = some (c ∷ s)
prepend _ _ = none

abbrev hex_pair : Option ℕ → Option ℕ → Option ℕ
hex_pair (some hi) (some lo) = some (hi * 16 + lo)
hex_pair _ _ = none

-- `url.PathUnescape`: a percent sign stands before two hexadecimal digits, or the path is refused.
unfoldable pub path_unescape : Bytes → Option Bytes
path_unescape [] = some []
path_unescape (c ∷ []) = if c == b'%' then none else some (c ∷ [])
path_unescape (c ∷ d ∷ []) = if c == b'%' then none else prepend (some c) (path_unescape (d ∷ []))
path_unescape (c ∷ d ∷ e ∷ s) =
    if c == b'%'
    then prepend (hex_pair (unhex d) (unhex e)) (path_unescape s)
    else prepend (some c) (path_unescape (d ∷ e ∷ s))

-- `strings.Cut(raw, "?")`: what stands before and after the first question mark, if there is one.
unfoldable pub cut_query : Bytes → Bytes × Option Bytes
cut_query [] = ([], none)
cut_query (c ∷ s) =
    let (before, after) = cut_query s in if c == b'?' then ([], some s) else (c ∷ before, after)

abbrev pub query_of : Option Bytes → Bytes
query_of none = []
query_of (some q) = q

abbrev url_of : Bytes → Bytes → Option Bytes → Option Url
url_of path query none = none
url_of path query (some decoded) =
    if not (decoded == path)
    then some (record { path = decoded; raw_path = path; raw_query = query })
    else some (record { path = path; raw_path = []; raw_query = query })

abbrev pub is_target : Bytes → Bool
is_target [] = false
is_target (c ∷ s) = (c == b'/') || ((c ∷ s) == codes "*")

unfoldable pub parse_request_uri : Bytes → Option Url
unfolding path_unescape cut_query
parse_request_uri raw =
    if not (is_target raw)
    then none
    else (let (path, after) = cut_query raw in url_of path (query_of after) (path_unescape path))

decodes :
    parse_request_uri (codes "/a%20b?x=1")
    ≡ some (record { path = codes "/a b"; raw_path = codes "/a%20b"; raw_query = codes "x=1" })
unfolding parse_request_uri bytes_beq
decodes = refl

refuses : parse_request_uri (codes "/a%2") ≡ none
unfolding parse_request_uri bytes_beq
refuses = refl
