-- ===== src/H2/Names.antt =====
-- internal/h2/pools.go: status strings, lower-case names and the tables that seed the caches of a
-- connection; and `forbiddenForwardHeader` of internal/h2/writer.go.
use reverse_http.Prelude.{
  ℕ, zero, suc, ◌+◌, ◌-◌, ◌/◌, ◌%◌, ◌≡◌, refl, Bool, true, false, ◌&&◌, ◌||◌, [], ◌∷◌, map, arith,
  ltb, leb, nat_beq, if◌then◌else◌, Bytes, codes, ◌==◌, bytes_eq, bytes_beq,
}
use reverse_http.Prelude.Table.{Table}

abbrev is_upper : ℕ → Bool
is_upper c = leb b'A' c && leb c b'Z'

-- `b[j] += 'a' - 'A'` for the upper-case letters.
abbrev pub lower_byte : ℕ → ℕ
lower_byte c = if is_upper c then c + (b'a' - b'A') else c

-- The first loop of `ToLower`: unchanged up to the first upper-case letter, and from there on a
-- copy whose letters are lowered.
pub to_lower : Bytes → Bytes
to_lower [] = []
to_lower (c ∷ s) = if is_upper c then map lower_byte (c ∷ s) else c ∷ to_lower s

pub to_lower_lem : (s : Bytes) → to_lower s ≡ map lower_byte s
unfolding to_lower
to_lower_lem [] = refl
to_lower_lem (c ∷ s) = ground (arith, to_lower_lem s)

-- textproto.CanonicalMIMEHeaderKey: a name with a byte that is not a token character is left alone;
-- otherwise the first letter and each letter after a hyphen are raised, and the others lowered.
abbrev is_letter : ℕ → Bool
is_letter c = is_upper c || leb b'a' c && leb c b'z'

abbrev is_token : ℕ → Bool
is_token c =
    is_letter c
    || leb b'0' c && leb c b'9'
    || nat_beq c b'!'
    || nat_beq c b'#'
    || nat_beq c b'$'
    || nat_beq c b'%'
    || nat_beq c b'&'
    || nat_beq c 39
    || nat_beq c b'*'
    || nat_beq c b'+'
    || nat_beq c b'-'
    || nat_beq c b'.'
    || nat_beq c b'^'
    || nat_beq c b'_'
    || nat_beq c b'`'
    || nat_beq c b'|'
    || nat_beq c b'~'

abbrev all_token : Bytes → Bool
all_token [] = true
all_token (c ∷ s) = is_token c && all_token s

abbrev canonical_byte : Bool → ℕ → ℕ
canonical_byte true c = if leb b'a' c && leb c b'z' then c - (b'a' - b'A') else c
canonical_byte false c = lower_byte c

abbrev canonical_from : Bool → Bytes → Bytes
canonical_from raise [] = []
canonical_from raise (c ∷ s) = canonical_byte raise c ∷ canonical_from (nat_beq c b'-') s

unfoldable pub canonical : Bytes → Bytes
canonical s = if all_token s then canonical_from true s else s

unfoldable pub forbidden_forward_header : Bytes → Bool
unfolding bytes_beq
forbidden_forward_header lk =
    lk == codes "connection"
    || lk == codes "proxy-connection"
    || lk == codes "keep-alive"
    || lk == codes "upgrade"
    || lk == codes "transfer-encoding"

abbrev pub common_lower_names : Table Bytes Bytes
common_lower_names =
    (codes "Content-Type", codes "content-type")
    ∷ (codes "Content-Length", codes "content-length")
    ∷ (codes "Content-Encoding", codes "content-encoding")
    ∷ (codes "Cache-Control", codes "cache-control")
    ∷ (codes "Date", codes "date")
    ∷ (codes "Etag", codes "etag")
    ∷ (codes "Expires", codes "expires")
    ∷ (codes "Last-Modified", codes "last-modified")
    ∷ (codes "Location", codes "location")
    ∷ (codes "Server", codes "server")
    ∷ (codes "Set-Cookie", codes "set-cookie")
    ∷ (codes "Vary", codes "vary")
    ∷ (codes "X-Request-Id", codes "x-request-id")
    ∷ (codes "X-Content-Type-Options", codes "x-content-type-options")
    ∷ []

abbrev pub common_canon_names : Table Bytes Bytes
common_canon_names =
    (codes "accept", codes "Accept")
    ∷ (codes "accept-encoding", codes "Accept-Encoding")
    ∷ (codes "accept-language", codes "Accept-Language")
    ∷ (codes "authorization", codes "Authorization")
    ∷ (codes "cache-control", codes "Cache-Control")
    ∷ (codes "content-encoding", codes "Content-Encoding")
    ∷ (codes "content-length", codes "Content-Length")
    ∷ (codes "content-type", codes "Content-Type")
    ∷ (codes "cookie", codes "Cookie")
    ∷ (codes "host", codes "Host")
    ∷ (codes "if-modified-since", codes "If-Modified-Since")
    ∷ (codes "if-none-match", codes "If-None-Match")
    ∷ (codes "origin", codes "Origin")
    ∷ (codes "range", codes "Range")
    ∷ (codes "referer", codes "Referer")
    ∷ (codes "user-agent", codes "User-Agent")
    ∷ (codes "x-forwarded-for", codes "X-Forwarded-For")
    ∷ (codes "x-forwarded-proto", codes "X-Forwarded-Proto")
    ∷ (codes "x-real-ip", codes "X-Real-Ip")
    ∷ (codes "x-request-id", codes "X-Request-Id")
    ∷ []

-- strconv.Itoa at a non-negative number: with fuel above the number of digits.
pub itoa_loop : ℕ → ℕ → Bytes → Bytes
itoa_loop zero n out = out
itoa_loop (suc fuel) n out =
    let out = (b'0' + n % 10) ∷ out in
    let rest = itoa_loop fuel (n / 10) out in if ltb n 10 then out else rest

pub itoa : ℕ → Bytes
unfolding itoa_loop
itoa n = itoa_loop (suc n) n []

-- The table of `init`, and `StatusString` with the table as its fast path.
status_strings : ℕ → Bytes
status_strings = itoa

unfoldable pub status_string : ℕ → Bytes
unfolding status_strings
status_string code = if ltb code 600 then status_strings code else itoa code

status_string_404 : status_string 404 ≡ codes "404"
unfolding status_string itoa
status_string_404 = refl
