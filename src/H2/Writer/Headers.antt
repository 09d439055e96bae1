-- ===== src/H2/Writer/Headers.antt =====
-- What the writer's cache of lower-case names and its filter do to a header
-- (internal/h2/writer.go).
use reverse_http.Prelude.{
  ◌≡◌, refl, ap, ◌∙◌, sym, false, Option, none, some, List, [], ◌∷◌, ◌++◌, map, if◌then◌else◌,
  Bytes, bytes_eq, ◌==◌, bytes_beq_iff, All, All-append, inl, inr, Bool-cases, if_cases,
}
use reverse_http.Prelude.Table.{Table, lookup, insert}
use reverse_http.H2.Names.{to_lower_lem, lower_byte, forbidden_forward_header, common_lower_names}
use reverse_http.H2.Writer.{
  or_lower, remember, Header, Field, encode_regular_headers, cached_name, remember_name,
}

abbrev pub lower : Bytes → Bytes
lower = map lower_byte

-- The fields of a header without any cache: each name in lower case, connection-specific names
-- left out, the values of a name in their order.
pub plain_fields : Header → List Field
plain_fields [] = []
plain_fields ((k, vv) ∷ header) =
    let rest = plain_fields header in
    if forbidden_forward_header (lower k) then rest else map (λ v. (lower k, v)) vv ++ rest

-- Every entry of the cache is right.
abbrev pub Lowered : Table Bytes Bytes → Type 0
Lowered = All λ e. e.1 ≡ lower e.0

pub common_lower_names-Lowered : Lowered common_lower_names
common_lower_names-Lowered = (
  refl,
  (
    refl,
    (
      refl,
      (refl, (refl, (refl, (refl, (refl, (refl, (refl, (refl, (refl, (refl, (refl, tt))))))))))),
    ),
  ),
)

lookup-Lowered :
    (names : Table Bytes Bytes) (k : Bytes) {lk : Bytes}
    → Lowered names
    → lookup k names ≡ some lk
    → lk ≡ lower k
unfolding lookup
lookup-Lowered [] k l h = cc
lookup-Lowered ((j, v) ∷ names) k {lk} l h =
    if_cases (λ o. o ≡ some lk → lk ≡ lower k) (j == k)
      (λ hit found. let e : v ≡ lk = cc in sym e ∙ l.0 ∙ ap lower ((bytes_beq_iff j k).0 hit))
      (λ _ rest. lookup-Lowered names k l.1 rest) h

insert-Lowered :
    (names : Table Bytes Bytes) (k : Bytes) → Lowered names → Lowered (insert k (lower k) names)
unfolding insert
insert-Lowered [] k l = (refl, tt)
insert-Lowered ((j, v) ∷ names) k l =
    if_cases Lowered (j == k) (λ _. (refl, l.1)) λ _. (l.0, insert-Lowered names k l.1)

or_lower_lem :
    (o : Option Bytes) (k : Bytes)
    → ((lk : Bytes) → o ≡ some lk → lk ≡ lower k)
    → or_lower o k ≡ lower k
or_lower_lem none k h = to_lower_lem k
or_lower_lem (some lk) k h = h lk refl

cached_name_lem :
    (names : Table Bytes Bytes) (k : Bytes) → Lowered names → cached_name names k ≡ lower k
cached_name_lem names k l = or_lower_lem (lookup k names) k λ lk h. lookup-Lowered names k l h

remember-Lowered :
    (o : Option Bytes) (k : Bytes) (names : Table Bytes Bytes)
    → Lowered names
    → Lowered (remember o k names)
remember-Lowered none k names l = rw (to_lower_lem k) (insert-Lowered names k l)
remember-Lowered (some lk) k names l = l

fields_step :
    (k : Bytes) (vv : List Bytes) (header : Header) (r : Table Bytes Bytes × List Field)
    → Lowered r.0 × (r.1 ≡ plain_fields header)
    → let lk = lower k in
      let r : Table Bytes Bytes × List Field =
        if forbidden_forward_header lk then (r.0, r.1) else (r.0, map (λ v. (lk, v)) vv ++ r.1) in
      Lowered r.0 × (r.1 ≡ plain_fields ((k, vv) ∷ header))
unfolding plain_fields
fields_step k vv header r ih = elim (Bool-cases (forbidden_forward_header (lower k))) [
  | inl f ↦ rw f ih
  | inr f ↦ rw f (ih.0, ap (λ fs. map (λ v. (lower k, v)) vv ++ fs) ih.1)
]

-- A right cache stays right, and the fields that the encoder is given do not depend on it.
pub encode_regular_headers_lem :
    (names : Table Bytes Bytes) (header : Header)
    → Lowered names
    → Lowered (encode_regular_headers names header).0
      × ((encode_regular_headers names header).1 ≡ plain_fields header)
unfolding encode_regular_headers
encode_regular_headers_lem names [] l = (l, unfold plain_fields in refl)
encode_regular_headers_lem names ((k, vv) ∷ header) l = rw (cached_name_lem names k l) (
    fields_step k vv header _ (
      encode_regular_headers_lem (remember_name names k) header
        (remember-Lowered (lookup k names) k names l)))

-- No field that HTTP/2 forbids.
abbrev pub Allowed : List Field → Type 0
Allowed = All λ f. forbidden_forward_header f.0 ≡ false

values-Allowed :
    (lk : Bytes) (vv : List Bytes)
    → forbidden_forward_header lk ≡ false
    → Allowed (map (λ v. (lk, v)) vv)
values-Allowed lk [] f = tt
values-Allowed lk (v ∷ vv) f = (f, values-Allowed lk vv f)

pub plain_fields-Allowed : (header : Header) → Allowed (plain_fields header)
unfolding plain_fields
plain_fields-Allowed [] = tt
plain_fields-Allowed ((k, vv) ∷ header) =
    if_cases Allowed (forbidden_forward_header (lower k)) (λ _. plain_fields-Allowed header)
      λ f.
        All-append _ (map (λ v. (lower k, v)) vv) _ (values-Allowed (lower k) vv f)
          (plain_fields-Allowed header)

-- Whatever the handler put into the header, no connection-specific field reaches the encoder, in
-- any spelling of its name.
pub encode_regular_headers-Allowed :
    (names : Table Bytes Bytes) (header : Header)
    → Lowered names
    → Allowed (encode_regular_headers names header).1
encode_regular_headers-Allowed names header l =
    rw (encode_regular_headers_lem names header l).1 (plain_fields-Allowed header)
