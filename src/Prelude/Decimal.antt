-- ===== src/Prelude/Decimal.antt =====
-- strconv.Atoi on a 64-bit platform.
use reverse_http.Prelude.{
  ℕ, suc, ◌+◌, ◌-◌, ◌*◌, ◌^◌, min, Bool, ◌&&◌, Option, none, some, [], ◌∷◌, leb, if◌then◌else◌,
  ◌==◌, nat_eq, Bytes,
}
use reverse_http.Prelude.Int.{ℤ, pos, negsuc}

abbrev is_digit : ℕ → Bool
is_digit c = leb b'0' c && leb c b'9'

digits : ℕ → Bytes → Option ℕ
digits acc [] = some acc
digits acc (c ∷ s) =
    let rest = digits (acc * 10 + (c - b'0')) s in if is_digit c then rest else none

abbrev magnitude : Bytes → Option ℕ
magnitude [] = none
magnitude (c ∷ s) = digits 0 (c ∷ s)

-- A number out of range gives the nearest int64.
abbrev clamped : Option ℕ → ℤ
clamped none = pos 0
clamped (some n) = pos (min n (2 ^ 63 - 1))

abbrev negated : ℤ → ℤ
negated (pos ℕ.zero) = pos 0
negated (pos (suc n)) = negsuc n
negated (negsuc n) = pos (suc n)

abbrev clamped_neg : Option ℕ → ℤ
clamped_neg none = pos 0
clamped_neg (some n) = negated (pos (min n (2 ^ 63)))

-- The value, which is 0 for a text that is no number, without the error.
unfoldable pub atoi : Bytes → ℤ
unfolding digits
atoi [] = pos 0
atoi (c ∷ s) =
    if c == b'-'
    then clamped_neg (magnitude s)
    else if c == b'+'
    then clamped (magnitude s)
    else clamped (magnitude (c ∷ s))
