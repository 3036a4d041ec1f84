-- ===== src/Canonical/Uint.antt =====
-- packages/canonical/uint.js: every representation of an unsigned integer, and its one canonical
-- decimal text.
use Prim.Native.Nat.{◌^◌, ◌-◌}
use coreguard.Prelude.{
  ℕ, List, [], ◌∷◌, Bool, false, ◌&&◌, ◌||◌, Option, none, some, ltb, leb, nat_beq, if◌then◌else◌,
  length, digits, trim, ℤ, pos, negsuc,
}
use coreguard.Canonical.Decimal.{to_decimal}

-- A JavaScript number: an integer of either sign, a fraction, or one that is not finite.
pub data Number : Type 0 where
  integer : ℤ → Number
  fraction non_finite : Number

-- What `typeof` tells apart.
pub data Value : Type 0 where
  bigint : ℤ → Value
  number : Number → Value
  text : List ℕ → Value
  other : Value

-- The TypeErrors, by their texts.
pub data UintError : Type 0 where
  not_finite not_integer is_negative unsafe empty malformed unsupported too_large : UintError
  non_canonical forbidden_number : UintError

pub data Converted (A : Type 0) : Type 0 where
  ok : A → Converted A
  threw : UintError → Converted A

-- UINT256_MAX_BI
unfoldable pub uint256_max : ℕ
uint256_max = 2 ^ 256 - 1

-- Number.MAX_SAFE_INTEGER
unfoldable pub max_safe : ℕ
max_safe = 2 ^ 53 - 1

-- HEX_UINT_RE and DEC_UINT_RE, with the number that is matched.
unfoldable pub hex_uint : List ℕ → Option ℕ
hex_uint (a ∷ b ∷ cs) =
    if nat_beq a b'0' && (nat_beq b b'x' || nat_beq b b'X') then digits 16 cs else none
hex_uint _ = none

unfoldable pub dec_uint : List ℕ → Option ℕ
dec_uint cs = digits 10 cs

abbrev pub starts_with_zero : List ℕ → Bool
starts_with_zero [] = false
starts_with_zero (c ∷ cs) = nat_beq c b'0'

-- The part of canonicalUintString after `big` is known.
unfoldable pub in_range : ℤ → Converted (List ℕ)
in_range (negsuc n) = threw UintError.is_negative
in_range (pos n) = if ltb uint256_max n then threw UintError.too_large else ok (to_decimal n)

-- The guards on a number, in the source's order.
unfoldable pub of_number : Number → Converted (List ℕ)
of_number Number.non_finite = threw UintError.not_finite
of_number Number.fraction = threw UintError.not_integer
of_number (Number.integer (negsuc n)) = threw UintError.is_negative
of_number (Number.integer (pos n)) =
    if ltb max_safe n then threw UintError.unsafe else in_range (pos n)

-- What a text matches, once it is trimmed.
unfoldable pub of_trimmed : List ℕ → Option ℕ → Option ℕ → Converted (List ℕ)
of_trimmed [] hex dec = threw UintError.empty
of_trimmed (c ∷ cs) (some n) dec = in_range (pos n)
of_trimmed (c ∷ cs) none (some n) = in_range (pos n)
of_trimmed (c ∷ cs) none none = threw UintError.malformed

unfoldable pub canonical_uint_string : Value → Converted (List ℕ)
canonical_uint_string (bigint i) = in_range i
canonical_uint_string (number x) = of_number x
canonical_uint_string (text s) = of_trimmed (trim s) (hex_uint (trim s)) (dec_uint (trim s))
canonical_uint_string other = threw UintError.unsupported

-- A decimal text without a leading zero, and in range.
unfoldable pub is_canonical_decimal : List ℕ → Option ℕ → Bool
is_canonical_decimal s none = false
is_canonical_decimal s (some n) =
    if ltb 1 (length s) && starts_with_zero s then false else leb n uint256_max

unfoldable pub is_canonical_uint_string : Value → Bool
is_canonical_uint_string (text s) = is_canonical_decimal s (dec_uint s)
is_canonical_uint_string (bigint i) = false
is_canonical_uint_string (number x) = false
is_canonical_uint_string other = false

-- `BigInt` of a canonical text.
unfoldable pub big_of : Converted (List ℕ) → Converted ℕ
big_of (threw e) = threw e
big_of (ok s) = elim (digits 10 s) [ none ↦ threw UintError.malformed | some n ↦ ok n ]

unfoldable pub uint_to_big_int : Value → Converted ℕ
uint_to_big_int v = big_of (canonical_uint_string v)

-- The text itself where it is in range.
unfoldable pub unchanged_in_range : List ℕ → ℕ → Converted (List ℕ)
unchanged_in_range s n = if ltb uint256_max n then threw UintError.too_large else ok s

unfoldable pub security_text : List ℕ → Option ℕ → Option ℕ → Converted (List ℕ)
security_text [] hex dec = threw UintError.empty
security_text s (some n) dec = unchanged_in_range s n
security_text s none (some n) =
    if ltb 1 (length s) && starts_with_zero s
    then threw UintError.non_canonical
    else unchanged_in_range s n
security_text s none none = threw UintError.malformed

-- securityUint, which takes no JavaScript number at all.
unfoldable pub security_uint_of : Value → Converted (List ℕ)
security_uint_of (number x) = threw UintError.forbidden_number
security_uint_of (text s) = security_text s (hex_uint s) (dec_uint s)
security_uint_of (bigint i) = in_range i
security_uint_of other = threw UintError.unsupported
