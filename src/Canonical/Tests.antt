-- ===== src/Canonical/Tests.antt =====
-- The theorems about packages/canonical at concrete inputs.
use coreguard.Prelude.{
  ℕ, ◌≡◌, ◌↔◌, ◌≤◌, refl, true, false, some, codes, pos, digits, digits_from, digit_in, digit_value,
  trim, trim_start, backwards, is_space, lower,
}
use coreguard.Canonical.{
  Value, ok, threw, UintError, uint256_max, max_safe, to_decimal, decimal_on, canonical_uint_string,
  is_canonical_uint_string, is_canonical_decimal, uint_to_big_int, big_of, in_range, of_number,
  of_trimmed, hex_uint, dec_uint, security_uint_of, security_text, unchanged_in_range, Json, Fields,
  Number, canonicalize, canonical_fields, canonical_items, quote, escape_units, escape_unit,
  unicode_escape, lower_0x, starts_0x, number_text, integer_text, sort_pairs, insert_pair,
  text_before, pair_text, join,
}
use coreguard.Canonical.Uniqueness.{Denotes, canonical_uint_string_iff}
use coreguard.Canonical.Normal.{normal}
use coreguard.Canonical.Idempotent.{canonicalize_iff}

-- Opens the definitions, so that a run computes.
all_open : Unit {0}
unfolding codes digits digits_from digit_in digit_value trim trim_start backwards is_space lower
    uint256_max max_safe to_decimal decimal_on canonical_uint_string is_canonical_uint_string
    is_canonical_decimal uint_to_big_int big_of in_range of_number of_trimmed hex_uint dec_uint
    security_uint_of security_text unchanged_in_range canonicalize canonical_fields canonical_items
    quote escape_units escape_unit unicode_escape lower_0x starts_0x number_text integer_text
    sort_pairs insert_pair text_before pair_text join
all_open = tt

hexadecimal : canonical_uint_string (Value.text (codes " 0X2a ")) ≡ ok (codes "42")
unfolding all_open
hexadecimal = refl

leading_zeros : is_canonical_uint_string (Value.text (codes "007")) ≡ false
unfolding all_open
leading_zeros = refl

unsafe_number :
    canonical_uint_string (Value.number (Number.integer (pos 9007199254740992)))
    ≡ threw UintError.unsafe
unfolding all_open
unsafe_number = refl

unchanged_hexadecimal : security_uint_of (Value.text (codes "0x10")) ≡ ok (codes "0x10")
unfolding all_open
unchanged_hexadecimal = refl

canonical_uint_string_iff_example :
    (canonical_uint_string (Value.text (codes "0x2a")) ≡ ok (codes "42")) ↔ (
      (n : ℕ) × Denotes (Value.text (codes "0x2a")) n
      × (n ≤ uint256_max)
      × (codes "42" ≡ to_decimal n))
canonical_uint_string_iff_example =
    canonical_uint_string_iff (Value.text (codes "0x2a")) (codes "42")

abbrev one_field : Json → Json
one_field v = Json.object (Fields.field (codes "b") v Fields.end)

abbrev both : Json
both = Json.object (
    Fields.field (codes "b") (Json.boolean true)
      (Fields.field (codes "a") (Json.text (codes "0xAB\"")) Fields.end))

abbrev both_turned : Json
both_turned = Json.object (
    Fields.field (codes "a") (Json.text (codes "0xAB\""))
      (Fields.field (codes "b") (Json.boolean true) Fields.end))

sorted_and_lower : canonicalize both ≡ some (codes "{\"a\":\"0xab\\\"\",\"b\":true}")
unfolding all_open
sorted_and_lower = refl

canonicalize_iff_example :
    (canonicalize (one_field Json.null) ≡ some (codes "{\"b\":null}"))
    ↔ (normal (one_field Json.undefined) ≡ normal (one_field Json.null))
unfolding all_open
canonicalize_iff_example =
    canonicalize_iff (one_field Json.undefined) (one_field Json.null) (codes "{\"b\":null}") refl
