-- ===== src/Canonical/Uniqueness.antt =====
-- packages/canonical/uint.js: which values have a canonical text, and which
-- text that is.
use coreguard.Prelude.{
  ℕ, ◌≤◌, ◌≡◌, refl, ◌⊎◌, ◌↔◌, inl, inr, List, [], ◌∷◌, Option, none, some, arith, digits, trim,
  pos, negsuc,
}
use coreguard.Canonical.Decimal.{to_decimal}
use coreguard.Canonical.Uint.{
  Value, bigint, number, text, other, Number, ok, uint256_max, max_safe, hex_uint, dec_uint,
  in_range, of_number, of_trimmed, canonical_uint_string,
}
use coreguard.Canonical.Spaces.{hex_uint-digits}

-- The number that a value stands for: a bigint that is not negative, a safe integer, or a text that
-- is, but for white space at its ends, hexadecimal after 0x or decimal.
abbrev pub Denotes : Value → ℕ → Type 0
Denotes (bigint i) n = i ≡ pos n
Denotes (number x) n = (x ≡ Number.integer (pos n)) × (n ≤ max_safe)
Denotes (text t) n = (hex_uint (trim t) ≡ some n) ⊎ (dec_uint (trim t) ≡ some n)
Denotes other n = ⊥

in_range-pos : (n : ℕ) → n ≤ uint256_max → in_range (pos n) ≡ ok (to_decimal n)
unfolding in_range
in_range-pos n h = ground arith

-- The guards after trimming pass the number that the text writes.
of_trimmed-ok :
    (t : List ℕ) (n : ℕ)
    → (hex_uint t ≡ some n) ⊎ (dec_uint t ≡ some n)
    → n ≤ uint256_max
    → of_trimmed t (hex_uint t) (dec_uint t) ≡ ok (to_decimal n)
unfolding of_trimmed dec_uint
of_trimmed-ok [] n (inl h) b = let h' : none ≡ some n = unfold hex_uint in h in ground arith
of_trimmed-ok [] n (inr h) b = let h' : none ≡ some n = unfold digits in h in ground arith
of_trimmed-ok (c ∷ cs) n (inl h) b = ground (arith, in_range-pos n b)
of_trimmed-ok (c ∷ cs) n (inr h) b = ground (arith, hex_uint-digits (c ∷ cs) n h, in_range-pos n b)

of_trimmed-inverse :
    (t : List ℕ) (hex dec : Option ℕ) (s : List ℕ)
    → of_trimmed t hex dec ≡ ok s
    → (n : ℕ) × ((hex ≡ some n) ⊎ (dec ≡ some n)) × (n ≤ uint256_max) × (s ≡ to_decimal n)
unfolding of_trimmed in_range
of_trimmed-inverse [] hex dec s e = ground arith
of_trimmed-inverse (c ∷ cs) (some n) dec s e = (n, inl refl, ground arith, ground arith)
of_trimmed-inverse (c ∷ cs) none (some n) s e = (n, inr refl, ground arith, ground arith)
of_trimmed-inverse (c ∷ cs) none none s e = ground arith

-- The number that a canonical text comes from.
canonical_uint_string-inverse :
    (v : Value) (s : List ℕ)
    → canonical_uint_string v ≡ ok s
    → (n : ℕ) × Denotes v n × (n ≤ uint256_max) × (s ≡ to_decimal n)
unfolding canonical_uint_string in_range of_number
canonical_uint_string-inverse (bigint (pos n)) s e = (n, refl, ground arith, ground arith)
canonical_uint_string-inverse (bigint (negsuc n)) s e = ground arith
canonical_uint_string-inverse (number Number.non_finite) s e = ground arith
canonical_uint_string-inverse (number Number.fraction) s e = ground arith
canonical_uint_string-inverse (number (Number.integer (negsuc n))) s e = ground arith
canonical_uint_string-inverse (number (Number.integer (pos n))) s e =
    (n, (refl, ground arith), ground arith, ground arith)
canonical_uint_string-inverse (text t) s e =
    of_trimmed-inverse (trim t) (hex_uint (trim t)) (dec_uint (trim t)) s e
canonical_uint_string-inverse other s e = ground arith

canonical_uint_string-Denotes :
    (v : Value) (n : ℕ)
    → Denotes v n
    → n ≤ uint256_max
    → canonical_uint_string v ≡ ok (to_decimal n)
unfolding canonical_uint_string of_number
canonical_uint_string-Denotes (bigint i) n d b = ground (arith, in_range-pos n b)
canonical_uint_string-Denotes (number x) n d b = ground (arith, d.0, d.1, in_range-pos n b)
canonical_uint_string-Denotes (text t) n d b = of_trimmed-ok (trim t) n d b
canonical_uint_string-Denotes other n d b = absurd d

-- canonicalUintString gives a text exactly where the value stands for a number from 0 to 2^256 - 1,
-- and the text is the decimal one of that number; it throws on every other value.
pub canonical_uint_string_iff :
    (v : Value) (s : List ℕ)
    → (canonical_uint_string v ≡ ok s)
      ↔ ((n : ℕ) × Denotes v n × (n ≤ uint256_max) × (s ≡ to_decimal n))
canonical_uint_string_iff v s = (
  canonical_uint_string-inverse v s,
  λ (n, d, b, e). rw e (canonical_uint_string-Denotes v n d b),
)
