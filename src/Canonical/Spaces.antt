-- ===== src/Canonical/Spaces.antt =====
-- Texts of digits have no white space, so that `String.prototype.trim` leaves them alone.
use coreguard.Prelude.{
  ℕ, ◌≡◌, refl, List, [], ◌∷◌, false, none, some, ◌+◌, ◌*◌, arith, digits, digits_from, digit_in,
  trim, trim_start, backwards, is_space, All, Option-cases, inl, inr,
}
use coreguard.Canonical.Digits.{digit_in-ten}
use coreguard.Canonical.Uint.{hex_uint}

abbrev HasNoSpace : List ℕ → Type 0
HasNoSpace cs = All (λ c. is_space c ≡ false) cs

trim_start-HasNoSpace : (cs : List ℕ) → HasNoSpace cs → trim_start cs ≡ cs
unfolding trim_start
trim_start-HasNoSpace [] h = refl
trim_start-HasNoSpace (c ∷ cs) h = rw h.0

backwards-HasNoSpace :
    (cs acc : List ℕ) → HasNoSpace cs → HasNoSpace acc → HasNoSpace (backwards cs acc)
unfolding backwards
backwards-HasNoSpace [] acc h k = k
backwards-HasNoSpace (c ∷ cs) acc h k = backwards-HasNoSpace cs (c ∷ acc) h.1 (h.0, k)

backwards_twice : (cs acc : List ℕ) → backwards (backwards cs acc) [] ≡ backwards acc cs
unfolding backwards
backwards_twice [] acc = refl
backwards_twice (c ∷ cs) acc = backwards_twice cs (c ∷ acc)

trim-HasNoSpace : (cs : List ℕ) → HasNoSpace cs → trim cs ≡ cs
unfolding trim
trim-HasNoSpace cs h =
    rw
      (
        trim_start-HasNoSpace cs h,
        trim_start-HasNoSpace (backwards cs []) (backwards-HasNoSpace cs [] h tt),
      )
      (unfold backwards in backwards_twice cs [])

digit-HasNoSpace : (c d : ℕ) → digit_in 10 c ≡ some d → is_space c ≡ false
unfolding is_space
digit-HasNoSpace c d e = ground (arith, digit_in-ten c d e)

digits_from-HasNoSpace : (cs : List ℕ) (acc n : ℕ) → digits_from 10 acc cs ≡ some n → HasNoSpace cs
unfolding digits_from
digits_from-HasNoSpace [] acc n e = tt
digits_from-HasNoSpace (c ∷ cs) acc n e = elim (Option-cases (digit_in 10 c)) [
  | inl not_digit ↦ ground arith
  | inr (d, found) ↦
      (digit-HasNoSpace c d found, digits_from-HasNoSpace cs (acc * 10 + d) n (ground arith))
]

pub trim-digits : (s : List ℕ) (n : ℕ) → digits 10 s ≡ some n → trim s ≡ s
unfolding digits
trim-digits [] n e = ground arith
trim-digits (c ∷ cs) n e = trim-HasNoSpace (c ∷ cs) (digits_from-HasNoSpace (c ∷ cs) 0 n e)

-- A decimal text is no hexadecimal one.
pub hex_uint-digits : (s : List ℕ) (n : ℕ) → digits 10 s ≡ some n → hex_uint s ≡ none
unfolding hex_uint digits digits_from
hex_uint-digits [] n e = refl
hex_uint-digits (a ∷ []) n e = refl
hex_uint-digits (a ∷ b ∷ cs) n e = elim (Option-cases (digit_in 10 a)) [
  | inl not_digit ↦ ground arith
  | inr (d, found) ↦ elim (Option-cases (digit_in 10 b)) [
    | inl not_digit ↦ ground arith
    | inr (d', found') ↦ ground (arith, digit_in-ten b d' found')
  ]
]
