-- ===== src/Canonical/Digits.antt =====
-- Decimal texts and the numbers that they write: printing and reading undo one another.
use Prim.Native.Nat.{◌/◌, ◌%◌}
use mathlib.Core.List.{append-nil, append_assoc}
use coreguard.Prelude.{
  ℕ, zero, suc, ◌+◌, ◌*◌, ◌≤◌, ◌<◌, ◌≡◌, ◌≢◌, refl, List, [], ◌∷◌, ◌++◌, some, arith, digits,
  digits_from, digit_in, digit_value, ltb, Bool-cases, Option-cases, ◌⊎◌, inl, inr,
}
use coreguard.Canonical.Decimal.{decimal_on, to_decimal}

-- Enough fuel gives all digits.
pub decimal_on-fuel : (f g n : ℕ) → n < f → n < g → decimal_on f n ≡ decimal_on g n
unfolding decimal_on
decimal_on-fuel zero g n hf hg = absurd (omega arith)
decimal_on-fuel (suc f) zero n hf hg = absurd (omega arith)
decimal_on-fuel (suc f) (suc g) n hf hg = ground (arith, decimal_on-fuel f g (n / 10))

pub to_decimal-step : (n : ℕ) → 10 ≤ n → to_decimal n ≡ to_decimal (n / 10) ++ (b'0' + n % 10) ∷ []
unfolding to_decimal decimal_on
to_decimal-step n h = ground (arith, decimal_on-fuel n (suc (n / 10)) (n / 10))

-- A digit put behind a number above zero.
pub to_decimal-push :
    (n d : ℕ) → 0 < n → d < 10 → to_decimal (n * 10 + d) ≡ to_decimal n ++ (b'0' + d) ∷ []
to_decimal-push n d hn hd =
    let front : (n * 10 + d) / 10 ≡ n = omega arith in
    let back : (n * 10 + d) % 10 ≡ d = omega arith in
    ground (arith, to_decimal-step (n * 10 + d), front, back)

pub to_decimal_one : (d : ℕ) → d < 10 → to_decimal d ≡ (b'0' + d) ∷ []
unfolding to_decimal decimal_on
to_decimal_one d h = ground arith

pub digit_in-digit : (d : ℕ) → d < 10 → digit_in 10 (b'0' + d) ≡ some d
unfolding digit_in digit_value
digit_in-digit d h = ground arith

-- A decimal digit has its code.
pub digit_in-ten : (c d : ℕ) → digit_in 10 c ≡ some d → (c ≡ b'0' + d) × (d < 10)
unfolding digit_in digit_value
digit_in-ten c d e = (ground arith, ground arith)

digits_from-digit :
    (acc d : ℕ) (rest : List ℕ)
    → d < 10
    → digits_from 10 acc ((b'0' + d) ∷ rest) ≡ digits_from 10 (acc * 10 + d) rest
unfolding digits_from
digits_from-digit acc d rest h = ground (arith, digit_in-digit d h)

-- Reading what was printed, whatever follows it.
digits_from-decimal_on :
    (f n : ℕ) (rest : List ℕ)
    → n < f
    → digits_from 10 0 (decimal_on f n ++ rest) ≡ digits_from 10 n rest
unfolding decimal_on
digits_from-decimal_on zero n rest h = absurd (omega arith)
digits_from-decimal_on (suc f) n rest h = elim (Bool-cases (ltb n 10)) [
  | inl one ↦ ground (arith, digits_from-digit 0 n rest)
  | inr more ↦ ground (
    arith,
    append_assoc (decimal_on f (n / 10)) ((b'0' + n % 10) ∷ []) rest,
    digits_from-decimal_on f (n / 10) ((b'0' + n % 10) ∷ rest),
    digits_from-digit (n / 10) (n % 10) rest,
  )
]

pub digits_from-to_decimal :
    (n : ℕ) (rest : List ℕ) → digits_from 10 0 (to_decimal n ++ rest) ≡ digits_from 10 n rest
unfolding to_decimal
digits_from-to_decimal n rest = digits_from-decimal_on (suc n) n rest (omega arith)

append-ne : (xs : List ℕ) (c : ℕ) → xs ++ c ∷ [] ≢ []
append-ne [] c e = cc
append-ne (x ∷ xs) c e = cc

pub to_decimal-ne : (n : ℕ) → to_decimal n ≢ []
unfolding to_decimal decimal_on
to_decimal-ne n e = ground (arith, append-ne (decimal_on n (n / 10)) (b'0' + n % 10))

digits-of_ne : (cs : List ℕ) → cs ≢ [] → digits 10 cs ≡ digits_from 10 0 cs
unfolding digits
digits-of_ne [] h = absurd (h refl)
digits-of_ne (c ∷ cs) h = refl

-- `BigInt(n.toString())` is `n`.
pub digits-to_decimal : (n : ℕ) → digits 10 (to_decimal n) ≡ some n
unfolding digits_from
digits-to_decimal n = ground (
  arith,
  digits-of_ne (to_decimal n) (to_decimal-ne n),
  digits_from-to_decimal n [],
  append-nil (to_decimal n),
)

-- Printing what was read, from a number above zero on.
to_decimal-digits_from :
    (cs : List ℕ) (acc n : ℕ)
    → 0 < acc
    → digits_from 10 acc cs ≡ some n
    → to_decimal n ≡ to_decimal acc ++ cs
unfolding digits_from
to_decimal-digits_from [] acc n h e = ground (arith, append-nil (to_decimal acc))
to_decimal-digits_from (c ∷ cs) acc n h e = elim (Option-cases (digit_in 10 c)) [
  | inl not_digit ↦ ground arith
  | inr (d, found) ↦ ground (
    arith,
    digit_in-ten c d found,
    to_decimal-digits_from cs (acc * 10 + d) n,
    to_decimal-push acc d,
    append_assoc (to_decimal acc) (c ∷ []) cs,
  )
]

-- A decimal text that does not start with a zero, or is one digit long, is what its number prints.
pub to_decimal-digits :
    (c : ℕ) (cs : List ℕ) (n : ℕ)
    → (c ≢ b'0') ⊎ (cs ≡ [])
    → digits 10 (c ∷ cs) ≡ some n
    → to_decimal n ≡ c ∷ cs
unfolding digits digits_from
to_decimal-digits c cs n h e = elim (Option-cases (digit_in 10 c)) [
  | inl not_digit ↦ ground arith
  | inr (d, found) ↦ elim h [
    | inl not_zero ↦
        ground (arith, digit_in-ten c d found, to_decimal-digits_from cs d n, to_decimal_one d)
    | inr alone ↦ ground (arith, digit_in-ten c d found, to_decimal_one d)
  ]
]
