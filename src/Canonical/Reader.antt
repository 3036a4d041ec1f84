-- ===== src/Canonical/Reader.antt =====
-- A reader of quoted texts and of decimal numbers, which gives back what packages/canonical/index.js
-- has written and the rest of its input.
use Prim.Native.Nat.{◌/◌, ◌%◌}
use mathlib.Core.List.{append_assoc}
use coreguard.Prelude.{
  ℕ, zero, suc, ◌+◌, ◌*◌, ◌-◌, ◌<◌, ◌≡◌, refl, ◌∙◌, List, [], ◌∷◌, ◌++◌, true, none, some,
  if◌then◌else◌, nat_beq, ltb, leb, arith, Bool-cases, inl, inr, ◌&&◌, digit_in,
}
use coreguard.Canonical.Decimal.{decimal_on, to_decimal}
use coreguard.Canonical.Encode.{
  hex_digit, unicode_escape, escape_unit, escape_units, quote, is_lead, is_trail,
}
use coreguard.Canonical.Digits.{digit_in-digit}

-- Inside a text, after a backslash, or with more hexadecimal digits to come.
pub data Mode : Type 0 where
  plain escaped : Mode
  hex : ℕ → ℕ → Mode

unfoldable pub hex_value : ℕ → ℕ
hex_value c = if leb c b'9' then c - b'0' else c - b'a' + 10

unfoldable pub unescape : ℕ → ℕ
unescape c =
    if nat_beq c b'b'
    then 8
    else if nat_beq c b't'
    then 9
    else if nat_beq c b'n'
    then 10
    else if nat_beq c b'f'
    then 12
    else if nat_beq c b'r'
    then 13
    else c

abbrev pub Read : Type 0
Read = List ℕ × List ℕ

abbrev pub with_unit : ℕ → Read → Read
with_unit c r = (c ∷ r.0, r.1)

-- The units of a text up to its closing quote, and what follows.
unfoldable pub read_units : Mode → List ℕ → Read
read_units _ [] = ([], [])
read_units plain (c ∷ cs) =
    if nat_beq c 0x22
    then ([], cs)
    else if nat_beq c 0x5c
    then read_units escaped cs
    else with_unit c (read_units plain cs)
read_units escaped (c ∷ cs) =
    if nat_beq c b'u' then read_units (hex 3 0) cs else with_unit (unescape c) (read_units plain cs)
read_units (hex zero acc) (c ∷ cs) = with_unit (acc * 16 + hex_value c) (read_units plain cs)
read_units (hex (suc k) acc) (c ∷ cs) = read_units (hex k (acc * 16 + hex_value c)) cs

hex_value-hex_digit : (d : ℕ) → d < 16 → hex_value (hex_digit d) ≡ d
unfolding hex_value hex_digit
hex_value-hex_digit d h = ground arith

four_digits :
    (c : ℕ)
    → c < 65536
    → (((0 * 16 + c / 4096 % 16) * 16 + c / 256 % 16) * 16 + c / 16 % 16) * 16 + c % 16 ≡ c
four_digits c h = omega arith

read_units-unicode :
    (c : ℕ) (t : List ℕ)
    → c < 65536
    → read_units plain (unicode_escape c ++ t) ≡ with_unit c (read_units plain t)
unfolding read_units unicode_escape
read_units-unicode c t h = rw (
  hex_value-hex_digit (c / 4096 % 16) (omega arith),
  hex_value-hex_digit (c / 256 % 16) (omega arith),
  hex_value-hex_digit (c / 16 % 16) (omega arith),
  hex_value-hex_digit (c % 16) (omega arith),
  four_digits c h,
)

read_units-unit :
    (c : ℕ) (t : List ℕ) → read_units plain (escape_unit c ++ t) ≡ with_unit c (read_units plain t)
unfolding read_units escape_unit unescape
read_units-unit c t = ground (arith, read_units-unicode c t)

read_units-pair :
    (c d : ℕ) (t : List ℕ)
    → is_lead c && is_trail d ≡ true
    → read_units plain (c ∷ d ∷ t) ≡ with_unit c (with_unit d (read_units plain t))
unfolding read_units
read_units-pair c d t h = ground arith

closing_quote : (rest : List ℕ) → read_units plain (0x22 ∷ rest) ≡ ([], rest)
unfolding read_units
closing_quote rest = refl

read_units-escape : (s rest : List ℕ) → read_units plain (escape_units s ++ 0x22 ∷ rest) ≡ (s, rest)
unfolding escape_units
read_units-escape [] rest = closing_quote rest
read_units-escape (c ∷ []) rest = rw (read_units-unit c (0x22 ∷ rest), closing_quote rest)
read_units-escape (c ∷ d ∷ s) rest = elim (Bool-cases (is_lead c && is_trail d)) [
  | inl paired ↦
      ground (
        arith,
        read_units-pair c d (escape_units s ++ 0x22 ∷ rest) paired,
        read_units-escape s rest,
      )
  | inr alone ↦ ground (
    arith,
    append_assoc (escape_unit c) (escape_units (d ∷ s)) (0x22 ∷ rest),
    read_units-unit c (escape_units (d ∷ s) ++ 0x22 ∷ rest),
    read_units-escape (d ∷ s) rest,
  )
]

-- A quoted text, from its opening quote on.
unfoldable pub read_quoted : List ℕ → Read
read_quoted [] = ([], [])
read_quoted (c ∷ cs) = read_units plain cs

pub read_quoted-quote : (s rest : List ℕ) → read_quoted (quote s ++ rest) ≡ (s, rest)
unfolding read_quoted quote
read_quoted-quote s rest =
    ground (arith, append_assoc (escape_units s) (0x22 ∷ []) rest, read_units-escape s rest)

-- What stands behind a number starts with no digit.
abbrev pub Stops : List ℕ → Type 0
Stops [] = Unit
Stops (c ∷ cs) = digit_in 10 c ≡ none

unfoldable pub read_digits : ℕ → List ℕ → ℕ × List ℕ
read_digits acc [] = (acc, [])
read_digits acc (c ∷ cs) = elim (digit_in 10 c) [
  | none ↦ (acc, c ∷ cs)
  | some d ↦ read_digits (acc * 10 + d) cs
]

read_digits-Stops : (n : ℕ) (rest : List ℕ) → Stops rest → read_digits n rest ≡ (n, rest)
unfolding read_digits
read_digits-Stops n [] h = refl
read_digits-Stops n (c ∷ cs) h = ground arith

read_digits-digit :
    (acc d : ℕ) (rest : List ℕ)
    → d < 10
    → read_digits acc ((b'0' + d) ∷ rest) ≡ read_digits (acc * 10 + d) rest
unfolding read_digits
read_digits-digit acc d rest h = ground (arith, digit_in-digit d h)

read_digits-decimal_on :
    (f n : ℕ) (rest : List ℕ) → n < f → read_digits 0 (decimal_on f n ++ rest) ≡ read_digits n rest
unfolding decimal_on
read_digits-decimal_on zero n rest h = absurd (omega arith)
read_digits-decimal_on (suc f) n rest h = elim (Bool-cases (ltb n 10)) [
  | inl one ↦ ground (arith, read_digits-digit 0 n rest)
  | inr more ↦ ground (
    arith,
    append_assoc (decimal_on f (n / 10)) ((b'0' + n % 10) ∷ []) rest,
    read_digits-decimal_on f (n / 10) ((b'0' + n % 10) ∷ rest),
    read_digits-digit (n / 10) (n % 10) rest,
  )
]

pub read_digits-to_decimal :
    (n : ℕ) (rest : List ℕ) → Stops rest → read_digits 0 (to_decimal n ++ rest) ≡ (n, rest)
unfolding to_decimal
read_digits-to_decimal n rest h =
    read_digits-decimal_on (suc n) n rest (omega arith) ∙ read_digits-Stops n rest h
