-- ===== src/Prelude/Texts.antt =====
-- Texts as code points where the source walks them: letter case, and the numbers that `BigInt` reads.
use Prim.Native.Nat.{ℕ, zero, suc, ◌+◌, ◌-◌, ◌*◌}
use Prim.Native.Char.{code}
use Prim.Native.String.{String}
use mathlib.Core.Path.{◌≡◌, refl}
use native.Mathlib.Omega.{arith}
use mathlib.Core.Bool.{Bool, true, false, ◌&&◌, ◌||◌}
use mathlib.Core.Option.{Option, none, some}
use mathlib.Core.List.{List, [], ◌∷◌, map}
use coreguard.Prelude.Tests.{ltb, leb, nat_beq, if◌then◌else◌}
use coreguard.Prelude.Int.{ℤ, pos, negsuc}

unfoldable pub codes : String → List ℕ
codes String.[] = []
codes (String.◌∷◌ c rest) = code c ∷ codes rest

-- `toLowerCase` and `toUpperCase` on ASCII letters.
unfoldable pub lower : ℕ → ℕ
lower c = if leb b'A' c && leb c b'Z' then c + 32 else c

unfoldable pub upper : ℕ → ℕ
upper c = if leb b'a' c && leb c b'z' then c - 32 else c

unfoldable pub same_codes : List ℕ → List ℕ → Bool
same_codes [] [] = true
same_codes (a ∷ xs) (b ∷ ys) = nat_beq a b && same_codes xs ys
same_codes _ _ = false

pub same_codes-eq : (a b : List ℕ) → same_codes a b ≡ true → a ≡ b
unfolding same_codes
same_codes-eq [] [] h = refl
same_codes-eq [] (y ∷ b) h = ground arith
same_codes-eq (x ∷ a) [] h = ground arith
same_codes-eq (x ∷ a) (y ∷ b) h = ground (arith, same_codes-eq a b)

pub same_codes_self : (s : List ℕ) → same_codes s s ≡ true
unfolding same_codes
same_codes_self [] = refl
same_codes_self (c ∷ s) = ground (arith, same_codes_self s)

-- `a.toLowerCase() === b.toLowerCase()`
unfoldable pub same_text : String → String → Bool
same_text a b = same_codes (map lower (codes a)) (map lower (codes b))

-- `ts.map((t) => t.toLowerCase()).includes(s.toLowerCase())`
unfoldable pub includes_text : List String → String → Bool
includes_text [] s = false
includes_text (t ∷ ts) s = same_text t s || includes_text ts s

-- `a.toUpperCase() === b`, for a text `b` in capitals.
unfoldable pub is_upper_of : String → String → Bool
is_upper_of b a = same_codes (map upper (codes a)) (codes b)

-- The value of a digit in the base, for bases up to 16.
unfoldable pub digit_value : ℕ → Option ℕ
digit_value c =
    if leb b'0' c && leb c b'9'
    then some (c - b'0')
    else if leb b'a' c && leb c b'f'
    then some (c - b'a' + 10)
    else if leb b'A' c && leb c b'F'
    then some (c - b'A' + 10)
    else none

unfoldable pub digit_in : ℕ → ℕ → Option ℕ
digit_in base c = elim (digit_value c) [
  | none ↦ none
  | some d ↦ if ltb d base then some d else none
]

unfoldable pub digits_from : ℕ → ℕ → List ℕ → Option ℕ
digits_from base acc [] = some acc
digits_from base acc (c ∷ cs) = elim (digit_in base c) [
  | none ↦ none
  | some d ↦ digits_from base (acc * base + d) cs
]

-- The number that one or more digits write.
unfoldable pub digits : ℕ → List ℕ → Option ℕ
digits base [] = none
digits base (c ∷ cs) = digits_from base 0 (c ∷ cs)

-- White space of ECMAScript, line ends included.
unfoldable pub is_space : ℕ → Bool
is_space c =
    (leb 9 c && leb c 13)
    || nat_beq c 32
    || nat_beq c 160
    || nat_beq c 5760
    || (leb 8192 c && leb c 8202)
    || nat_beq c 8232
    || nat_beq c 8233
    || nat_beq c 8239
    || nat_beq c 8287
    || nat_beq c 12288
    || nat_beq c 65279

unfoldable pub trim_start : List ℕ → List ℕ
trim_start [] = []
trim_start (c ∷ cs) = if is_space c then trim_start cs else c ∷ cs

unfoldable pub backwards : List ℕ → List ℕ → List ℕ
backwards [] acc = acc
backwards (c ∷ cs) acc = backwards cs (c ∷ acc)

unfoldable pub trim : List ℕ → List ℕ
trim cs = backwards (trim_start (backwards (trim_start cs) [])) []

abbrev pub as_pos : Option ℕ → Option ℤ
as_pos none = none
as_pos (some n) = some (pos n)

abbrev pub as_neg : Option ℕ → Option ℤ
as_neg none = none
as_neg (some zero) = some (pos 0)
as_neg (some (suc n)) = some (negsuc n)

-- A number after `0x`, `0o` or `0b`, which takes no sign, or a decimal with one.
unfoldable pub integer_literal : List ℕ → Option ℤ
integer_literal [] = some (pos 0)
integer_literal (a ∷ []) = as_pos (digits 10 (a ∷ []))
integer_literal (a ∷ b ∷ cs) =
    if nat_beq a b'0' && (nat_beq b b'x' || nat_beq b b'X')
    then as_pos (digits 16 cs)
    else if nat_beq a b'0' && (nat_beq b b'o' || nat_beq b b'O')
    then as_pos (digits 8 cs)
    else if nat_beq a b'0' && (nat_beq b b'b' || nat_beq b b'B')
    then as_pos (digits 2 cs)
    else if nat_beq a b'-'
    then as_neg (digits 10 (b ∷ cs))
    else if nat_beq a b'+'
    then as_pos (digits 10 (b ∷ cs))
    else as_pos (digits 10 (a ∷ b ∷ cs))

-- `BigInt(s)`, with none where it throws.
unfoldable pub big_int : String → Option ℤ
big_int s = integer_literal (trim (codes s))

-- `a <= b` and `a === b` on integers.
unfoldable pub leb_int : ℤ → ℤ → Bool
leb_int (pos m) (pos n) = leb m n
leb_int (pos m) (negsuc n) = false
leb_int (negsuc m) (pos n) = true
leb_int (negsuc m) (negsuc n) = leb n m

unfoldable pub eqb_int : ℤ → ℤ → Bool
eqb_int (pos m) (pos n) = nat_beq m n
eqb_int (negsuc m) (negsuc n) = nat_beq m n
eqb_int _ _ = false

-- `a.toLowerCase() === b`
unfoldable pub is_lower_of : String → String → Bool
is_lower_of b a = same_codes (map lower (codes a)) (codes b)

-- `/^[0-9a-fA-F]{n}$/`, and the same after `0x`.
unfoldable pub is_hex : ℕ → List ℕ → Bool
is_hex zero [] = true
is_hex (suc n) (c ∷ cs) = (elim (digit_value c) [ none ↦ false | some d ↦ true ]) && is_hex n cs
is_hex _ _ = false

unfoldable pub is_hex_after_0x : ℕ → List ℕ → Bool
is_hex_after_0x n (a ∷ b ∷ cs) = nat_beq a b'0' && nat_beq b b'x' && is_hex n cs
is_hex_after_0x n _ = false
