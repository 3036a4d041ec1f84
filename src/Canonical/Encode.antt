-- ===== src/Canonical/Encode.antt =====
-- `canonicalize` of packages/canonical/index.js: the one JSON text of a value. A text is its UTF-16
-- code units; `toLowerCase` is that of ASCII letters.
use Prim.Native.Nat.{◌/◌, ◌%◌}
use coreguard.Prelude.{
  ℕ, ◌+◌, ◌-◌, List, [], ◌∷◌, ◌++◌, map, Bool, true, false, ◌&&◌, ◌||◌, Option, none, some, ltb,
  leb, nat_beq, if◌then◌else◌, ℤ, pos, negsuc, lower, suc,
}
use coreguard.Canonical.Decimal.{to_decimal}
use coreguard.Canonical.Uint.{Number, max_safe}

-- The values that `typeof` and `Array.isArray` tell apart. The fields of an object are in the order
-- of its keys, which JavaScript keeps distinct.
mutual
  pub data Json : Type 0 where
    undefined null unsupported : Json
    boolean : Bool → Json
    number : Number → Json
    text : List ℕ → Json
    array : Items → Json
    object : Fields → Json

  pub data Items : Type 0 where
    nil : Items
    item : Json → Items → Items

  pub data Fields : Type 0 where
    end : Fields
    field : List ℕ → Json → Fields → Fields

-- One hexadecimal digit, in lower case.
unfoldable pub hex_digit : ℕ → ℕ
hex_digit d = if ltb d 10 then b'0' + d else b'a' + (d - 10)

-- `\u` and the four digits of a code unit.
unfoldable pub unicode_escape : ℕ → List ℕ
unfolding hex_digit
unicode_escape c =
    b'\\'
    ∷ b'u'
    ∷ hex_digit (c / 4096 % 16)
    ∷ hex_digit (c / 256 % 16)
    ∷ hex_digit (c / 16 % 16)
    ∷ hex_digit (c % 16)
    ∷ []

abbrev pub is_lead : ℕ → Bool
is_lead c = leb 0xd800 c && leb c 0xdbff

abbrev pub is_trail : ℕ → Bool
is_trail c = leb 0xdc00 c && leb c 0xdfff

-- A code unit that is no part of a surrogate pair.
unfoldable pub escape_unit : ℕ → List ℕ
escape_unit c =
    if nat_beq c 0x22 || nat_beq c 0x5c
    then b'\\' ∷ c ∷ []
    else if nat_beq c 8
    then b'\\' ∷ b'b' ∷ []
    else if nat_beq c 9
    then b'\\' ∷ b't' ∷ []
    else if nat_beq c 10
    then b'\\' ∷ b'n' ∷ []
    else if nat_beq c 12
    then b'\\' ∷ b'f' ∷ []
    else if nat_beq c 13
    then b'\\' ∷ b'r' ∷ []
    else if ltb c 0x20 || is_lead c || is_trail c
    then unicode_escape c
    else c ∷ []

unfoldable pub escape_units : List ℕ → List ℕ
escape_units [] = []
escape_units (c ∷ []) = escape_unit c
escape_units (c ∷ d ∷ rest) = elim (is_lead c && is_trail d) [
  | true ↦ c ∷ d ∷ escape_units rest
  | false ↦ escape_unit c ++ escape_units (d ∷ rest)
]

-- `JSON.stringify` of a text.
unfoldable pub quote : List ℕ → List ℕ
quote s = 0x22 ∷ escape_units s ++ 0x22 ∷ []

-- `s.startsWith("0x")`
unfoldable pub starts_0x : List ℕ → Bool
starts_0x (a ∷ b ∷ rest) = nat_beq a b'0' && nat_beq b b'x'
starts_0x _ = false

unfoldable pub lower_0x : List ℕ → List ℕ
lower_0x s = if starts_0x s then map lower s else s

-- `String(n)`
unfoldable pub integer_text : ℤ → List ℕ
integer_text (pos n) = to_decimal n
integer_text (negsuc n) = b'-' ∷ to_decimal (suc n)

abbrev pub magnitude : ℤ → ℕ
magnitude (pos n) = n
magnitude (negsuc n) = suc n

unfoldable pub number_text : Number → Option (List ℕ)
number_text Number.fraction = none
number_text Number.non_finite = none
number_text (Number.integer i) = if ltb max_safe (magnitude i) then none else some (integer_text i)

-- The order of `Array.prototype.sort` on texts: by code units.
unfoldable pub text_before : List ℕ → List ℕ → Bool
text_before _ [] = false
text_before [] (d ∷ ds) = true
text_before (c ∷ cs) (d ∷ ds) = ltb c d || (nat_beq c d && text_before cs ds)

abbrev pub Pair : Type 0
Pair = List ℕ × List ℕ

unfoldable pub insert_pair : Pair → List Pair → List Pair
insert_pair p [] = p ∷ []
insert_pair p (q ∷ qs) = if text_before q.0 p.0 then q ∷ insert_pair p qs else p ∷ q ∷ qs

unfoldable pub sort_pairs : List Pair → List Pair
sort_pairs [] = []
sort_pairs (p ∷ ps) = insert_pair p (sort_pairs ps)

unfoldable pub pair_text : Pair → List ℕ
pair_text p = quote p.0 ++ b':' ∷ p.1

-- `parts.join(",")`
unfoldable pub join : List (List ℕ) → List ℕ
join [] = []
join (s ∷ []) = s
join (s ∷ t ∷ rest) = s ++ b',' ∷ join (t ∷ rest)

abbrev pub bracketed : ℕ → ℕ → List ℕ → List ℕ
bracketed opening closing s = opening ∷ s ++ closing ∷ []

abbrev pub array_text : Option (List (List ℕ)) → Option (List ℕ)
array_text none = none
array_text (some parts) = some (bracketed b'[' b']' (join parts))

abbrev pub object_text : Option (List Pair) → Option (List ℕ)
object_text none = none
object_text (some ps) = some (bracketed b'{' b'}' (join (map pair_text (sort_pairs ps))))

abbrev pub cons_both {ℓ} : {A : Type ℓ} → Option A → Option (List A) → Option (List A)
cons_both (some a) (some rest) = some (a ∷ rest)
cons_both _ _ = none

abbrev pub with_key : List ℕ → Option (List ℕ) → Option Pair
with_key k none = none
with_key k (some v) = some (k, v)

-- canonicalize, with none where it throws.
unfoldable mutual
  pub canonicalize : Json → Option (List ℕ)
  canonicalize undefined = some (b'n' ∷ b'u' ∷ b'l' ∷ b'l' ∷ [])
  canonicalize null = some (b'n' ∷ b'u' ∷ b'l' ∷ b'l' ∷ [])
  canonicalize (boolean true) = some (b't' ∷ b'r' ∷ b'u' ∷ b'e' ∷ [])
  canonicalize (boolean false) = some (b'f' ∷ b'a' ∷ b'l' ∷ b's' ∷ b'e' ∷ [])
  canonicalize (number x) = number_text x
  canonicalize (text s) = some (quote (lower_0x s))
  canonicalize (array xs) = array_text (canonical_items xs)
  canonicalize (object fs) = object_text (canonical_fields fs)
  canonicalize unsupported = none

  pub canonical_items : Items → Option (List (List ℕ))
  canonical_items nil = some []
  canonical_items (item v xs) = cons_both (canonicalize v) (canonical_items xs)

  pub canonical_fields : Fields → Option (List Pair)
  canonical_fields end = some []
  canonical_fields (field k v fs) = cons_both (with_key k (canonicalize v)) (canonical_fields fs)
