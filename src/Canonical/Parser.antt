-- ===== src/Canonical/Parser.antt =====
-- A reader of the canonical texts of packages/canonical/index.js, for the proofs: it is only asked to
-- read what was printed.
use coreguard.Prelude.{
  ℕ, zero, suc, List, [], ◌∷◌, Bool, true, false, if◌then◌else◌, nat_beq, pos, negsuc, ℤ,
}
use coreguard.Canonical.Uint.{Number}
use coreguard.Canonical.Encode.{
  Json, Items, Fields, null, boolean, number, text, array, object, nil, item, end, field,
}
use coreguard.Canonical.Reader.{read_quoted, read_digits}

abbrev pub tail : List ℕ → List ℕ
tail [] = []
tail (c ∷ cs) = cs

abbrev pub Rest : Type 0 → Type 0
Rest A = A × List ℕ

abbrev pub integer_of : ℕ → ℤ
integer_of n = pos n

unfoldable pub negative_of : ℕ → ℤ
negative_of zero = pos 0
negative_of (suc n) = negsuc n

abbrev pub as_number : (ℕ → ℤ) → Rest ℕ → Rest Json
as_number f r = (number (Number.integer (f r.0)), r.1)

abbrev pub as_text : Rest (List ℕ) → Rest Json
as_text r = (text r.0, r.1)

abbrev pub as_array : Rest Items → Rest Json
as_array r = (array r.0, r.1)

abbrev pub as_object : Rest Fields → Rest Json
as_object r = (object r.0, r.1)

abbrev pub with_item : Json → Rest Items → Rest Items
with_item v r = (item v r.0, r.1)

abbrev pub with_field : List ℕ → Json → Rest Fields → Rest Fields
with_field k v r = (field k v r.0, r.1)

abbrev pub starts_with : ℕ → List ℕ → Bool
starts_with c [] = false
starts_with c (d ∷ ds) = nat_beq d c

-- Each call costs a unit of fuel.
unfoldable mutual
  pub read_value : ℕ → List ℕ → Rest Json
  read_value zero cs = (null, [])
  read_value (suc f) [] = (null, [])
  read_value (suc f) (c ∷ cs) =
      let items = as_array (read_items f cs) in
      let fields = as_object (read_fields f cs) in
      if nat_beq c b'n'
      then (null, tail (tail (tail cs)))
      else if nat_beq c b't'
      then (boolean true, tail (tail (tail cs)))
      else if nat_beq c b'f'
      then (boolean false, tail (tail (tail (tail cs))))
      else if nat_beq c 0x22
      then as_text (read_quoted (c ∷ cs))
      else if nat_beq c b'['
      then items
      else if nat_beq c b'{'
      then fields
      else if nat_beq c b'-'
      then as_number negative_of (read_digits 0 cs)
      else as_number integer_of (read_digits 0 (c ∷ cs))

  pub read_items : ℕ → List ℕ → Rest Items
  read_items zero cs = (nil, [])
  read_items (suc f) cs =
      let v = read_value f cs in
      let rest = with_item v.0 (read_more_items f v.1) in
      if starts_with b']' cs then (nil, tail cs) else rest

  pub read_more_items : ℕ → List ℕ → Rest Items
  read_more_items zero cs = (nil, [])
  read_more_items (suc f) cs =
      let v = read_value f (tail cs) in
      let rest = with_item v.0 (read_more_items f v.1) in
      if starts_with b',' cs then rest else (nil, tail cs)

  pub read_fields : ℕ → List ℕ → Rest Fields
  read_fields zero cs = (end, [])
  read_fields (suc f) cs =
      let k = read_quoted cs in
      let v = read_value f (tail k.1) in
      let rest = with_field k.0 v.0 (read_more_fields f v.1) in
      if starts_with b'}' cs then (end, tail cs) else rest

  pub read_more_fields : ℕ → List ℕ → Rest Fields
  read_more_fields zero cs = (end, [])
  read_more_fields (suc f) cs =
      let k = read_quoted (tail cs) in
      let v = read_value f (tail k.1) in
      let rest = with_field k.0 v.0 (read_more_fields f v.1) in
      if starts_with b',' cs then rest else (end, tail cs)
