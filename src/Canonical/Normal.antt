-- ===== src/Canonical/Normal.antt =====
-- What the canonical text of packages/canonical/index.js keeps of a value: the keys of its objects
-- sorted, texts after 0x in lower case, and null for undefined.
use coreguard.Prelude.{
  ℕ, ◌≡◌, refl, List, [], ◌∷◌, map, true, false, Option, none, some, if◌then◌else◌, arith,
  Bool-cases, inl, inr,
}
use coreguard.Canonical.Uint.{Number}
use coreguard.Canonical.Encode.{
  Json, Items, Fields, undefined, null, unsupported, boolean, number, text, array, object, nil,
  item, end, field, Pair, text_before, insert_pair, sort_pairs, pair_text, join, bracketed, quote,
  lower_0x, integer_text, number_text, canonicalize, canonical_items, canonical_fields, array_text,
  object_text, cons_both, with_key,
}

unfoldable pub insert_field : List ℕ → Json → Fields → Fields
insert_field k v end = field k v end
insert_field k v (field j w fs) =
    if text_before j k then field j w (insert_field k v fs) else field k v (field j w fs)

unfoldable pub sort_fields : Fields → Fields
sort_fields end = end
sort_fields (field k v fs) = insert_field k v (sort_fields fs)

unfoldable mutual
  pub normal : Json → Json
  normal undefined = null
  normal null = null
  normal unsupported = unsupported
  normal (boolean b) = boolean b
  normal (number x) = number x
  normal (text s) = text (lower_0x s)
  normal (array xs) = array (normal_items xs)
  normal (object fs) = object (sort_fields (normal_fields fs))

  pub normal_items : Items → Items
  normal_items nil = nil
  normal_items (item v xs) = item (normal v) (normal_items xs)

  pub normal_fields : Fields → Fields
  normal_fields end = end
  normal_fields (field k v fs) = field k (normal v) (normal_fields fs)

unfoldable pub integer_or_none : Number → List ℕ
integer_or_none (Number.integer i) = integer_text i
integer_or_none Number.fraction = []
integer_or_none Number.non_finite = []

-- A value written as it stands, with nothing sorted.
unfoldable mutual
  pub print : Json → List ℕ
  print undefined = []
  print null = b'n' ∷ b'u' ∷ b'l' ∷ b'l' ∷ []
  print unsupported = []
  print (boolean true) = b't' ∷ b'r' ∷ b'u' ∷ b'e' ∷ []
  print (boolean false) = b'f' ∷ b'a' ∷ b'l' ∷ b's' ∷ b'e' ∷ []
  print (number x) = integer_or_none x
  print (text s) = quote s
  print (array xs) = bracketed b'[' b']' (join (texts_of xs))
  print (object fs) = bracketed b'{' b'}' (join (map pair_text (pairs_of fs)))

  pub texts_of : Items → List (List ℕ)
  texts_of nil = []
  texts_of (item v xs) = print v ∷ texts_of xs

  pub pairs_of : Fields → List Pair
  pairs_of end = []
  pairs_of (field k v fs) = (k, print v) ∷ pairs_of fs

-- The values that have a text of their own.
unfoldable mutual
  pub Readable : Json → Type 0
  Readable undefined = ⊥
  Readable null = Unit
  Readable unsupported = ⊥
  Readable (boolean b) = Unit
  Readable (number (Number.integer i)) = Unit
  Readable (number Number.fraction) = ⊥
  Readable (number Number.non_finite) = ⊥
  Readable (text s) = Unit
  Readable (array xs) = ReadableItems xs
  Readable (object fs) = ReadableFields fs

  pub ReadableItems : Items → Type 0
  ReadableItems nil = Unit
  ReadableItems (item v xs) = Readable v × ReadableItems xs

  pub ReadableFields : Fields → Type 0
  ReadableFields end = Unit
  ReadableFields (field k v fs) = Readable v × ReadableFields fs

pairs_of-insert_field :
    (k : List ℕ) (v : Json) (fs : Fields)
    → pairs_of (insert_field k v fs) ≡ insert_pair (k, print v) (pairs_of fs)
unfolding pairs_of insert_field insert_pair
pairs_of-insert_field k v end = refl
pairs_of-insert_field k v (field j w fs) = ground (arith, pairs_of-insert_field k v fs)

pairs_of-sort_fields : (fs : Fields) → pairs_of (sort_fields fs) ≡ sort_pairs (pairs_of fs)
unfolding pairs_of sort_fields sort_pairs
pairs_of-sort_fields end = refl
pairs_of-sort_fields (field k v fs) =
    ground (arith, pairs_of-insert_field k v (sort_fields fs), pairs_of-sort_fields fs)

ReadableFields-insert_field :
    (k : List ℕ) (v : Json) (fs : Fields)
    → Readable v
    → ReadableFields fs
    → ReadableFields (insert_field k v fs)
unfolding ReadableFields insert_field
ReadableFields-insert_field k v end h r = (h, tt)
ReadableFields-insert_field k v (field j w fs) h r = elim (Bool-cases (text_before j k)) [
  | inl later ↦ rw later (r.0, ReadableFields-insert_field k v fs h r.1)
  | inr here ↦ rw here (h, r)
]

ReadableFields-sort_fields : (fs : Fields) → ReadableFields fs → ReadableFields (sort_fields fs)
unfolding ReadableFields sort_fields
ReadableFields-sort_fields end r = tt
ReadableFields-sort_fields (field k v fs) r =
    ReadableFields-insert_field k v (sort_fields fs) r.0 (ReadableFields-sort_fields fs r.1)

cons_both-inverse {ℓ} :
    {A : Type ℓ} (a : Option A) (b : Option (List A)) (l : List A)
    → cons_both a b ≡ some l
    → (x : A) × (xs : List A) × (a ≡ some x) × (b ≡ some xs) × (l ≡ x ∷ xs)
cons_both-inverse (some x) (some xs) l e = (x, xs, refl, refl, ground arith)
cons_both-inverse (some x) none l e = ground arith
cons_both-inverse none (some xs) l e = ground arith
cons_both-inverse none none l e = ground arith

number_text-Readable :
    (x : Number) (t : List ℕ)
    → number_text x ≡ some t
    → (t ≡ integer_or_none x) × Readable (number x)
unfolding number_text integer_or_none Readable
number_text-Readable Number.fraction t e = ground arith
number_text-Readable Number.non_finite t e = ground arith
number_text-Readable (Number.integer i) t e = (ground arith, tt)

array_text-inverse :
    (a : Option (List (List ℕ))) (t : List ℕ)
    → array_text a ≡ some t
    → (parts : List (List ℕ)) × (a ≡ some parts) × (t ≡ bracketed b'[' b']' (join parts))
array_text-inverse none t e = ground arith
array_text-inverse (some parts) t e = (parts, refl, ground arith)

object_text-inverse :
    (a : Option (List Pair)) (t : List ℕ)
    → object_text a ≡ some t
    → (ps : List Pair) × (a ≡ some ps)
      × (t ≡ bracketed b'{' b'}' (join (map pair_text (sort_pairs ps))))
object_text-inverse none t e = ground arith
object_text-inverse (some ps) t e = (ps, refl, ground arith)

with_key-inverse :
    (k : List ℕ) (v : Option (List ℕ)) (p : Pair)
    → with_key k v ≡ some p
    → (t : List ℕ) × (v ≡ some t) × (p ≡ (k, t))
with_key-inverse k none p e = ground arith
with_key-inverse k (some t) p e = (t, refl, ground arith)

-- The canonical text of a value is its normal form, written as it stands.
mutual
  unfolding canonicalize canonical_items canonical_fields normal normal_items normal_fields print
      texts_of pairs_of Readable ReadableItems ReadableFields

  canonicalize_parts :
      (v : Json) (t : List ℕ)
      → canonicalize v ≡ some t
      → (t ≡ print (normal v)) × Readable (normal v)
  canonicalize_parts undefined t e = (ground arith, tt)
  canonicalize_parts null t e = (ground arith, tt)
  canonicalize_parts unsupported t e = ground arith
  canonicalize_parts (boolean true) t e = (ground arith, tt)
  canonicalize_parts (boolean false) t e = (ground arith, tt)
  canonicalize_parts (number x) t e = number_text-Readable x t e
  canonicalize_parts (text s) t e = (ground arith, tt)
  canonicalize_parts (array xs) t e =
      let (parts, ea, et) = array_text-inverse (canonical_items xs) t e in
      let (ep, r) = items_parts xs parts ea in (rw (et, ep) refl, r)
  canonicalize_parts (object fs) t e =
      let (ps, ea, et) = object_text-inverse (canonical_fields fs) t e in
      let (ep, r) = fields_parts fs ps ea in
      (
        rw (et, ep, pairs_of-sort_fields (normal_fields fs)) refl,
        ReadableFields-sort_fields (normal_fields fs) r,
      )

  items_parts :
      (xs : Items) (ts : List (List ℕ))
      → canonical_items xs ≡ some ts
      → (ts ≡ texts_of (normal_items xs)) × ReadableItems (normal_items xs)
  items_parts nil ts e = (ground arith, tt)
  items_parts (item v xs) ts e =
      let (t, rest, ev, er, el) = cons_both-inverse (canonicalize v) (canonical_items xs) ts e in
      let (et, rv) = canonicalize_parts v t ev in
      let (es, rs) = items_parts xs rest er in (rw (el, et, es) refl, (rv, rs))

  fields_parts :
      (fs : Fields) (ps : List Pair)
      → canonical_fields fs ≡ some ps
      → (ps ≡ pairs_of (normal_fields fs)) × ReadableFields (normal_fields fs)
  fields_parts end ps e = (ground arith, tt)
  fields_parts (field k v fs) ps e =
      let (p, rest, ek, er, el) =
        cons_both-inverse (with_key k (canonicalize v)) (canonical_fields fs) ps e in
      let (t, ev, ep) = with_key-inverse k (canonicalize v) p ek in
      let (et, rv) = canonicalize_parts v t ev in
      let (es, rs) = fields_parts fs rest er in (rw (el, ep, et, es) refl, (rv, rs))

pub canonicalize-print :
    (v : Json) (t : List ℕ) → canonicalize v ≡ some t → (t ≡ print (normal v)) × Readable (normal v)
canonicalize-print v t e = canonicalize_parts v t e
