-- ===== src/Canonical/Idempotent.antt =====
-- The canonical text of packages/canonical/index.js is that of the normal form, so that it and the
-- normal form determine one another.
use coreguard.Prelude.{
  ℕ, ◌≡◌, ◌≢◌, ◌↔◌, refl, sym, ap, ◌∙◌, List, [], ◌∷◌, map, true, false, some, arith, lower,
  Bool-cases, inl, inr,
}
use coreguard.Canonical.Encode.{
  Json, Items, Fields, undefined, null, unsupported, boolean, number, text, array, object, nil,
  item, end, field, text_before, lower_0x, starts_0x, canonicalize, canonical_items,
  canonical_fields, array_text, object_text, quote,
}
use coreguard.Canonical.Order.{
  SameFields, same, same_object, same_field, same_end, swapped, same_trans, canonicalize-SameJson,
}
use coreguard.Canonical.Normal.{normal, normal_items, normal_fields, insert_field, sort_fields}
use coreguard.Canonical.Injective.{canonicalize-injective}

SameFields-refl : (fs : Fields) → SameFields fs fs
SameFields-refl end = same_end
SameFields-refl (field k v fs) = same_field (same v) (SameFields-refl fs)

before_self : (k : List ℕ) → text_before k k ≡ false
unfolding text_before
before_self [] = refl
before_self (c ∷ k) = ground (arith, before_self k)

insert_field-SameFields :
    (k : List ℕ) (v : Json) (fs : Fields) → SameFields (insert_field k v fs) (field k v fs)
unfolding insert_field
insert_field-SameFields k v end = SameFields-refl (field k v end)
insert_field-SameFields k v (field j w fs) = elim (Bool-cases (text_before j k)) [
  | inl later ↦
      let other : j ≢ k = λ e. absurd (ground (arith, before_self k, later, e)) in
      rw later (same_trans (same_field (same w) (insert_field-SameFields k v fs)) (swapped other))
  | inr here ↦ rw here (SameFields-refl (field k v (field j w fs)))
]

sort_fields-SameFields : (fs : Fields) → SameFields (sort_fields fs) fs
unfolding sort_fields
sort_fields-SameFields end = same_end
sort_fields-SameFields (field k v fs) =
    same_trans (insert_field-SameFields k v (sort_fields fs))
      (same_field (same v) (sort_fields-SameFields fs))

lower_twice : (s : List ℕ) → map lower (map lower s) ≡ map lower s
unfolding lower
lower_twice [] = refl
lower_twice (c ∷ s) = ground (arith, lower_twice s)

starts_0x-lower : (s : List ℕ) → starts_0x s ≡ true → starts_0x (map lower s) ≡ true
unfolding starts_0x lower
starts_0x-lower [] h = h
starts_0x-lower (a ∷ []) h = h
starts_0x-lower (a ∷ b ∷ s) h = ground arith

lower_0x_twice : (s : List ℕ) → lower_0x (lower_0x s) ≡ lower_0x s
unfolding lower_0x
lower_0x_twice s = elim (Bool-cases (starts_0x s)) [
  | inl hex ↦ rw (hex, starts_0x-lower s hex) (lower_twice s)
  | inr plain ↦ rw (plain, plain) refl
]

mutual
  unfolding canonicalize canonical_items canonical_fields normal normal_items normal_fields

  canonicalize_normal : (v : Json) → canonicalize (normal v) ≡ canonicalize v
  canonicalize_normal undefined = refl
  canonicalize_normal null = refl
  canonicalize_normal unsupported = refl
  canonicalize_normal (boolean b) = refl
  canonicalize_normal (number x) = refl
  canonicalize_normal (text s) = ap (λ (t : List ℕ). some (quote t)) (lower_0x_twice s)
  canonicalize_normal (array xs) = ap array_text (items_normal xs)
  canonicalize_normal (object fs) =
      canonicalize-SameJson (object (sort_fields (normal_fields fs))) (object (normal_fields fs))
        (same_object (sort_fields-SameFields (normal_fields fs)))
      ∙ ap object_text (fields_normal fs)

  items_normal : (xs : Items) → canonical_items (normal_items xs) ≡ canonical_items xs
  items_normal nil = refl
  items_normal (item v xs) = rw (canonicalize_normal v, items_normal xs)

  fields_normal : (fs : Fields) → canonical_fields (normal_fields fs) ≡ canonical_fields fs
  fields_normal end = refl
  fields_normal (field k v fs) = rw (canonicalize_normal v, fields_normal fs)

-- A value and its normal form have one canonical text.
pub canonicalize-normal : (v : Json) → canonicalize (normal v) ≡ canonicalize v
canonicalize-normal v = canonicalize_normal v

-- Two values, the first of which has a canonical text, have the same canonical text exactly when they
-- are the same value but for the order of keys, null in place of undefined, and the case of letters
-- in texts that start with 0x.
pub canonicalize_iff :
    (v w : Json) (t : List ℕ)
    → canonicalize v ≡ some t
    → (canonicalize w ≡ some t) ↔ (normal v ≡ normal w)
canonicalize_iff v w t e = (
  λ e'. canonicalize-injective v w t e e',
  λ n. sym (canonicalize-normal w) ∙ ap canonicalize (sym n) ∙ canonicalize-normal v ∙ e,
)
