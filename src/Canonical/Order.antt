-- ===== src/Canonical/Order.antt =====
-- `canonicalize` of packages/canonical/index.js does not depend on the order of keys.
use coreguard.Prelude.{
  ℕ, ◌≡◌, ◌≢◌, refl, sym, ap, Option, ◌∙◌, inl, inr, List, [], ◌∷◌, true, false, none, some, arith,
  Bool-cases, nat_beq,
}
use coreguard.Canonical.Encode.{
  Json, Items, Fields, nil, item, end, field, array, object, Pair, text_before, insert_pair,
  sort_pairs, canonicalize, canonical_items, canonical_fields, array_text, object_text, cons_both,
  with_key,
}

before_trans :
    (a b c : List ℕ) → text_before a b ≡ true → text_before b c ≡ true → text_before a c ≡ true
unfolding text_before
before_trans _ b [] h k = ground arith
before_trans _ [] (z ∷ c) h k = ground arith
before_trans [] (y ∷ b) (z ∷ c) h k = refl
before_trans (x ∷ a) (y ∷ b) (z ∷ c) h k = ground (arith, before_trans a b c)

before_asym : (a b : List ℕ) → text_before a b ≡ true → text_before b a ≡ false
unfolding text_before
before_asym a [] h = ground arith
before_asym [] (y ∷ b) h = refl
before_asym (x ∷ a) (y ∷ b) h = ground (arith, before_asym a b)

-- Of two different texts one comes before the other.
before_total : (a b : List ℕ) → a ≢ b → text_before a b ≡ false → text_before b a ≡ true
unfolding text_before
before_total [] [] h k = absurd (h refl)
before_total (x ∷ a) [] h k = refl
before_total [] (y ∷ b) h k = ground arith
before_total (x ∷ a) (y ∷ b) h k = elim (Bool-cases (nat_beq x y)) [
  | inl same ↦ ground (arith, before_total a b (λ e. h (let e' : x ≡ y = ground arith in cc)))
  | inr other ↦ ground arith
]

before_between :
    (a b c : List ℕ)
    → a ≢ b
    → text_before c a ≡ false
    → text_before c b ≡ true
    → text_before a b ≡ true
before_between a b c h k m = elim (Bool-cases (text_before a b)) [
  | inl first ↦ first
  | inr not_first ↦ ground (arith, before_trans c b a m (before_total a b h not_first))
]

insert_pair_comm :
    (p q : Pair) (l : List Pair)
    → p.0 ≢ q.0
    → insert_pair p (insert_pair q l) ≡ insert_pair q (insert_pair p l)
unfolding insert_pair
insert_pair_comm p q [] h = ground (arith, before_total p.0 q.0 h, before_asym p.0 q.0)
insert_pair_comm p q (r ∷ l) h = ground (
  arith,
  before_total p.0 q.0 h,
  before_asym p.0 q.0,
  before_between p.0 q.0 r.0 h,
  before_between q.0 p.0 r.0 (λ e. h (sym e)),
  insert_pair_comm p q l h,
)

-- The same value, but for the order in which the keys of its objects stand, at any depth.
mutual
  pub data SameJson : Json → Json → Type 0 where
    same : (v : Json) → SameJson v v
    same_array : {xs ys : Items} → SameItems xs ys → SameJson (array xs) (array ys)
    same_object : {fs gs : Fields} → SameFields fs gs → SameJson (object fs) (object gs)

  pub data SameItems : Items → Items → Type 0 where
    same_nil : SameItems nil nil
    same_item :
        {v w : Json} {xs ys : Items}
        → SameJson v w
        → SameItems xs ys
        → SameItems (item v xs) (item w ys)

  pub data SameFields : Fields → Fields → Type 0 where
    same_end : SameFields end end
    same_field :
        {k : List ℕ} {v w : Json} {fs gs : Fields}
        → SameJson v w
        → SameFields fs gs
        → SameFields (field k v fs) (field k w gs)
    swapped :
        {k j : List ℕ} {v w : Json} {fs : Fields}
        → k ≢ j
        → SameFields (field k v (field j w fs)) (field j w (field k v fs))
    same_trans : {fs gs hs : Fields} → SameFields fs gs → SameFields gs hs → SameFields fs hs

abbrev sorted : Option (List Pair) → Option (List Pair)
sorted none = none
sorted (some ps) = some (sort_pairs ps)

object_text-sorted :
    (a b : Option (List Pair)) → sorted a ≡ sorted b → object_text a ≡ object_text b
object_text-sorted none none e = refl
object_text-sorted none (some qs) e = cc
object_text-sorted (some ps) none e = cc
object_text-sorted (some ps) (some qs) e = ground arith

sorted-cons_both :
    (p : Option Pair) (a b : Option (List Pair))
    → sorted a ≡ sorted b
    → sorted (cons_both p a) ≡ sorted (cons_both p b)
unfolding sort_pairs
sorted-cons_both none a b e = refl
sorted-cons_both (some p) none none e = refl
sorted-cons_both (some p) none (some qs) e = cc
sorted-cons_both (some p) (some ps) none e = cc
sorted-cons_both (some p) (some ps) (some qs) e = ground arith

sorted-swapped :
    (k j : List ℕ) (v w : Option (List ℕ)) (a : Option (List Pair))
    → k ≢ j
    → sorted (cons_both (with_key k v) (cons_both (with_key j w) a))
      ≡ sorted (cons_both (with_key j w) (cons_both (with_key k v) a))
unfolding sort_pairs
sorted-swapped k j none none a h = refl
sorted-swapped k j none (some y) a h = refl
sorted-swapped k j (some x) none a h = refl
sorted-swapped k j (some x) (some y) none h = refl
sorted-swapped k j (some x) (some y) (some ps) h =
    ap some (insert_pair_comm (k, x) (j, y) (sort_pairs ps) h)

mutual
  unfolding canonicalize canonical_items canonical_fields

  SameJson-canonicalize : {v w : Json} → SameJson v w → canonicalize v ≡ canonicalize w
  SameJson-canonicalize (same v) = refl
  SameJson-canonicalize (same_array s) = ap array_text (SameItems-canonical s)
  SameJson-canonicalize (same_object {fs} {gs} s) =
      object_text-sorted (canonical_fields fs) (canonical_fields gs) (SameFields-canonical s)

  SameItems-canonical : {xs ys : Items} → SameItems xs ys → canonical_items xs ≡ canonical_items ys
  SameItems-canonical same_nil = refl
  SameItems-canonical (same_item s r) = rw (SameJson-canonicalize s, SameItems-canonical r)

  SameFields-canonical :
      {fs gs : Fields}
      → SameFields fs gs
      → sorted (canonical_fields fs) ≡ sorted (canonical_fields gs)
  SameFields-canonical same_end = refl
  SameFields-canonical (same_field {k} {v} {w} {fs} {gs} s r) = rw (SameJson-canonicalize s) (
      sorted-cons_both (with_key k (canonicalize w)) (canonical_fields fs) (canonical_fields gs)
        (SameFields-canonical r))
  SameFields-canonical (swapped {k} {j} {v} {w} {fs} h) =
      sorted-swapped k j (canonicalize v) (canonicalize w) (canonical_fields fs) h
  SameFields-canonical (same_trans s r) = SameFields-canonical s ∙ SameFields-canonical r

-- Two values that differ only in the order of the keys of their objects, at any depth, have the same
-- canonical text, and canonicalize throws on both or on neither.
pub canonicalize-SameJson : (v w : Json) → SameJson v w → canonicalize v ≡ canonicalize w
canonicalize-SameJson v w s = SameJson-canonicalize s
