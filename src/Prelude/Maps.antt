-- ===== src/Prelude/Maps.antt =====
-- A `Map` keyed by texts, as an association list in insertion order.
use Prim.Native.Nat.{ℕ, ◌+◌, ◌≤◌}
use Prim.Native.String.{String}
use mathlib.Core.Path.{◌≡◌, refl, subst}
use mathlib.Core.Logic.{◌≢◌, inl, inr}
use mathlib.Core.Bool.{Bool, true, false}
use mathlib.Core.Option.{Option, none, some}
use mathlib.Core.List.{List, [], ◌∷◌}
use native.Mathlib.Omega.{arith}
use text.Mathlib.Text.{◌==◌}
use text.Mathlib.TextEquality.{eq_iff}
use coreguard.Prelude.Tests.{if◌then◌else◌, ==_self, ==-of_ne, Bool-cases}

abbrev pub Dict {ℓ} : Type ℓ → Type ℓ
Dict V = List (String × V)

module _ {ℓ} {V : Type ℓ} where
  -- `m.get(k)`
  unfoldable pub lookup : String → Dict V → Option V
  lookup k [] = none
  lookup k ((j, v) ∷ m) = if j == k then some v else lookup k m

  -- `m.has(k)`
  abbrev pub contains : String → Dict V → Bool
  contains k m = elim (lookup k m) [ none ↦ false | some v ↦ true ]

  -- `m.set(k, v)`: a key that is there keeps its place.
  unfoldable pub insert : String → V → Dict V → Dict V
  insert k v [] = (k, v) ∷ []
  insert k v ((j, w) ∷ m) = if j == k then (j, v) ∷ m else (j, w) ∷ insert k v m

  -- `m.delete(k)`
  unfoldable pub erase : String → Dict V → Dict V
  erase k [] = []
  erase k ((j, w) ∷ m) = if j == k then m else (j, w) ∷ erase k m

  -- `[...m.values()]`
  unfoldable pub values : Dict V → List V
  values [] = []
  values ((j, w) ∷ m) = w ∷ values m

  -- `m.get(asked)` after `m.set(written, v)`.
  pub lookup-insert :
      (written asked : String) (v : V) (m : Dict V)
      → lookup asked (insert written v m) ≡ (if written == asked then some v else lookup asked m)
  unfolding lookup insert
  lookup-insert written asked v [] = refl
  lookup-insert written asked v ((head, w) ∷ m) = ground (
    arith,
    lookup-insert written asked v m,
    eq_iff head written,
    eq_iff head asked,
    eq_iff written asked,
  )

  pub lookup-insert_ne :
      (written asked : String) (v : V) (m : Dict V)
      → written ≢ asked
      → lookup asked (insert written v m) ≡ lookup asked m
  lookup-insert_ne written asked v m other =
      rw (lookup-insert written asked v m, ==-of_ne written asked other)

  pub lookup-insert_self :
      (key : String) (v : V) (m : Dict V) → lookup key (insert key v m) ≡ some v
  lookup-insert_self key v m = rw (lookup-insert key key v m, ==_self key)

  -- Writing back what is there changes nothing.
  pub insert-lookup : (k : String) (v : V) (m : Dict V) → lookup k m ≡ some v → insert k v m ≡ m
  unfolding lookup insert
  insert-lookup k v [] e = cc
  insert-lookup k v ((j, w) ∷ m) e = ground (arith, insert-lookup k v m)

  -- The sum of a measure over the entries, and how an insertion moves it.
  unfoldable pub sum_by : (String → V → ℕ) → Dict V → ℕ
  sum_by f [] = 0
  sum_by f ((j, v) ∷ m) = f j v + sum_by f m

  pub sum_by-insert :
      (f : String → V → ℕ) (k : String) (v w : V) (m : Dict V)
      → lookup k m ≡ some w
      → sum_by f (insert k v m) + f k w ≡ sum_by f m + f k v
  unfolding lookup insert sum_by
  sum_by-insert f k v w [] e = cc
  sum_by-insert f k v w ((j, u) ∷ m) e = ground (arith, eq_iff j k, sum_by-insert f k v w m)

  -- One entry is a part of the sum.
  pub le-sum_by :
      (f : String → V → ℕ) (k : String) (w : V) (m : Dict V)
      → lookup k m ≡ some w
      → f k w ≤ sum_by f m
  unfolding lookup sum_by
  le-sum_by f k w [] e = cc
  le-sum_by f k w ((j, u) ∷ m) e = ground (arith, eq_iff j k, le-sum_by f k w m)

  pub sum_by-insert_new :
      (f : String → V → ℕ) (k : String) (v : V) (m : Dict V)
      → lookup k m ≡ none
      → sum_by f (insert k v m) ≡ sum_by f m + f k v
  unfolding lookup insert sum_by
  sum_by-insert_new f k v [] e = omega arith
  sum_by-insert_new f k v ((j, u) ∷ m) e = ground (arith, sum_by-insert_new f k v m)

-- Every value of the map has the property.
module _ {ℓ κ} {V : Type ℓ} (P : V → Type κ) where
  abbrev pub AllValues : Dict V → Type κ
  AllValues [] = Unit
  AllValues ((j, v) ∷ m) = P v × AllValues m

  pub AllValues-insert :
      (k : String) (v : V) (m : Dict V) → P v → AllValues m → AllValues (insert k v m)
  unfolding insert
  AllValues-insert k v [] p h = (p, tt)
  AllValues-insert k v ((j, w) ∷ m) p h = elim (Bool-cases (j == k)) [
    | inl same ↦ rw same (p, h.1)
    | inr other ↦ rw other (h.0, AllValues-insert k v m p h.1)
  ]

  pub AllValues-lookup : (k : String) (v : V) (m : Dict V) → AllValues m → lookup k m ≡ some v → P v
  unfolding lookup
  AllValues-lookup k v [] h e = cc
  AllValues-lookup k v ((j, w) ∷ m) h e = elim (Bool-cases (j == k)) [
    | inl same ↦ let e' : w ≡ v = ground arith in subst P e' h.0
    | inr other ↦ AllValues-lookup k v m h.1 (rw other at e)
  ]
