-- ===== src/Canonical/Injective.antt =====
-- Two values with one canonical text (packages/canonical/index.js) have one normal form: a reader of
-- canonical texts gives it back.
use mathlib.Core.List.{append-nil, append_assoc}
use coreguard.Prelude.{
  ℕ, zero, suc, ◌+◌, ◌≤◌, ◌≡◌, refl, sym, ap, List, [], ◌∷◌, ◌++◌, map, true, false, none, some,
  arith, Option-cases, inl, inr, pos, negsuc, ℤ, digits, digits_from, digit_in, digit_value,
}
use coreguard.Canonical.Decimal.{to_decimal}
use coreguard.Canonical.Uint.{Number}
use coreguard.Canonical.Encode.{
  Json, Items, Fields, undefined, null, unsupported, boolean, number, text, array, object, nil,
  item, end, field, pair_text, join, quote, integer_text, canonicalize,
}
use coreguard.Canonical.Normal.{
  normal, print, texts_of, pairs_of, Readable, ReadableItems, ReadableFields, integer_or_none,
  canonicalize-print,
}
use coreguard.Canonical.Digits.{digits-to_decimal, digit_in-ten}
use coreguard.Canonical.Reader.{read_quoted-quote, read_digits-to_decimal, Stops}
use coreguard.Canonical.Parser.{
  read_value, read_items, read_more_items, read_fields, read_more_fields, negative_of, starts_with,
  as_text,
}

-- The fuel that a value takes, beside one unit.
mutual
  weight : Json → ℕ
  weight (array xs) = suc (weight_items xs)
  weight (object fs) = suc (weight_fields fs)
  weight v = 0

  weight_items : Items → ℕ
  weight_items nil = 0
  weight_items (item v xs) = suc (weight v + weight_items xs)

  weight_fields : Fields → ℕ
  weight_fields end = 0
  weight_fields (field k v fs) = suc (weight v + weight_fields fs)

-- What follows the first part of a list of parts.
more_text : List (List ℕ) → List ℕ
more_text [] = []
more_text (t ∷ ts) = b',' ∷ t ++ more_text ts

join-cons : (t : List ℕ) (ts : List (List ℕ)) → join (t ∷ ts) ≡ t ++ more_text ts
unfolding join more_text
join-cons t [] = sym (append-nil t)
join-cons t (u ∷ us) = rw (join-cons u us)

digit_head :
    (s : List ℕ) (n : ℕ)
    → digits 10 s ≡ some n
    → (c : ℕ) × (cs : List ℕ) × (d : ℕ) × (s ≡ c ∷ cs) × (digit_in 10 c ≡ some d)
unfolding digits digits_from
digit_head [] n e = ground arith
digit_head (c ∷ cs) n e = elim (Option-cases (digit_in 10 c)) [
  | inl not_digit ↦ ground arith
  | inr (d, found) ↦ (c, cs, d, refl, found)
]

read_value-to_decimal :
    (f n : ℕ) (rest : List ℕ)
    → Stops rest
    → read_value (suc f) (to_decimal n ++ rest) ≡ (number (Number.integer (pos n)), rest)
unfolding read_value
read_value-to_decimal f n rest h =
    let (c, cs, d, e, found) = digit_head (to_decimal n) n (digits-to_decimal n) in
    ground (arith, digit_in-ten c d found, read_digits-to_decimal n rest h, e)

integer_reads :
    (i : ℤ) (f : ℕ) (rest : List ℕ)
    → Stops rest
    → read_value (suc f) (integer_text i ++ rest) ≡ (number (Number.integer i), rest)
unfolding integer_text read_value negative_of
integer_reads (pos n) f rest h = read_value-to_decimal f n rest h
integer_reads (negsuc n) f rest h = rw (read_digits-to_decimal (suc n) rest h)

text_reads :
    (s : List ℕ) (f : ℕ) (rest : List ℕ) → read_value (suc f) (quote s ++ rest) ≡ (text s, rest)
unfolding read_value quote
text_reads s f rest = ap as_text (read_quoted-quote s rest)

comma-Stops : (t : List ℕ) → Stops (b',' ∷ t)
unfolding digit_in digit_value
comma-Stops t = refl

-- The closing bracket is no digit.
more_text-Stops :
    (ts : List (List ℕ)) (c : ℕ) (rest : List ℕ)
    → digit_in 10 c ≡ none
    → Stops (more_text ts ++ c ∷ rest)
unfolding more_text
more_text-Stops [] c rest h = h
more_text-Stops (t ∷ ts) c rest h = comma-Stops ((t ++ more_text ts) ++ c ∷ rest)

array_closes : digit_in 10 b']' ≡ none
unfolding digit_in digit_value
array_closes = refl

object_closes : digit_in 10 b'}' ≡ none
unfolding digit_in digit_value
object_closes = refl

-- No value starts with a closing bracket.
print-opens : (v : Json) (t : List ℕ) → Readable v → starts_with b']' (print v ++ t) ≡ false
unfolding print Readable integer_or_none integer_text quote
print-opens undefined t r = absurd r
print-opens null t r = refl
print-opens unsupported t r = absurd r
print-opens (boolean true) t r = refl
print-opens (boolean false) t r = refl
print-opens (number (Number.integer (pos n))) t r =
    let (c, cs, d, e, found) = digit_head (to_decimal n) n (digits-to_decimal n) in
    ground (arith, digit_in-ten c d found, e)
print-opens (number (Number.integer (negsuc n))) t r = refl
print-opens (number Number.fraction) t r = absurd r
print-opens (number Number.non_finite) t r = absurd r
print-opens (text s) t r = refl
print-opens (array xs) t r = refl
print-opens (object fs) t r = refl

quote-opens : (s t : List ℕ) → starts_with b'}' (quote s ++ t) ≡ false
unfolding quote
quote-opens s t = refl

items_read-nil : (f : ℕ) (rest : List ℕ) → read_items (suc f) (join [] ++ b']' ∷ rest) ≡ (nil, rest)
unfolding read_items join
items_read-nil f rest = refl

fields_read-end :
    (f : ℕ) (rest : List ℕ) → read_fields (suc f) (join [] ++ b'}' ∷ rest) ≡ (end, rest)
unfolding read_fields join
fields_read-end f rest = refl

more_items_read-nil : (f : ℕ) (rest : List ℕ) → read_more_items (suc f) (b']' ∷ rest) ≡ (nil, rest)
unfolding read_more_items
more_items_read-nil f rest = refl

more_fields_read-end :
    (f : ℕ) (rest : List ℕ) → read_more_fields (suc f) (b'}' ∷ rest) ≡ (end, rest)
unfolding read_more_fields
more_fields_read-end f rest = refl

-- A field, and what follows it.
pair_text-append :
    (k v more rest : List ℕ)
    → (pair_text (k, v) ++ more) ++ rest ≡ quote k ++ (b':' ∷ (v ++ (more ++ rest)))
unfolding pair_text
pair_text-append k v more rest = simp append_assoc

mutual
  unfolding read_value read_items read_more_items read_fields read_more_fields print texts_of
      pairs_of Readable ReadableItems ReadableFields weight weight_items weight_fields
      integer_or_none more_text

  value_reads :
      (v : Json) (f : ℕ) (rest : List ℕ)
      → weight v ≤ f
      → Readable v
      → Stops rest
      → read_value (suc f) (print v ++ rest) ≡ (v, rest)
  value_reads undefined f rest w r h = absurd r
  value_reads null f rest w r h = refl
  value_reads unsupported f rest w r h = absurd r
  value_reads (boolean true) f rest w r h = refl
  value_reads (boolean false) f rest w r h = refl
  value_reads (number (Number.integer i)) f rest w r h = integer_reads i f rest h
  value_reads (number Number.fraction) f rest w r h = absurd r
  value_reads (number Number.non_finite) f rest w r h = absurd r
  value_reads (text s) f rest w r h = text_reads s f rest
  value_reads (array xs) zero rest w r h = absurd (omega arith)
  value_reads (array xs) (suc f) rest w r h = ground (
    arith,
    append_assoc (join (texts_of xs)) (b']' ∷ []) rest,
    items_read xs f rest (omega arith) r,
  )
  value_reads (object fs) zero rest w r h = absurd (omega arith)
  value_reads (object fs) (suc f) rest w r h = ground (
    arith,
    append_assoc (join (map pair_text (pairs_of fs))) (b'}' ∷ []) rest,
    fields_read fs f rest (omega arith) r,
  )

  items_read :
      (xs : Items) (f : ℕ) (rest : List ℕ)
      → weight_items xs ≤ f
      → ReadableItems xs
      → read_items (suc f) (join (texts_of xs) ++ b']' ∷ rest) ≡ (xs, rest)
  items_read nil f rest w r = items_read-nil f rest
  items_read (item v xs) zero rest w r = absurd (omega arith)
  items_read (item v xs) (suc f) rest w r =
      let left = more_text (texts_of xs) ++ b']' ∷ rest in
      ground (
        arith,
        join-cons (print v) (texts_of xs),
        append_assoc (print v) (more_text (texts_of xs)) (b']' ∷ rest),
        print-opens v left r.0,
        value_reads v f left (omega arith) r.0
            (more_text-Stops (texts_of xs) b']' rest array_closes),
        more_items_read xs f rest (omega arith) r.1,
      )

  more_items_read :
      (xs : Items) (f : ℕ) (rest : List ℕ)
      → weight_items xs ≤ f
      → ReadableItems xs
      → read_more_items (suc f) (more_text (texts_of xs) ++ b']' ∷ rest) ≡ (xs, rest)
  more_items_read nil f rest w r = more_items_read-nil f rest
  more_items_read (item v xs) zero rest w r = absurd (omega arith)
  more_items_read (item v xs) (suc f) rest w r =
      let left = more_text (texts_of xs) ++ b']' ∷ rest in
      ground (
        arith,
        append_assoc (print v) (more_text (texts_of xs)) (b']' ∷ rest),
        value_reads v f left (omega arith) r.0
            (more_text-Stops (texts_of xs) b']' rest array_closes),
        more_items_read xs f rest (omega arith) r.1,
      )

  fields_read :
      (fs : Fields) (f : ℕ) (rest : List ℕ)
      → weight_fields fs ≤ f
      → ReadableFields fs
      → read_fields (suc f) (join (map pair_text (pairs_of fs)) ++ b'}' ∷ rest) ≡ (fs, rest)
  fields_read end f rest w r = fields_read-end f rest
  fields_read (field k v fs) zero rest w r = absurd (omega arith)
  fields_read (field k v fs) (suc f) rest w r =
      let parts = map pair_text (pairs_of fs) in
      let left = more_text parts ++ b'}' ∷ rest in
      ground (
        arith,
        join-cons (pair_text (k, print v)) parts,
        quote-opens k (b':' ∷ print v ++ left),
        pair_text-append k (print v) (more_text parts) (b'}' ∷ rest),
        read_quoted-quote k (b':' ∷ print v ++ left),
        value_reads v f left (omega arith) r.0 (more_text-Stops parts b'}' rest object_closes),
        more_fields_read fs f rest (omega arith) r.1,
      )

  more_fields_read :
      (fs : Fields) (f : ℕ) (rest : List ℕ)
      → weight_fields fs ≤ f
      → ReadableFields fs
      → read_more_fields (suc f) (more_text (map pair_text (pairs_of fs)) ++ b'}' ∷ rest)
        ≡ (fs, rest)
  more_fields_read end f rest w r = more_fields_read-end f rest
  more_fields_read (field k v fs) zero rest w r = absurd (omega arith)
  more_fields_read (field k v fs) (suc f) rest w r =
      let parts = map pair_text (pairs_of fs) in
      let left = more_text parts ++ b'}' ∷ rest in
      ground (
        arith,
        pair_text-append k (print v) (more_text parts) (b'}' ∷ rest),
        read_quoted-quote k (b':' ∷ print v ++ left),
        value_reads v f left (omega arith) r.0 (more_text-Stops parts b'}' rest object_closes),
        more_fields_read fs f rest (omega arith) r.1,
      )

-- Two values that canonicalize to the same text are the same value but for the order of keys, null
-- in place of undefined, and the case of letters in texts that start with 0x.
pub canonicalize-injective :
    (v w : Json) (t : List ℕ)
    → canonicalize v ≡ some t
    → canonicalize w ≡ some t
    → normal v ≡ normal w
canonicalize-injective v w t ev ew =
    let (tv, rv) = canonicalize-print v t ev in
    let (tw, rw') = canonicalize-print w t ew in
    let f = weight (normal v) + weight (normal w) in
    ground (
      arith,
      append-nil (print (normal v)),
      append-nil (print (normal w)),
      value_reads (normal v) f [] (omega arith) rv tt,
      value_reads (normal w) f [] (omega arith) rw' tt,
    )
