-- ===== src/Canonical/Binding.antt =====
-- What a domain-separated digest of packages/canonical/index.js says of the value it was taken of.
use mathlib.Core.List.{append_cancel_left}
use coreguard.Prelude.{ℕ, List, ◌∷◌, ◌++◌, some, ◌≡◌, arith, Option-cases, inl, inr}
use coreguard.Canonical.Encode.{Json, canonicalize}
use coreguard.Canonical.Hash.{domain_hash}
use coreguard.Canonical.Normal.{normal}
use coreguard.Canonical.Injective.{canonicalize-injective}

module _ (sha256_hex : List ℕ → List ℕ)
    (collision_free : (s t : List ℕ) → sha256_hex s ≡ sha256_hex t → s ≡ t) where
  domain_hash-inverse :
      (domain : List ℕ) (v : Json) (h : List ℕ)
      → domain_hash sha256_hex domain v ≡ some h
      → (t : List ℕ) × (canonicalize v ≡ some t) × (h ≡ b'0' ∷ b'x' ∷ sha256_hex (domain ++ t))
  unfolding domain_hash
  domain_hash-inverse domain v h e = elim (Option-cases (canonicalize v)) [
    | inl unsupported ↦ ground arith
    | inr (t, found) ↦ (t, found, ground arith)
  ]

  -- Two values with one digest in one domain are the same value but for the order of keys, null in
  -- place of undefined, and the case of letters in texts that start with 0x, if SHA-256 has no
  -- collision.
  pub domain_hash-injective :
      (domain : List ℕ) (v w : Json) (h : List ℕ)
      → domain_hash sha256_hex domain v ≡ some h
      → domain_hash sha256_hex domain w ≡ some h
      → normal v ≡ normal w
  domain_hash-injective domain v w h ev ew =
      let (t, fv, hv) = domain_hash-inverse domain v h ev in
      let (u, fw, hw) = domain_hash-inverse domain w h ew in
      let digests : sha256_hex (domain ++ t) ≡ sha256_hex (domain ++ u) = ground arith in
      let texts : t ≡ u =
        append_cancel_left domain t u (collision_free (domain ++ t) (domain ++ u) digests) in
      canonicalize-injective v w t fv (rw texts fw)
