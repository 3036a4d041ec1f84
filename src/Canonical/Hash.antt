-- ===== src/Canonical/Hash.antt =====
-- The domain-separated digests of packages/canonical/index.js. `sha256_hex` is the hexadecimal
-- SHA-256 of `node:crypto`, of the UTF-8 bytes of a text.
use coreguard.Prelude.{ℕ, List, ◌∷◌, ◌++◌, Option, none, some, codes}
use coreguard.Canonical.Encode.{Json, canonicalize}

module _ (sha256_hex : List ℕ → List ℕ) where
  -- domainHash: none where canonicalize throws.
  unfoldable pub domain_hash : List ℕ → Json → Option (List ℕ)
  domain_hash domain v = elim (canonicalize v) [
    | none ↦ none
    | some t ↦ some (b'0' ∷ b'x' ∷ sha256_hex (domain ++ t))
  ]

  abbrev pub hash_intent : Json → Option (List ℕ)
  hash_intent v = domain_hash (codes "CGEP/1:INTENT") v

  abbrev pub hash_policy : Json → Option (List ℕ)
  hash_policy v = domain_hash (codes "CGEP/1:POLICY") v

  abbrev pub hash_trace : Json → Option (List ℕ)
  hash_trace v = domain_hash (codes "CGEP/1:TRACE") v

  abbrev pub hash_evidence : Json → Option (List ℕ)
  hash_evidence v = domain_hash (codes "CGEP/1:EVIDENCE") v

  abbrev pub hash_state_delta : Json → Option (List ℕ)
  hash_state_delta v = domain_hash (codes "CGEP/1:STATEDELTA") v

  abbrev pub compute_receipt_id : Json → Option (List ℕ)
  compute_receipt_id v = domain_hash (codes "CGEP/1:RECEIPT") v
