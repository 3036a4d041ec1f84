-- ===== src/Execution/Tamper.antt =====
-- packages/execution/index.js: an attestation verifies as it was built, and as nothing else.
use coreguard.Prelude.{
  same_codes-eq, same_codes_self, true, none, some, ◌≡◌, ◌≢◌, sym, subst, arith, map, lower,
  same_codes, Option-cases, inl, inr, ◌++◌, if◌then◌else◌,
}
use coreguard.Canonical.{Json, canonicalize, domain_hash}
use coreguard.Canonical.Normal.{normal}
use coreguard.Canonical.Binding.{domain_hash-injective}
use coreguard.Execution.Items.{Text, is_truthy}
use coreguard.Execution.Attest.{
  AttestationInput, Attestation, AttestationLabel, attestation_kind, attestation_domain,
  attestation_body, build_execution_attestation, compare_ref, verify_execution_attestation,
}

-- SHA-256 has no collision, and is written in lower case.
pub record IsDigest (sha256_hex : Text → Text) : Type 0 where
  pub collision_free : (s t : Text) → sha256_hex s ≡ sha256_hex t → s ≡ t
  pub in_lower_case : (s : Text) → map lower (sha256_hex s) ≡ sha256_hex s

module _ (sha256_hex : Text → Text) where
  build-inverse :
      (a : AttestationInput) (r : Attestation)
      → build_execution_attestation sha256_hex a ≡ some r
      → (ref : Text) × (domain_hash sha256_hex attestation_domain (Json.object (attestation_body a))
          ≡ some ref)
        × (r ≡ record {
          kind = some attestation_kind;
          body = Json.object (attestation_body a);
          attestation_ref = some ref;
        })
  unfolding build_execution_attestation
  build-inverse a r e =
      elim (Option-cases
        (domain_hash sha256_hex attestation_domain (Json.object (attestation_body a)))) [
          | inl unsupported ↦ ground arith
          | inr (ref, found) ↦ (ref, found, ground arith)
        ]

  -- A digest starts with 0x, and is in lower case.
  domain_hash-lower :
      (domain ref : Text) (v : Json)
      → IsDigest sha256_hex
      → domain_hash sha256_hex domain v ≡ some ref
      → (is_truthy (some ref) ≡ true) × (map lower ref ≡ ref)
  unfolding domain_hash lower
  domain_hash-lower domain ref v d e = elim (Option-cases (canonicalize v)) [
    | inl unsupported ↦ ground arith
    | inr (t, found) ↦ (ground arith, ground (arith, d.in_lower_case (domain ++ t)))
  ]

  verified-equal :
      (declared ref : Text) (body : Json)
      → is_truthy (some declared) ≡ true
      → domain_hash sha256_hex attestation_domain body ≡ some ref
      → verify_execution_attestation sha256_hex (
          some
            (record { kind = some attestation_kind; body = body; attestation_ref = some declared }))
        ≡ (if same_codes (map lower ref) (map lower declared)
            then AttestationLabel.intact
            else AttestationLabel.tampered)
  unfolding verify_execution_attestation compare_ref
  verified-equal declared ref body h e = ground (arith, h, e, same_codes_self attestation_kind)

  abbrev attestation_of : Json → Text → Attestation
  attestation_of body ref = record {
    kind = some attestation_kind;
    body = body;
    attestation_ref = some ref;
  }

  not_canonical-ne :
      (declared : Text) (body : Json)
      → domain_hash sha256_hex attestation_domain body ≡ none
      → verify_execution_attestation sha256_hex (some (attestation_of body declared))
        ≢ AttestationLabel.intact
  unfolding verify_execution_attestation compare_ref
  not_canonical-ne declared body e h = ground (arith, e)

  same_body :
      (ref : Text) (v body : Json)
      → IsDigest sha256_hex
      → domain_hash sha256_hex attestation_domain v ≡ some ref
      → verify_execution_attestation sha256_hex (some (attestation_of body ref))
        ≡ AttestationLabel.intact
      → normal body ≡ normal v
  same_body ref v body d found h =
      elim (Option-cases (domain_hash sha256_hex attestation_domain body)) [
        | inl unsupported ↦ absurd (not_canonical-ne ref body unsupported h)
        | inr (other, made) ↦
            let (here, low) = domain_hash-lower attestation_domain ref v d found in
            let (there, low') = domain_hash-lower attestation_domain other body d made in
            let one : other ≡ ref = ground (
              arith,
              verified-equal ref other body here made,
              same_codes-eq (map lower other) (map lower ref),
              low,
              low',
            ) in
            domain_hash-injective sha256_hex d.collision_free attestation_domain body v ref
              (rw (← one) made) found
      ]

  -- An attestation that was built verifies as intact; and a record of this kind that has its reference
  -- and verifies as intact has its body, but for the order of keys and for what canonicalize leaves
  -- out, if SHA-256 has no collision.
  pub verify-build :
      (a : AttestationInput) (r : Attestation) (body : Json)
      → IsDigest sha256_hex
      → build_execution_attestation sha256_hex a ≡ some r
      → (verify_execution_attestation sha256_hex (some r) ≡ AttestationLabel.intact)
        × (verify_execution_attestation sha256_hex (some (record r { body = body }))
              ≡ AttestationLabel.intact
            → normal body ≡ normal r.body)
  verify-build a r body d e =
      let v = Json.object (attestation_body a) in
      let (ref, found, er) = build-inverse a r e in
      let (filled, low) = domain_hash-lower attestation_domain ref v d found in
      subst
        (λ (q : Attestation).
          (verify_execution_attestation sha256_hex (some q) ≡ AttestationLabel.intact)
          × (verify_execution_attestation sha256_hex (some (record q { body = body }))
                ≡ AttestationLabel.intact
              → normal body ≡ normal q.body))
        (sym er)
        (
          ground (arith, verified-equal ref ref v filled found, same_codes_self (map lower ref)),
          same_body ref v body d found,
        )
