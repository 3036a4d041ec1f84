-- ===== src/X402/Signatures.antt =====
-- Signatures of packages/x402/index.mjs: a challenge verifies under its own signature, and under no
-- signature of another challenge.
use coreguard.Prelude.{
  String, ◌≡◌, ◌≢◌, sym, ◌∙◌, List, ℕ, true, some, arith, ◌==◌, eq_iff, ==_self, ==-of_ne,
  Option-cases, inl, inr,
}
use coreguard.Canonical.{canonicalize}
use coreguard.Canonical.Normal.{normal}
use coreguard.Canonical.Injective.{canonicalize-injective}
use coreguard.X402.Quotes.{Challenge, challenge_json, sign_challenge, verify_challenge_signature}

module _ (hmac : String → List ℕ → String) where
  -- No two texts have one digest under a key, and no digest is empty.
  pub record IsDigest : Type 0 where
    pub injective : (key : String) (s t : List ℕ) → hmac key s ≡ hmac key t → s ≡ t
    pub nonempty : (key : String) (s : List ℕ) → hmac key s ≢ ""

  sign_challenge-inverse :
      (secret : String) (c : Challenge) (signature : String)
      → sign_challenge hmac secret c ≡ some signature
      → (t : List ℕ) × (canonicalize (challenge_json c) ≡ some t) × (signature ≡ hmac secret t)
  unfolding sign_challenge
  sign_challenge-inverse secret c signature e =
      elim (Option-cases (canonicalize (challenge_json c))) [
        | inl unsupported ↦ ground arith
        | inr (t, found) ↦ (t, found, ground arith)
      ]

  verified-equal :
      (secret : String) (c : Challenge) (signature expected : String)
      → signature ≢ ""
      → sign_challenge hmac secret c ≡ some expected
      → verify_challenge_signature hmac secret c (some signature) ≡ some (signature == expected)
  unfolding verify_challenge_signature
  verified-equal secret c signature expected h e = ground (arith, ==-of_ne signature "" h)

  -- If the HMAC gives no two texts one digest under a key, and never the empty text: a signature that
  -- was made of a challenge verifies with that challenge; and a challenge that verifies with it, and
  -- can be signed, is the signed one, but for the order of its keys and for what canonicalize leaves
  -- out.
  pub verify-sign :
      (secret : String) (c other : Challenge) (signature expected : String)
      → IsDigest
      → sign_challenge hmac secret c ≡ some signature
      → sign_challenge hmac secret other ≡ some expected
      → (verify_challenge_signature hmac secret c (some signature) ≡ some true)
        × (verify_challenge_signature hmac secret other (some signature) ≡ some true
            → normal (challenge_json other) ≡ normal (challenge_json c))
  verify-sign secret c other signature expected d e e' =
      let (t, found, made) = sign_challenge-inverse secret c signature e in
      let (t', found', made') = sign_challenge-inverse secret other expected e' in
      let filled : signature ≢ "" = λ empty. d.nonempty secret t (sym made ∙ empty) in
      (
        ground (arith, verified-equal secret c signature signature filled e, ==_self signature),
        λ v.
            let equal : signature ≡ expected = ground (
              arith,
              v,
              verified-equal secret other signature expected filled e',
              eq_iff signature expected,
            ) in
            let one : t ≡ t' = d.injective secret t t' (sym made ∙ equal ∙ made') in
            canonicalize-injective (challenge_json other) (challenge_json c) t (rw one found')
              found,
      )
