-- ===== src/Mandate/Chains.antt =====
-- What foldMandate of packages/mandate/index.js calls VERIFIED.
use coreguard.Prelude.{
  ℕ, List, [], ◌∷◌, ◌++◌, Bool, true, false, Option, none, some, same_codes, same_codes-eq,
  same_codes_self, ◌≡◌, subst, ◌⊎◌, inl, inr, arith, Bool-cases, refl, ap, ◌↔◌, length,
}
use mathlib.Core.List.{append_cancel_right, tail, append-nil}
use coreguard.Mandate.{
  Text, Moment, Mandate, Folded, is_filled, given_text, written, starts_with_text, is_before,
  is_after, or_epoch, chained_at, is_in_force, delegate_valid, has_layers, seam, bind, signed_among,
  is_signed, is_in_scope, is_empty_list, fold_chain, fold_mandate,
}

abbrev pub is_verified : Folded → Bool
is_verified (Folded.verified p a e) = true
is_verified _ = false

-- A text of the list.
abbrev pub IsIn : Text → List Text → Type 0
IsIn t [] = ⊥
IsIn t (s ∷ ss) = (s ≡ t) ⊎ IsIn t ss

-- What foldMandate asks of a mandate, in the words of its numbered paragraphs.
pub record Grants (m : Mandate) : Type 0 where
  pub layers : has_layers m ≡ true
  pub policy : is_filled m.policy_ref ≡ true
  pub scope : is_filled m.scope ≡ true
  pub in_scope :
      (is_filled m.execution_scope ≡ false)
      ⊎ ((rest : Text) × (given_text m.execution_scope ≡ given_text m.scope ++ rest))
  pub not_early : is_before (chained_at m.course m.now) (or_epoch m.not_before) ≡ false
  pub not_late : is_after (chained_at m.course m.now) m.not_after ≡ false
  pub signed : (by : Text) × (m.signed_by ≡ some by) × IsIn by m.signers
  pub delegated : (m.has_delegate ≡ true) × (is_filled m.delegate_to ≡ true)
  pub granted : given_text m.intent_ref ≡ written m.grant_for
  pub chained :
      given_text m.authorization_ref ++ given_text m.execution_ref
      ≡ given_text m.execution_ref ++ given_text m.attestation_ref

starts_with_text-prefix :
    (s p : Text) → starts_with_text s p ≡ true → (rest : Text) × (s ≡ p ++ rest)
unfolding starts_with_text
starts_with_text-prefix s [] h = (s, refl)
starts_with_text-prefix [] (c ∷ p) h = ground arith
starts_with_text-prefix (d ∷ s) (c ∷ p) h =
    let (rest, e) = starts_with_text-prefix s p (ground arith) in (rest, ground (arith, e))

starts_with_text-append : (p rest : Text) → starts_with_text (p ++ rest) p ≡ true
unfolding starts_with_text
starts_with_text-append [] [] = refl
starts_with_text-append [] (c ∷ rest) = refl
starts_with_text-append (c ∷ p) rest = ground (arith, starts_with_text-append p rest)

IsIn-nonempty : (t : Text) (ss : List Text) → IsIn t ss → is_empty_list ss ≡ false
IsIn-nonempty t [] p = absurd p
IsIn-nonempty t (s ∷ ss) p = refl

append-parts : (a b c d : Text) → a ++ b ≡ c ++ d → length a ≡ length c → (a ≡ c) × (b ≡ d)
append-parts [] b [] d e h = (refl, e)
append-parts [] b (y ∷ c) d e h = absurd (omega (arith, h))
append-parts (x ∷ a) b [] d e h = absurd (omega (arith, h))
append-parts (x ∷ a) b (y ∷ c) d e h =
    let (p, q) = append-parts a b c d (ap tail e) (omega (arith, h)) in (ground (arith, p), q)

given_text-eq :
    (a b : Option Text)
    → is_filled a ≡ true
    → is_filled b ≡ true
    → given_text a ≡ given_text b
    → a ≡ b
given_text-eq none b h h' e = ground arith
given_text-eq (some a) none h h' e = ground arith
given_text-eq (some a) (some b) h h' e = ap some e

-- Of a VERIFIED mandate, let the end of the chain be what is no number, and the window any other: it is
-- VERIFIED still.
pub fold_mandate-clockless :
    (sha256_hex : Text → Text) (m : Mandate) (course : List Moment)
    (not_before not_after : Option ℕ)
    → is_verified (fold_mandate sha256_hex (some m)) ≡ true
    → chained_at course m.now ≡ Moment.incomparable
    → is_verified (
        fold_mandate sha256_hex
          (some (record m { course = course; not_before = not_before; not_after = not_after })))
      ≡ true
unfolding fold_mandate is_in_force has_layers delegate_valid fold_chain
fold_mandate-clockless sha256_hex m course not_before not_after h e = ground (arith, h, e)

module _ (sha256_hex : Text → Text)
    (injective : (s t : Text) → sha256_hex s ≡ sha256_hex t → s ≡ t) where
  same_seams_iff :
      (a b : Text) → (same_codes (seam sha256_hex a) (seam sha256_hex b) ≡ true) ↔ (a ≡ b)
  same_seams_iff a b = (
    λ h. injective a b (same_codes-eq (sha256_hex a) (sha256_hex b) h),
    λ e. rw e (same_codes_self (sha256_hex b)),
  )

  signed_among_iff :
      (by : Text) (ss : List Text) → (signed_among sha256_hex by ss ≡ true) ↔ IsIn by ss
  unfolding signed_among
  signed_among_iff by [] = (λ h. ground arith, λ p. absurd p)
  signed_among_iff by (s ∷ ss) = (
    λ h. elim (Bool-cases (same_codes (seam sha256_hex s) (seam sha256_hex by))) [
      | inl same ↦ inl ((same_seams_iff s by).0 same)
      | inr other ↦ inr ((signed_among_iff by ss).0 (ground arith))
    ],
    λ p. elim p [
      | inl e ↦ ground (arith, (same_seams_iff s by).1 e)
      | inr q ↦ ground (arith, (signed_among_iff by ss).1 q)
    ],
  )

  is_in_scope_iff :
      (es : Option Text) (scope : Text)
      → (is_in_scope sha256_hex es scope ≡ true)
        ↔ ((is_filled es ≡ false) ⊎ ((rest : Text) × (given_text es ≡ scope ++ rest)))
  unfolding is_in_scope
  is_in_scope_iff none scope = (λ h. inl refl, λ p. refl)
  is_in_scope_iff (some []) scope = (λ h. inl refl, λ p. refl)
  is_in_scope_iff (some (c ∷ es)) scope = (
    λ h. elim (Bool-cases (same_codes (seam sha256_hex (c ∷ es)) (seam sha256_hex scope))) [
      | inl same ↦
          inr ([], ground (arith, (same_seams_iff (c ∷ es) scope).0 same, append-nil scope))
      | inr other ↦ inr (starts_with_text-prefix (c ∷ es) scope (ground arith))
    ],
    λ p. elim p [
      | inl e ↦ ground arith
      | inr (rest, e) ↦ ground (arith, e, starts_with_text-append scope rest)
    ],
  )

  bind_iff :
      (a b c d : Text)
      → (same_codes (bind sha256_hex a b) (bind sha256_hex c d) ≡ true) ↔ (a ++ b ≡ c ++ d)
  bind_iff a b c d = (
    λ h. ap tail (injective _ _ (same_codes-eq (bind sha256_hex a b) (bind sha256_hex c d) h)),
    λ e. rw e (same_codes_self (bind sha256_hex c d)),
  )

  is_signed_iff :
      (by : Option Text) (ss : List Text)
      → (is_signed sha256_hex by ss ≡ true) ↔ ((b : Text) × (by ≡ some b) × IsIn b ss)
  is_signed_iff none ss = (λ h. ground arith, λ (b, e, p). ground arith)
  is_signed_iff (some by) ss = (
    λ h. (by, refl, (signed_among_iff by ss).0 h),
    λ (b, e, p).
        let same : b ≡ by = ground arith in
        (signed_among_iff by ss).1 (subst (λ t. IsIn t ss) same p),
  )

  fold_chain_iff :
      (m : Mandate)
      → (is_verified (fold_chain sha256_hex m) ≡ true) ↔ (
          (given_text m.intent_ref ≡ written m.grant_for)
          × (given_text m.authorization_ref ++ given_text m.execution_ref
              ≡ given_text m.execution_ref ++ given_text m.attestation_ref))
  unfolding fold_chain
  fold_chain_iff m =
      let intent =
        bind_iff (given_text m.intent_ref) (given_text m.authorization_ref) (written m.grant_for)
          (given_text m.authorization_ref) in
      let chain =
        bind_iff (given_text m.authorization_ref) (given_text m.execution_ref)
          (given_text m.execution_ref) (given_text m.attestation_ref) in
      (
        λ h. (
          append_cancel_right _ _ (given_text m.authorization_ref) (intent.0 (ground arith)),
          chain.0 (ground arith),
        ),
        λ (e, e').
            ground (arith, intent.1 (ap (λ t. t ++ given_text m.authorization_ref) e), chain.1 e'),
      )

  -- Where the digest has no collision, a mandate is VERIFIED exactly when its four layers, its policy
  -- and its scope are filled; the execution's scope is missing or begins with the mandate's; the end
  -- of the chain is neither before nor after the window; the one who signed is among the signers; a
  -- delegate is granted and named; the intent's reference is the one that the grant is for; and the
  -- authorization's reference followed by the execution's spells the execution's followed by the
  -- attestation's.
  pub fold_mandate_iff :
      (m : Mandate) → (is_verified (fold_mandate sha256_hex (some m)) ≡ true) ↔ Grants m
  unfolding fold_mandate is_in_force delegate_valid
  fold_mandate_iff m =
      let scope = is_in_scope_iff m.execution_scope (given_text m.scope) in
      let signed = is_signed_iff m.signed_by m.signers in
      let chain = fold_chain_iff m in
      (
        λ h. record {
          layers = ground arith;
          policy = ground arith;
          scope = ground arith;
          in_scope = scope.0 (ground arith);
          not_early = ground arith;
          not_late = ground arith;
          signed = signed.0 (ground arith);
          delegated = ground arith;
          granted = (chain.0 (ground arith)).0;
          chained = (chain.0 (ground arith)).1;
        },
        λ g.
            let (by, e, p) = g.signed in
            ground (
              arith,
              g.layers,
              g.policy,
              g.scope,
              scope.1 g.in_scope,
              g.not_early,
              g.not_late,
              IsIn-nonempty by m.signers p,
              signed.1 g.signed,
              g.delegated,
              chain.1 (g.granted, g.chained),
            ),
      )

  filled_refs :
      (m : Mandate)
      → has_layers m ≡ true
      → (is_filled m.authorization_ref ≡ true)
        × (is_filled m.execution_ref ≡ true)
        × (is_filled m.attestation_ref ≡ true)
  unfolding has_layers
  filled_refs m h = (ground arith, ground arith, ground arith)

  -- Where the digest has no collision, the references of the authorization, the execution and the
  -- attestation of a VERIFIED mandate are one and the same, if the first two have the same length.
  pub verified-same_refs :
      (m : Mandate)
      → is_verified (fold_mandate sha256_hex (some m)) ≡ true
      → length (given_text m.authorization_ref) ≡ length (given_text m.execution_ref)
      → (m.authorization_ref ≡ m.execution_ref) × (m.execution_ref ≡ m.attestation_ref)
  verified-same_refs m h e =
      let g = (fold_mandate_iff m).0 h in
      let (p, q, r) = filled_refs m g.layers in
      let (a, b) = append-parts _ _ _ _ g.chained e in
      (
        given_text-eq m.authorization_ref m.execution_ref p q a,
        given_text-eq m.execution_ref m.attestation_ref q r b,
      )
