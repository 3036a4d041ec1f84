-- ===== src/Firewall/Conformity.antt =====
-- When packages/firewall/conformance.js calls an execution CONFORM.
use coreguard.Prelude.{
  String, true, false, Option, none, some, List, [], same_text, ◌≡◌, ◌↔◌, ◌⊎◌, arith, refl,
  Bool-cases, inl, inr,
}
use coreguard.Firewall.{
  Decision, Field, DeclaredScope, Observed, Mismatch, ConformanceState, is_deny, string_of,
  string_or_empty, is_truthy_field, contradiction_scan, chain_differs, field_differs,
  amount_differs, compare_observed, annotate_conformance,
}

-- A field that was observed agrees with the declared one, as texts that `as_text` reads of both.
abbrev pub ConformsOn : (Field → String) → Field → Field → Type 0
ConformsOn as_text found declared =
    (found ≡ Field.undefined)
    ⊎ ((declared ≡ Field.null) ⊎ (same_text (as_text found) (as_text declared) ≡ true))

abbrev pub ConformsOnChain : Option Field → Field → Type 0
ConformsOnChain none declared = Unit
ConformsOnChain (some found) declared =
    (is_truthy_field declared ≡ false)
    ⊎ (same_text (string_of found) (string_or_empty declared) ≡ true)

-- All that was observed agrees with the scope, letter case aside.
pub record Conforms (scope : DeclaredScope) (o : Observed) : Type 0 where
  pub chain_id : ConformsOnChain o.ref_chain_id scope.chain_id
  pub recipient : ConformsOn string_or_empty o.recipient scope.recipient
  pub amount : ConformsOn string_of o.amount scope.amount
  pub target : ConformsOn string_or_empty o.target scope.target
  pub selector : ConformsOn string_or_empty o.selector scope.selector

field_differs_iff :
    (found declared : Field)
    → (field_differs found declared ≡ false) ↔ ConformsOn string_or_empty found declared
unfolding field_differs
field_differs_iff Field.undefined declared = (λ h. inl refl, λ h. refl)
field_differs_iff Field.null Field.null = (λ h. inr (inl refl), λ h. refl)
field_differs_iff (Field.text s) Field.null = (λ h. inr (inl refl), λ h. refl)
field_differs_iff Field.null Field.undefined = (λ h. inr (inr (ground arith)), λ h. ground arith)
field_differs_iff Field.null (Field.text t) = (λ h. inr (inr (ground arith)), λ h. ground arith)
field_differs_iff (Field.text s) Field.undefined =
    (λ h. inr (inr (ground arith)), λ h. ground arith)
field_differs_iff (Field.text s) (Field.text t) = (λ h. inr (inr (ground arith)), λ h. ground arith)

amount_differs_iff :
    (found declared : Field)
    → (amount_differs found declared ≡ false) ↔ ConformsOn string_of found declared
unfolding amount_differs
amount_differs_iff Field.undefined declared = (λ h. inl refl, λ h. refl)
amount_differs_iff Field.null Field.null = (λ h. inr (inl refl), λ h. refl)
amount_differs_iff (Field.text s) Field.null = (λ h. inr (inl refl), λ h. refl)
amount_differs_iff Field.null Field.undefined = (λ h. inr (inr (ground arith)), λ h. ground arith)
amount_differs_iff Field.null (Field.text t) = (λ h. inr (inr (ground arith)), λ h. ground arith)
amount_differs_iff (Field.text s) Field.undefined =
    (λ h. inr (inr (ground arith)), λ h. ground arith)
amount_differs_iff (Field.text s) (Field.text t) =
    (λ h. inr (inr (ground arith)), λ h. ground arith)

chain_differs_iff :
    (found : Option Field) (declared : Field)
    → (chain_differs found declared ≡ false) ↔ ConformsOnChain found declared
unfolding chain_differs
chain_differs_iff none declared = (λ h. tt, λ h. refl)
chain_differs_iff (some found) declared = (
  λ h. elim (Bool-cases (is_truthy_field declared)) [
    | inl there ↦ inr (ground arith)
    | inr missing ↦ inl missing
  ],
  λ h. ground arith,
)

-- On a frozen record, the annotation is CONFORM exactly when the decision is not DENY, the chain of the
-- execution, if it is given and one is declared, is the declared one, and each other field that is
-- observed is the declared one or is declared to be null, letter case aside; and it is CONFORM exactly
-- when it lists no mismatch.
pub annotate_conformance_iff :
    (d : Decision) (scope : DeclaredScope) (o : Observed) (a : ConformanceState)
    (ms : List Mismatch)
    → annotate_conformance true d scope o ≡ some (a, ms)
    → ((a ≡ ConformanceState.conform) ↔ ((is_deny d ≡ false) × Conforms scope o))
      × ((a ≡ ConformanceState.conform) ↔ (ms ≡ []))
unfolding annotate_conformance compare_observed contradiction_scan
annotate_conformance_iff d scope o a ms h = (
  (
    λ e. (
      ground arith,
      record {
        chain_id = (chain_differs_iff o.ref_chain_id scope.chain_id).0 (ground arith);
        recipient = (field_differs_iff o.recipient scope.recipient).0 (ground arith);
        amount = (amount_differs_iff o.amount scope.amount).0 (ground arith);
        target = (field_differs_iff o.target scope.target).0 (ground arith);
        selector = (field_differs_iff o.selector scope.selector).0 (ground arith);
      },
    ),
    λ (p, g). ground (
      arith,
      p,
      (chain_differs_iff o.ref_chain_id scope.chain_id).1 g.chain_id,
      (field_differs_iff o.recipient scope.recipient).1 g.recipient,
      (amount_differs_iff o.amount scope.amount).1 g.amount,
      (field_differs_iff o.target scope.target).1 g.target,
      (field_differs_iff o.selector scope.selector).1 g.selector,
    ),
  ),
  (λ e. ground arith, λ e. ground arith),
)
