-- ===== src/Mandate/Tests.antt =====
-- The theorems about packages/mandate/index.js at concrete mandates.
use coreguard.Prelude.{[], ◌∷◌, true, some, none, ◌≡◌, refl, ◌↔◌, codes, same_codes}
use coreguard.Mandate.{
  Text, Moment, Mandate, FoldReason, Folded, fold_mandate, fold_chain, has_layers, is_in_force,
  is_in_scope, signed_among, delegate_valid, starts_with_text,
}
use coreguard.Mandate.Chains.{
  Grants, is_verified, fold_mandate_iff, verified-same_refs, fold_mandate-clockless,
}

-- A digest for the tests: the text itself.
abbrev digest : Text → Text
digest s = s

-- A mandate whose three later references are the same.
abbrev payment : Mandate
payment = record {
  intent_ref = some (codes "i1");
  authorization_ref = some (codes "aa");
  execution_ref = some (codes "aa");
  attestation_ref = some (codes "aa");
  policy_ref = some (codes "p");
  scope = some (codes "pay");
  execution_scope = some (codes "pay/1");
  not_before = some 10;
  not_after = some 20;
  course = Moment.at 12 ∷ Moment.at 15 ∷ [];
  now = none;
  signers = codes "bob" ∷ codes "eve" ∷ [];
  signed_by = some (codes "eve");
  has_delegate = true;
  delegate_to = some (codes "dan");
  grant_for = some (codes "i1");
}

-- Each layer has its own reference.
abbrev distinct : Mandate
distinct = record payment { execution_ref = some (codes "ee"); attestation_ref = some (codes "tt") }

all_open : Unit {0}
unfolding fold_mandate fold_chain has_layers is_in_force is_in_scope signed_among delegate_valid
    starts_with_text codes same_codes
all_open = tt

payment_verified : is_verified (fold_mandate digest (some payment)) ≡ true
unfolding all_open
payment_verified = refl

distinct_invalid :
    fold_mandate digest (some distinct) ≡ Folded.invalid FoldReason.execution_mismatch
unfolding all_open
distinct_invalid = refl

fold_mandate_iff_example :
    (is_verified (fold_mandate digest (some payment)) ≡ true) ↔ Grants payment
fold_mandate_iff_example = fold_mandate_iff digest (λ s t e. e) payment

verified-same_refs_example :
    (some (codes "aa") ≡ some (codes "aa")) × (some (codes "aa") ≡ some (codes "aa"))
verified-same_refs_example = verified-same_refs digest (λ s t e. e) payment payment_verified refl

fold_mandate-clockless_example :
    is_verified (
      fold_mandate digest (
        some (record payment {
          course = Moment.at 12 ∷ Moment.incomparable ∷ [];
          not_before = some 90;
          not_after = some 1;
        })))
    ≡ true
fold_mandate-clockless_example =
    fold_mandate-clockless digest payment (Moment.at 12 ∷ Moment.incomparable ∷ []) (some 90)
      (some 1) payment_verified refl
