-- ===== src/Execution/Checks.antt =====
-- packages/execution/index.js: what each check has shown where it passes.
use coreguard.Prelude.{
  same_codes-eq, [], Bool, true, false, Option, none, some, ◌≡◌, refl, arith, map, lower,
  Bool-cases, Option-cases, inl, inr,
}
use coreguard.Canonical.{domain_hash}
use coreguard.Execution.Items.{Text, Call, returned, Tx, or_else_text, is_truthy, function_selector}
use coreguard.Execution.Bind.{
  BoundIntent, Claim, FrozenDecision, SignerKind, EvidenceCheck, ExecutionResult, check_chain,
  in_lower, target_result, selector_result, both_results, check_target, check_value, check_caller,
  check_decision, check_ref, or_recorded, decision_domain, is_not_proven, is_not_run,
}

abbrev pub Passes : EvidenceCheck → Type 0
Passes c = c.result ≡ ExecutionResult.pass

pub check_chain-Passes :
    (found declared : Option Text)
    → Passes (check_chain found declared)
    → (s : Text) × (found ≡ some s) × (declared ≡ some s)
unfolding check_chain
check_chain-Passes none declared h = ground arith
check_chain-Passes (some s) none h = ground arith
check_chain-Passes (some s) (some d) h = (s, refl, ground (arith, same_codes-eq s d))

-- The transaction goes to the intent's target, with the intent's selector.
pub record Targets (i : BoundIntent) (t : Tx) : Type 0 where
  pub has_target : is_truthy (some t.to) ≡ true
  pub target : map lower t.to ≡ in_lower i.target
  pub has_selector : is_truthy i.selector ≡ true
  pub selector : function_selector t.input ≡ some (in_lower i.selector)

target_result-Passes :
    (t : Tx) (i : BoundIntent)
    → Passes (target_result t i)
    → (is_truthy (some t.to) ≡ true) × (map lower t.to ≡ in_lower i.target)
unfolding target_result
target_result-Passes t i h =
    (ground arith, ground (arith, same_codes-eq (map lower t.to) (in_lower i.target)))

selector_result-Passes :
    (t : Tx) (i : BoundIntent)
    → Passes (selector_result t i)
    → (is_truthy i.selector ≡ true) × (function_selector t.input ≡ some (in_lower i.selector))
unfolding selector_result
selector_result-Passes t i h = elim (Option-cases (function_selector t.input)) [
  | inl absent ↦ ground arith
  | inr (sel, found) ↦ (ground arith, ground (arith, same_codes-eq sel (in_lower i.selector)))
]

target_result-settled :
    (t : Tx) (i : BoundIntent)
    → is_not_proven (target_result t i).result ≡ false
    → is_not_run (target_result t i).result ≡ false
    → Passes (target_result t i)
unfolding target_result
target_result-settled t i h k = ground arith

selector_result-settled :
    (t : Tx) (i : BoundIntent)
    → is_not_proven (selector_result t i).result ≡ false
    → is_not_run (selector_result t i).result ≡ false
    → Passes (selector_result t i)
unfolding selector_result
selector_result-settled t i h k = ground arith

-- A pair that passes has neither result unproven or not run.
both_results-settled :
    (a b : EvidenceCheck)
    → Passes (both_results a b)
    → (is_not_proven a.result ≡ false)
      × (is_not_proven b.result ≡ false)
      × (is_not_run a.result ≡ false)
      × (is_not_run b.result ≡ false)
unfolding both_results
both_results-settled a b h = ground arith

pub check_target-Passes :
    (tx : Option Tx) (i : BoundIntent)
    → Passes (check_target tx i)
    → (t : Tx) × (tx ≡ some t) × Targets i t
unfolding check_target
check_target-Passes none i h = ground arith
check_target-Passes (some t) i h =
    let (ap, bp, ar, br) = both_results-settled (target_result t i) (selector_result t i) h in
    let (has, to) = target_result-Passes t i (target_result-settled t i ap ar) in
    let (has', sel) = selector_result-Passes t i (selector_result-settled t i bp br) in
    (t, refl, record { has_target = has; target = to; has_selector = has'; selector = sel })

pub check_value-Passes :
    (predicate : Option (Option Text → Text → Call Bool)) (tx : Option Tx) (i : BoundIntent)
    (c : EvidenceCheck)
    → check_value predicate tx i ≡ some c
    → Passes c
    → (f : Option Text → Text → Call Bool) × (t : Tx) × (predicate ≡ some f)
      × (tx ≡ some t)
      × (f t.value (or_else_text i.amount []) ≡ returned true)
unfolding check_value
check_value-Passes none tx i c e h = ground arith
check_value-Passes (some f) none i c e h = ground arith
check_value-Passes (some f) (some t) i c e h = (f, t, refl, refl, ground arith)

pub check_caller-Passes :
    (tx : Option Tx) (i : BoundIntent) (kind : SignerKind)
    → Passes (check_caller tx i kind)
    → (t : Tx) × (tx ≡ some t)
      × (is_truthy (some t.from) ≡ true)
      × (map lower t.from ≡ in_lower i.signer)
unfolding check_caller
check_caller-Passes none i kind h = ground arith
check_caller-Passes (some t) i kind h =
    (t, refl, ground arith, ground (arith, same_codes-eq (map lower t.from) (in_lower i.signer)))

-- The digest of the frozen record is the reference, but for letter case.
pub record Frozen (sha256_hex : Text → Text) (c : Claim) (d : FrozenDecision) : Type 0 where
  pub found : c.frozen_decision ≡ some d
  pub digest : Text
  pub computed : domain_hash sha256_hex decision_domain d.body ≡ some digest
  pub has_ref : is_truthy (or_recorded c.decision_ref d) ≡ true
  pub agrees : map lower digest ≡ map lower (or_else_text (or_recorded c.decision_ref d) [])

check_ref-Passes :
    (target : Text) (recomputed : Option Text) (k : EvidenceCheck)
    → check_ref target recomputed ≡ some k
    → Passes k
    → (r : Text) × (recomputed ≡ some r) × (map lower r ≡ map lower target)
unfolding check_ref
check_ref-Passes target none k e h = ground arith
check_ref-Passes target (some r) k e h =
    (r, refl, ground (arith, same_codes-eq (map lower r) (map lower target)))

pub check_decision-Passes :
    (sha256_hex : Text → Text) (c : Claim) (o : Option FrozenDecision) (k : EvidenceCheck)
    → c.frozen_decision ≡ o
    → check_decision sha256_hex o c.decision_ref ≡ some k
    → Passes k
    → (d : FrozenDecision) × Frozen sha256_hex c d
unfolding check_decision
check_decision-Passes sha256_hex c none k eo e h = ground arith
check_decision-Passes sha256_hex c (some d) k eo e h =
    elim (Bool-cases (is_truthy (or_recorded c.decision_ref d))) [
      | inl has ↦
          let (r, er, ea) =
            check_ref-Passes (or_else_text (or_recorded c.decision_ref d) [])
              (domain_hash sha256_hex decision_domain d.body) k (ground arith) h in
          (d, record { found = eo; digest = r; computed = er; has_ref = has; agrees = ea })
      | inr lacks ↦ ground arith
    ]
