-- ===== src/Execution/Bound.antt =====
-- packages/execution/index.js: what a VERIFIED execution has shown.
use coreguard.Prelude.{
  List, [], ◌∷◌, Bool, true, false, Option, none, some, ◌≡◌, refl, arith, map, lower, Bool-cases,
  inl, inr, any, All,
}
use coreguard.Execution.Items.{Text, Call, returned, Item, Tx, or_else_text, is_truthy}
use coreguard.Execution.Extract.{Provider, Ref, extract_execution_evidence}
use coreguard.Execution.Bind.{
  Claim, FrozenDecision, EvidenceCheck, ExecutionStatus, EvidenceBinding, find_chain, find_tx,
  check_chain, in_lower, check_target, check_value, check_caller, check_decision, aggregate_checks,
  is_not_proven, is_not_run, failed_check, first_checks, bind_decided, bind_valued,
  bind_execution_evidence,
}
use coreguard.Execution.Verify.{
  Conformance, Verification, find_block, find_receipt, missing_required, verify_bound, wants_trace,
  verify_execution_evidence, is_some,
}
use coreguard.Execution.Checks.{
  Passes, Targets, Frozen, check_chain-Passes, check_target-Passes, check_value-Passes,
  check_caller-Passes, check_decision-Passes,
}

passed_check :
    (c : EvidenceCheck)
    → failed_check c.result ≡ false
    → is_not_proven c.result ≡ false
    → is_not_run c.result ≡ false
    → Passes c
passed_check c h k m = ground arith

passed_checks :
    (cs : List EvidenceCheck)
    → any (λ (c : EvidenceCheck). failed_check c.result) cs ≡ false
    → any (λ (c : EvidenceCheck). is_not_proven c.result) cs ≡ false
    → any (λ (c : EvidenceCheck). is_not_run c.result) cs ≡ false
    → All Passes cs
passed_checks [] h k m = tt
passed_checks (c ∷ cs) h k m = (
  passed_check c (ground arith) (ground arith) (ground arith),
  passed_checks cs (ground arith) (ground arith) (ground arith),
)

aggregate_checks-All :
    (cs : List EvidenceCheck) → aggregate_checks cs ≡ ExecutionStatus.verified → All Passes cs
unfolding aggregate_checks
aggregate_checks-All cs e = passed_checks cs (ground arith) (ground arith) (ground arith)

-- What the items have shown of the claim.
pub record Bound (sha256_hex : Text → Text) (c : Claim) (items : List Item) : Type 0 where
  pub chain : Text
  pub chain_found : find_chain items ≡ some chain
  pub chain_declared : c.intent.chain_id ≡ some chain
  pub tx : Tx
  pub tx_found : find_tx items ≡ some tx
  pub targets : Targets c.intent tx
  pub predicate : Option Text → Text → Call Bool
  pub predicate_given : c.value_predicate ≡ some predicate
  pub value_accepted : predicate tx.value (or_else_text c.intent.amount []) ≡ returned true
  pub caller_known : is_truthy (some tx.from) ≡ true
  pub caller : map lower tx.from ≡ in_lower c.intent.signer
  pub decision : FrozenDecision
  pub frozen : Frozen sha256_hex c decision

abbrev all_checks : Claim → List Item → EvidenceCheck → EvidenceCheck → List EvidenceCheck
all_checks c items v d =
    check_chain (find_chain items) c.intent.chain_id
    ∷ check_target (find_tx items) c.intent
    ∷ v
    ∷ check_caller (find_tx items) c.intent c.signer_kind
    ∷ d
    ∷ []

bind_parts :
    (sha256_hex : Text → Text) (c : Claim) (items : List Item) (b : EvidenceBinding)
    (value decision : Option EvidenceCheck)
    → check_decision sha256_hex c.frozen_decision c.decision_ref ≡ decision
    → bind_valued sha256_hex c items value ≡ some b
    → b.status ≡ ExecutionStatus.verified
    → (v : EvidenceCheck) × (d : EvidenceCheck) × (value ≡ some v)
      × (decision ≡ some d)
      × All Passes (all_checks c items v d)
unfolding bind_valued bind_decided first_checks
bind_parts sha256_hex c items b none decision ed e h = ground arith
bind_parts sha256_hex c items b (some v) none ed e h = ground (arith, ed)
bind_parts sha256_hex c items b (some v) (some d) ed e h =
    (v, d, refl, refl, aggregate_checks-All (all_checks c items v d) (ground (arith, ed)))

bind_execution_evidence-Bound :
    (sha256_hex : Text → Text) (c : Claim) (items : List Item) (b : EvidenceBinding)
    → bind_execution_evidence sha256_hex c items ≡ some b
    → b.status ≡ ExecutionStatus.verified
    → Bound sha256_hex c items
unfolding bind_execution_evidence
bind_execution_evidence-Bound sha256_hex c items b e h =
    let (v, d, ev, ed, ps) =
      bind_parts sha256_hex c items b (check_value c.value_predicate (find_tx items) c.intent)
        (check_decision sha256_hex c.frozen_decision c.decision_ref) refl e h in
    let (s, found, declared) = check_chain-Passes (find_chain items) c.intent.chain_id ps.0 in
    let (t, tx, targets) = check_target-Passes (find_tx items) c.intent ps.1.0 in
    let (f, t', given, tx', accepted) =
      check_value-Passes c.value_predicate (find_tx items) c.intent v ev ps.1.1.0 in
    let (t'', tx'', known, caller) =
      check_caller-Passes (find_tx items) c.intent c.signer_kind ps.1.1.1.0 in
    let (decision, frozen) =
      check_decision-Passes sha256_hex c c.frozen_decision d refl ed ps.1.1.1.1.0 in
    record {
      chain = s;
      chain_found = found;
      chain_declared = declared;
      tx = t;
      tx_found = tx;
      targets = targets;
      predicate = f;
      predicate_given = given;
      value_accepted = ground arith;
      caller_known = ground arith;
      caller = ground arith;
      decision = decision;
      frozen = frozen;
    }

-- No required kind is missing.
missing_required-nil :
    (items : List Item)
    → missing_required items ≡ []
    → (is_some (find_block items) ≡ true) × (is_some (find_receipt items) ≡ true)
unfolding missing_required
missing_required-nil items e = (ground arith, ground arith)

verify_bound-verified :
    (missing : List EvidenceCheck) (b : Option EvidenceBinding) (v : Verification)
    → verify_bound missing b ≡ some v
    → v.status ≡ ExecutionStatus.verified
    → (k : EvidenceBinding) × (missing ≡ []) × (b ≡ some k) × (k.status ≡ ExecutionStatus.verified)
unfolding verify_bound
verify_bound-verified missing none v e h = ground arith
verify_bound-verified [] (some k) v e h = (k, refl, refl, ground arith)
verify_bound-verified (m ∷ ms) (some k) v e h = ground arith

-- What is asked for at the level of traces has a trace.
abbrev pub HasTrace : Conformance → Option Text → Type 0
HasTrace Conformance.receipt_level t = Unit
HasTrace Conformance.trace_level t = is_some t ≡ true

traced : (l : Conformance) (t : Option Text) → wants_trace l t ≡ false → HasTrace l t
traced Conformance.receipt_level t e = tt
traced Conformance.trace_level none e = cc
traced Conformance.trace_level (some t) e = refl

-- A VERIFIED execution has been asked of a provider that gave the chain, the pinned block, the
-- transaction and the receipt, and a trace where one was asked for; the chain is the intent's; the
-- transaction goes to the intent's target with its selector, from its signer, and the policy's
-- predicate accepts its value for the intent's amount; and the reference of the decision is the
-- digest of the frozen record. The verdict is given by nothing less.
pub verify_execution_evidence-Bound :
    (sha256_hex : Text → Text) (p : Option Provider) (ref : Ref) (c : Claim) (l : Conformance)
    (v : Verification)
    → verify_execution_evidence sha256_hex p ref c l ≡ some v
    → v.status ≡ ExecutionStatus.verified
    → Bound sha256_hex c (extract_execution_evidence p ref).items
      × (is_some (find_block (extract_execution_evidence p ref).items) ≡ true)
      × (is_some (find_receipt (extract_execution_evidence p ref).items) ≡ true)
      × HasTrace l (extract_execution_evidence p ref).trace
unfolding verify_execution_evidence
verify_execution_evidence-Bound sha256_hex p ref c l v e h =
    let x = extract_execution_evidence p ref in
    elim (Bool-cases (wants_trace l x.trace)) [
      | inl untraced ↦ ground arith
      | inr fine ↦
          let (k, complete, bound, done) =
            verify_bound-verified (missing_required x.items)
              (bind_execution_evidence sha256_hex c x.items) v (rw fine at e) h in
          let (block, receipt) = missing_required-nil x.items complete in
          (
            bind_execution_evidence-Bound sha256_hex c x.items k bound done,
            block,
            receipt,
            traced l x.trace fine,
          )
    ]
