-- ===== src/Execution/Bind.antt =====
-- bindExecutionEvidence and aggregateChecks of packages/execution/index.js. The reasons of the checks
-- are left out.
use coreguard.Prelude.{
  List, [], ◌∷◌, ◌++◌, Bool, true, false, not, Option, none, some, if◌then◌else◌, map, lower,
  same_codes, codes, any,
}
use coreguard.Canonical.{Json, domain_hash}
use coreguard.Execution.Items.{
  Text, Call, failed, returned, Tx, Item, or_else_text, is_truthy, function_selector,
}

-- The fields of an intent that are read.
pub record BoundIntent : Type 0 where
  pub chain_id : Option Text
  pub target : Option Text
  pub selector : Option Text
  pub amount : Option Text
  pub signer : Option Text

-- A frozen decision record: its reference, and the rest of it.
pub record FrozenDecision : Type 0 where
  pub decision_ref : Option Text
  pub body : Json

pub data SignerKind : Type 0 where
  eoa contract : SignerKind

-- CHECK_RESULTS
pub data ExecutionResult : Type 0 where
  pass fail not_run not_proven : ExecutionResult

pub data CheckName : Type 0 where
  exec_1 exec_2 exec_3 exec_4 exec_5 simulation : CheckName
  extraction_chain_id extraction_block extraction_transaction extraction_receipt extraction_trace :
      CheckName

pub data CheckLabel : Type 0 where
  chain_id_unavailable chain_mismatch chain_pin : CheckLabel
  tx_unavailable target_unavailable target_mismatch target_pin selector_unavailable
        selector_undeclared selector_mismatch selector_pin target_selector_pin :
      CheckLabel
  value_mapping_undefined value_pin value_mismatch value_predicate_error : CheckLabel
  attribution_unavailable contract_executed recovered_caller caller_not_bound : CheckLabel
  decision_record_missing decision_ref_missing decision_ref_mismatch decision_ref_pin : CheckLabel
  simulation_not_performed trace_unavailable missing required_evidence_missing
        execution_evidence_bound :
      CheckLabel

pub record EvidenceCheck : Type 0 where
  pub check : CheckName
  pub result : ExecutionResult
  pub label : CheckLabel

abbrev pub checked : CheckName → ExecutionResult → CheckLabel → EvidenceCheck
checked n r l = record { check = n; result = r; label = l }

unfoldable pub find_chain : List Item → Option Text
find_chain [] = none
find_chain (Item.chain_id s ∷ is) = some s
find_chain (_ ∷ is) = find_chain is

unfoldable pub find_tx : List Item → Option Tx
find_tx [] = none
find_tx (Item.transaction t ∷ is) = some t
find_tx (_ ∷ is) = find_tx is

-- B-EXEC-1. An intent without a chain has the text of `undefined` in its scope, and an empty one here.
unfoldable pub check_chain : Option Text → Option Text → EvidenceCheck
check_chain none declared =
    checked CheckName.exec_1 ExecutionResult.not_run CheckLabel.chain_id_unavailable
check_chain (some s) none =
    checked CheckName.exec_1 ExecutionResult.not_proven CheckLabel.chain_mismatch
check_chain (some s) (some declared) =
    if same_codes s declared
    then checked CheckName.exec_1 ExecutionResult.pass CheckLabel.chain_pin
    else checked CheckName.exec_1 ExecutionResult.not_proven CheckLabel.chain_mismatch

abbrev pub in_lower : Option Text → Text
in_lower s = map lower (or_else_text s [])

unfoldable pub target_result : Tx → BoundIntent → EvidenceCheck
target_result t i =
    if not (is_truthy (some t.to))
    then checked CheckName.exec_2 ExecutionResult.not_run CheckLabel.target_unavailable
    else if not (same_codes (map lower t.to) (in_lower i.target))
    then checked CheckName.exec_2 ExecutionResult.not_proven CheckLabel.target_mismatch
    else checked CheckName.exec_2 ExecutionResult.pass CheckLabel.target_pin

unfoldable pub selector_result : Tx → BoundIntent → EvidenceCheck
selector_result t i = elim (function_selector t.input) [
  | none ↦ checked CheckName.exec_2 ExecutionResult.not_run CheckLabel.selector_unavailable
  | some sel ↦
      if not (is_truthy i.selector)
      then checked CheckName.exec_2 ExecutionResult.not_run CheckLabel.selector_undeclared
      else if not (same_codes sel (in_lower i.selector))
      then checked CheckName.exec_2 ExecutionResult.not_proven CheckLabel.selector_mismatch
      else checked CheckName.exec_2 ExecutionResult.pass CheckLabel.selector_pin
]

abbrev pub is_not_proven : ExecutionResult → Bool
is_not_proven ExecutionResult.not_proven = true
is_not_proven _ = false

abbrev pub is_not_run : ExecutionResult → Bool
is_not_run ExecutionResult.not_run = true
is_not_run _ = false

abbrev pub failed_check : ExecutionResult → Bool
failed_check ExecutionResult.fail = true
failed_check _ = false

-- The worse of the two results, the target's first.
unfoldable pub both_results : EvidenceCheck → EvidenceCheck → EvidenceCheck
both_results a b =
    if is_not_proven a.result
    then a
    else if is_not_proven b.result
    then b
    else if is_not_run a.result
    then a
    else if is_not_run b.result
    then b
    else checked CheckName.exec_2 ExecutionResult.pass CheckLabel.target_selector_pin

-- B-EXEC-2
unfoldable pub check_target : Option Tx → BoundIntent → EvidenceCheck
check_target none i = checked CheckName.exec_2 ExecutionResult.not_run CheckLabel.tx_unavailable
check_target (some t) i = both_results (target_result t i) (selector_result t i)

-- B-EXEC-3: none where the predicate throws.
unfoldable pub check_value :
    Option (Option Text → Text → Call Bool) → Option Tx → BoundIntent → Option EvidenceCheck
check_value none tx i =
    some (checked CheckName.exec_3 ExecutionResult.not_run CheckLabel.value_mapping_undefined)
check_value (some f) none i =
    some (checked CheckName.exec_3 ExecutionResult.not_run CheckLabel.tx_unavailable)
check_value (some f) (some t) i = elim (f t.value (or_else_text i.amount [])) [
  | failed ↦ none
  | returned accepted ↦ some (
      if accepted
      then checked CheckName.exec_3 ExecutionResult.pass CheckLabel.value_pin
      else checked CheckName.exec_3 ExecutionResult.not_proven CheckLabel.value_mismatch)
]

abbrev pub executor_label : SignerKind → CheckLabel
executor_label SignerKind.contract = CheckLabel.contract_executed
executor_label SignerKind.eoa = CheckLabel.recovered_caller

-- B-EXEC-4
unfoldable pub check_caller : Option Tx → BoundIntent → SignerKind → EvidenceCheck
check_caller none i kind =
    checked CheckName.exec_4 ExecutionResult.not_run CheckLabel.tx_unavailable
check_caller (some t) i kind =
    if not (is_truthy (some t.from))
    then checked CheckName.exec_4 ExecutionResult.not_run CheckLabel.attribution_unavailable
    else if same_codes (map lower t.from) (in_lower i.signer)
    then checked CheckName.exec_4 ExecutionResult.pass (executor_label kind)
    else checked CheckName.exec_4 ExecutionResult.not_proven CheckLabel.caller_not_bound

abbrev pub decision_domain : Text
decision_domain = codes "CGEP/1:FW-DECISION"

-- `decisionRef ?? frozenDecision.decisionRef`
abbrev pub or_recorded : Option Text → FrozenDecision → Option Text
or_recorded none d = d.decision_ref
or_recorded (some r) d = some r

unfoldable pub check_ref : Text → Option Text → Option EvidenceCheck
check_ref target none = none
check_ref target (some recomputed) = some (
    if same_codes (map lower recomputed) (map lower target)
    then checked CheckName.exec_5 ExecutionResult.pass CheckLabel.decision_ref_pin
    else checked CheckName.exec_5 ExecutionResult.fail CheckLabel.decision_ref_mismatch)

-- B-EXEC-5: none where canonicalize throws on the record.
unfoldable pub check_decision :
    (Text → Text) → Option FrozenDecision → Option Text → Option EvidenceCheck
check_decision sha256_hex none ref =
    some (checked CheckName.exec_5 ExecutionResult.not_run CheckLabel.decision_record_missing)
check_decision sha256_hex (some d) ref =
    if is_truthy (or_recorded ref d)
    then check_ref (or_else_text (or_recorded ref d) [])
        (domain_hash sha256_hex decision_domain d.body)
    else some (checked CheckName.exec_5 ExecutionResult.not_run CheckLabel.decision_ref_missing)

-- STATUS
pub data ExecutionStatus : Type 0 where
  verified invalid inconclusive unverified not_proven not_run trace_unavailable : ExecutionStatus

unfoldable pub aggregate_checks : List EvidenceCheck → ExecutionStatus
aggregate_checks cs =
    if any (λ (c : EvidenceCheck). failed_check c.result) cs
    then ExecutionStatus.invalid
    else if any (λ (c : EvidenceCheck). is_not_proven c.result) cs
    then ExecutionStatus.not_proven
    else if any (λ (c : EvidenceCheck). is_not_run c.result) cs
    then ExecutionStatus.not_run
    else ExecutionStatus.verified

pub record EvidenceBinding : Type 0 where
  pub checks : List EvidenceCheck
  pub status : ExecutionStatus

-- What is asked of an execution beside the evidence.
pub record Claim : Type 0 where
  pub intent : BoundIntent
  pub signer_kind : SignerKind
  pub frozen_decision : Option FrozenDecision
  pub decision_ref : Option Text
  pub value_predicate : Option (Option Text → Text → Call Bool)

unfoldable pub first_checks : Claim → List Item → List EvidenceCheck
first_checks c items =
    check_chain (find_chain items) c.intent.chain_id ∷ check_target (find_tx items) c.intent ∷ []

unfoldable pub bind_decided :
    List EvidenceCheck
    → EvidenceCheck
    → EvidenceCheck
    → Option EvidenceCheck
    → Option EvidenceBinding
bind_decided before value caller none = none
bind_decided before value caller (some decision) =
    let checks = before ++ (value ∷ caller ∷ decision ∷ []) in
    some (record { checks = checks; status = aggregate_checks checks })

unfoldable pub bind_valued :
    (Text → Text) → Claim → List Item → Option EvidenceCheck → Option EvidenceBinding
bind_valued sha256_hex c items none =
    some (record { checks = first_checks c items; status = ExecutionStatus.not_run })
bind_valued sha256_hex c items (some value) =
    bind_decided (first_checks c items) value (check_caller (find_tx items) c.intent c.signer_kind)
      (check_decision sha256_hex c.frozen_decision c.decision_ref)

-- bindExecutionEvidence: none where it throws.
unfoldable pub bind_execution_evidence : (Text → Text) → Claim → List Item → Option EvidenceBinding
bind_execution_evidence sha256_hex c items =
    bind_valued sha256_hex c items (check_value c.value_predicate (find_tx items) c.intent)
