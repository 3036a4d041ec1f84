-- ===== src/Execution/Verify.antt =====
-- verifyExecutionEvidence of packages/execution/index.js: the verdict. The digests of its answer are
-- left out, and so is the reason.
use coreguard.Prelude.{List, [], ◌∷◌, ◌++◌, Bool, true, false, Option, none, some, if◌then◌else◌}
use coreguard.Execution.Items.{Text, Item, BlockPin, ReceiptValue}
use coreguard.Execution.Extract.{Provider, Ref, extract_execution_evidence}
use coreguard.Execution.Bind.{
  Claim, EvidenceCheck, CheckName, ExecutionResult, CheckLabel, ExecutionStatus, EvidenceBinding,
  checked, find_chain, find_tx, bind_execution_evidence,
}

pub data Conformance : Type 0 where
  receipt_level trace_level : Conformance

abbrev pub is_some {ℓ} : {A : Type ℓ} → Option A → Bool
is_some none = false
is_some (some a) = true

unfoldable pub find_block : List Item → Option BlockPin
find_block [] = none
find_block (Item.block b ∷ is) = some b
find_block (_ ∷ is) = find_block is

unfoldable pub find_receipt : List Item → Option ReceiptValue
find_receipt [] = none
find_receipt (Item.receipt r ∷ is) = some r
find_receipt (_ ∷ is) = find_receipt is

abbrev pub missing_if : Bool → CheckName → List EvidenceCheck
missing_if present name =
    if present then [] else checked name ExecutionResult.not_run CheckLabel.missing ∷ []

-- The required kinds that have no item.
unfoldable pub missing_required : List Item → List EvidenceCheck
missing_required items =
    missing_if (is_some (find_chain items)) CheckName.extraction_chain_id
    ++ (missing_if (is_some (find_block items)) CheckName.extraction_block
        ++ (missing_if (is_some (find_tx items)) CheckName.extraction_transaction
            ++ missing_if (is_some (find_receipt items)) CheckName.extraction_receipt))

-- simulationNotRun
abbrev pub simulation_not_run : EvidenceCheck
simulation_not_run =
    checked CheckName.simulation ExecutionResult.not_run CheckLabel.simulation_not_performed

pub record Verification : Type 0 where
  pub status : ExecutionStatus
  pub checks : List EvidenceCheck

abbrev pub no_trace : Verification
no_trace = record {
  status = ExecutionStatus.trace_unavailable;
  checks =
      checked CheckName.extraction_trace ExecutionResult.not_run CheckLabel.trace_unavailable
      ∷ simulation_not_run
      ∷ [];
}

abbrev pub final_status : List EvidenceCheck → ExecutionStatus → ExecutionStatus
final_status [] binding = binding
final_status (c ∷ cs) binding = ExecutionStatus.unverified

unfoldable pub verify_bound : List EvidenceCheck → Option EvidenceBinding → Option Verification
verify_bound missing none = none
verify_bound missing (some b) = some (record {
  status = final_status missing b.status;
  checks = missing ++ (b.checks ++ simulation_not_run ∷ []);
})

abbrev pub wants_trace : Conformance → Option Text → Bool
wants_trace Conformance.trace_level none = true
wants_trace _ _ = false

-- verifyExecutionEvidence: none where it throws.
unfoldable pub verify_execution_evidence :
    (Text → Text) → Option Provider → Ref → Claim → Conformance → Option Verification
verify_execution_evidence sha256_hex p ref c conformance =
    let e = extract_execution_evidence p ref in
    if wants_trace conformance e.trace
    then some no_trace
    else verify_bound (missing_required e.items) (bind_execution_evidence sha256_hex c e.items)
