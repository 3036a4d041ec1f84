-- ===== src/JobFlow/Create.antt =====
-- createJobFlow with its `deliver`, budgetWaterfall and reservationTimeline of
-- packages/job-integration/index.mjs. The other methods of a flow are those of the ledger.
use coreguard.Prelude.{
  ℕ, ◌∷◌, [], String, not, ◌||◌, ◌==◌, Option, none, some, List, if◌then◌else◌, length,
}
use coreguard.Budget.{
  Amount, Ledger, Answer, ok, refused, threw, Held, OpenedJob, Reservation, ScopeReport, Snapshot,
  is_positive_int, create_budget_ledger, open_job, hold, snapshot, list_reservations,
}
use coreguard.Acceptance.{Spec, Evidence, Evaluation, evaluate_acceptance}

-- A flow: its ledger, and the answer of the lock that was asked for.
pub record Flow : Type 0 where
  pub ledger : Ledger
  pub held : Option (Answer Held)

unfoldable pub lock_first : String → Option Amount → Ledger → Flow
lock_first job_id none l = record { ledger = l; held = none }
lock_first job_id (some amount) l = record {
  ledger = (hold job_id amount l).1;
  held = some (hold job_id amount l).0;
}

unfoldable pub flow_of : String → Option Amount → Answer OpenedJob → Ledger → Option Flow
flow_of job_id amount (ok opened) l = some (lock_first job_id amount l)
flow_of job_id amount (refused r) l = none
flow_of job_id amount (threw t) l = none

-- None where createJobFlow throws.
unfoldable pub create_job_flow : String → Amount → Option Amount → Option Flow
create_job_flow job_id ceiling amount =
    let (answer, l) = open_job job_id ceiling (create_budget_ledger "USDC") in
    if job_id == "" || not (is_positive_int ceiling) then none else flow_of job_id amount answer l

-- The verdict on the evidence, and the flow after it.
unfoldable pub deliver : Option Spec → Option Evidence → Flow → Evaluation × Option Ledger
deliver spec evidence flow = evaluate_acceptance spec evidence (some flow.ledger)

pub data Row : Type 0 where
  job_row : Snapshot → Row
  scope_row : ScopeReport → Row

unfoldable pub scope_rows : List ScopeReport → List Row
scope_rows [] = []
scope_rows (s ∷ ss) = scope_row s ∷ scope_rows ss

-- budgetWaterfall: none where the ledger has no such job.
unfoldable pub budget_waterfall : String → Ledger → Option (List Row)
budget_waterfall job_id l = elim (snapshot job_id l) [
  | none ↦ none
  | some s ↦ some (job_row s ∷ scope_rows s.scopes)
]

pub record Timeline : Type 0 where
  pub count : ℕ
  pub reservations : List (Option Reservation)

unfoldable pub reservation_timeline : String → Ledger → Timeline
reservation_timeline job_id l = record {
  count = length (list_reservations job_id l);
  reservations = list_reservations job_id l;
}
