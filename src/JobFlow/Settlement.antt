-- ===== src/JobFlow/Settlement.antt =====
-- What becomes of the money of a flow of packages/job-integration/index.mjs.
use coreguard.Prelude.{
  ℕ, ◌+◌, ◌≤◌, ◌<◌, [], String, false, ◌==◌, ◌≡◌, ◌≢◌, refl, ap, ◌∙◌, Option, some, arith, pos,
  lookup, lookup-insert_self,
}
use coreguard.Budget.{
  ok, OpenedJob, Amount, Job, Ledger, is_positive_int, cents, exceeds, create_budget_ledger,
  open_job, new_job, hold, holdable, set_job,
}
use coreguard.Budget.Locks.{locked_job}
use coreguard.Acceptance.{Spec, Evidence}
use coreguard.Acceptance.Escrow.{Settles, verdict, evaluate_acceptance-Settles}
use coreguard.JobFlow.{Flow, create_job_flow, flow_of, lock_first, deliver}

abbrev whole : ℕ → Amount
whole n = Amount.integer (pos n)

-- The ledger in which the job has just been opened.
abbrev opened_ledger : String → ℕ → Ledger
opened_ledger job_id ceiling =
    set_job job_id (new_job job_id "USDC" ceiling) (create_budget_ledger "USDC")

open_job-fresh :
    (job_id : String) (ceiling : ℕ)
    → (job_id == "") ≡ false
    → 0 < ceiling
    → (o : OpenedJob) × (open_job job_id (whole ceiling) (create_budget_ledger "USDC")
        ≡ (ok o, opened_ledger job_id ceiling))
unfolding open_job create_budget_ledger is_positive_int cents lookup
open_job-fresh job_id ceiling named p = (
  record { job_id = job_id; currency = "USDC"; ceiling_cents = ceiling; available_cents = ceiling },
  ground arith,
)

hold-locks :
    (job_id : String) (n : ℕ) (l : Ledger) (j : Job)
    → lookup job_id l.jobs ≡ some j
    → j.held_cents ≡ 0
    → 0 < n
    → n + j.committed_cents + j.reserved_cents ≤ j.ceiling_cents
    → (hold job_id (whole n) l).1 ≡ set_job job_id (locked_job j n) l
unfolding hold holdable is_positive_int cents exceeds
hold-locks job_id n l j e unlocked p room = ground arith

-- A flow whose amount fits under its ceiling has it locked.
create_job_flow-locked :
    (job_id : String) (ceiling n : ℕ)
    → (job_id == "") ≡ false
    → 0 < n
    → n ≤ ceiling
    → (f : Flow) × (create_job_flow job_id (whole ceiling) (some (whole n)) ≡ some f)
      × (lookup job_id f.ledger.jobs ≡ some (locked_job (new_job job_id "USDC" ceiling) n))
unfolding create_job_flow flow_of lock_first is_positive_int new_job set_job
create_job_flow-locked job_id ceiling n named p fits =
    let (o, opens) = open_job-fresh job_id ceiling named (omega arith) in
    let j = new_job job_id "USDC" ceiling in
    let there = lookup-insert_self job_id j (create_budget_ledger "USDC").jobs in
    (
      lock_first job_id (some (whole n)) (opened_ledger job_id ceiling),
      ground (arith, opens),
      ap (λ l. lookup job_id l.jobs)
            (hold-locks job_id n (opened_ledger job_id ceiling) j there refl p (omega arith))
          ∙ lookup-insert_self job_id (locked_job j n) (opened_ledger job_id ceiling).jobs,
    )

-- Where a named job opens with a ceiling and locks an amount above zero that fits under it, and the
-- spec is of that job and has a check, what is delivered settles the lock: the whole amount is
-- released if the verdict is ACCEPTED, refunded if it is REJECTED, and still locked if it is UNKNOWN.
pub deliver-Settles :
    (spec : Spec) (evidence : Option Evidence) (ceiling n : ℕ)
    → (spec.job_id == "") ≡ false
    → spec.checks ≢ []
    → 0 < n
    → n ≤ ceiling
    → (f : Flow) × (l' : Ledger) × (j' : Job) × (create_job_flow spec.job_id
          (whole ceiling)
          (some (whole n))
        ≡ some f)
      × ((deliver (some spec) evidence f).1 ≡ some l')
      × (lookup spec.job_id l'.jobs ≡ some j')
      × Settles
          (verdict spec evidence (some f.ledger))
          (locked_job (new_job spec.job_id "USDC" ceiling) n)
          j'
unfolding deliver new_job
deliver-Settles spec evidence ceiling n named some_check p fits =
    let (f, made, found) = create_job_flow-locked spec.job_id ceiling n named p fits in
    let (l', j', after, there, settled) =
      evaluate_acceptance-Settles spec evidence f.ledger
        (locked_job (new_job spec.job_id "USDC" ceiling) n) some_check named found p in
    (f, l', j', made, after, there, settled)
