-- ===== src/Acceptance/Escrow.antt =====
-- What a verdict of packages/acceptance/index.mjs does to the locked money.
use coreguard.Prelude.{
  ◌+◌, ◌<◌, String, ◌≡◌, refl, ◌≢◌, false, Option, none, some, [], arith, lookup, ◌==◌,
  lookup-insert_self, insert-lookup, Option-cases, inl, inr,
}
use coreguard.Budget.{
  Job, Ledger, Target, JobState, disposition, disposed_job, amount_of, set_job, is_positive_int,
  cents,
}
use coreguard.Acceptance.{
  Spec, AcceptanceState, Evidence, aggregate, evaluate_checks, evaluate_acceptance,
  apply_disposition, target_of, reason_of,
}

-- The verdict that `evaluateAcceptance` reaches on a spec and the evidence, before it acts on it.
abbrev pub verdict : Spec → Option Evidence → Option Ledger → AcceptanceState
verdict spec evidence l = aggregate (evaluate_checks spec.checks evidence l)

-- A disposition to HELD writes nothing.
held-unchanged :
    (job_id : String) (reason : Option String) (l : Ledger)
    → (disposition job_id Target.held none reason l).1 ≡ l
unfolding disposition set_job disposed_job
held-unchanged job_id reason l = elim (Option-cases (lookup job_id l.jobs)) [
  | inl missing ↦ ground arith
  | inr (j, e) ↦ ground (arith, insert-lookup job_id j l.jobs e)
]

-- What a verdict makes of a job that holds `j.held_cents`: ACCEPTED releases it all, REJECTED
-- refunds it all, UNKNOWN leaves it.
abbrev pub Settles : AcceptanceState → Job → Job → Type 0
Settles AcceptanceState.accepted j j' =
    (j'.held_cents ≡ 0)
    × (j'.released_cents ≡ j.released_cents + j.held_cents)
    × (j'.refunded_cents ≡ j.refunded_cents)
    × (j'.state ≡ JobState.released)
Settles AcceptanceState.rejected j j' =
    (j'.held_cents ≡ 0)
    × (j'.released_cents ≡ j.released_cents)
    × (j'.refunded_cents ≡ j.refunded_cents + j.held_cents)
    × (j'.state ≡ JobState.refunded)
Settles AcceptanceState.unknown j j' = j' ≡ j

disposed-Settles :
    (s : AcceptanceState) (j : Job) → Settles s j (disposed_job (target_of s) j j.held_cents)
unfolding disposed_job target_of
disposed-Settles AcceptanceState.accepted j = (omega arith, refl, refl, ground arith)
disposed-Settles AcceptanceState.rejected j = (omega arith, refl, refl, ground arith)
disposed-Settles AcceptanceState.unknown j = refl

target_of-lookup :
    (s : AcceptanceState) (job_id : String) (reason : Option String) (l : Ledger) (j : Job)
    → lookup job_id l.jobs ≡ some j
    → 0 < j.held_cents
    → lookup job_id (disposition job_id (target_of s) none reason l).1.jobs
      ≡ some (disposed_job (target_of s) j j.held_cents)
unfolding disposition set_job amount_of is_positive_int cents target_of
target_of-lookup AcceptanceState.accepted job_id reason l j e h =
    ground (arith, lookup-insert_self job_id (disposed_job Target.released j j.held_cents) l.jobs)
target_of-lookup AcceptanceState.rejected job_id reason l j e h =
    ground (arith, lookup-insert_self job_id (disposed_job Target.refunded j j.held_cents) l.jobs)
target_of-lookup AcceptanceState.unknown job_id reason l j e h =
    ground (arith, lookup-insert_self job_id (disposed_job Target.held j j.held_cents) l.jobs)

-- Where the spec has a check and names a job that holds an amount above zero, evaluateAcceptance
-- on the ledger leaves the job with all of it released if the verdict is ACCEPTED, all of it
-- refunded if REJECTED, and the job as it was if UNKNOWN.
pub evaluate_acceptance-Settles :
    (spec : Spec) (evidence : Option Evidence) (l : Ledger) (j : Job)
    → spec.checks ≢ []
    → (spec.job_id == "") ≡ false
    → lookup spec.job_id l.jobs ≡ some j
    → 0 < j.held_cents
    → (l' : Ledger) × (j' : Job) × ((evaluate_acceptance (some spec) evidence (some l)).1 ≡ some l')
      × (lookup spec.job_id l'.jobs ≡ some j')
      × Settles (verdict spec evidence (some l)) j j'
unfolding evaluate_acceptance apply_disposition
evaluate_acceptance-Settles spec evidence l j some_check named e h =
    let s = verdict spec evidence (some l) in
    (
      (disposition spec.job_id (target_of s) none (some (reason_of s)) l).1,
      disposed_job (target_of s) j j.held_cents,
      ground arith,
      target_of-lookup s spec.job_id (some (reason_of s)) l j e h,
      disposed-Settles s j,
    )
