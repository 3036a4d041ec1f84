-- ===== src/Budget/Locks.antt =====
-- hold and disposition of packages/budget/ledger.mjs: what is locked is released, refunded or left.
use coreguard.Prelude.{
  ℕ, ◌+◌, ◌≤◌, ◌<◌, String, ◌≡◌, refl, sym, ◌∙◌, ap, subst, ◌⊎◌, inl, inr, true, not, ◌&&◌, Option,
  some, arith, lookup, ltb, nat_beq, Option-cases, Bool-cases, lookup-insert_self,
}
use coreguard.Budget.{
  Job, Ledger, Amount, Target, Answer, Held, is_positive_int, cents, exceeds, hold, holdable,
  disposition, disposed_job, amount_of, is_target, set_job, JobState,
}
use coreguard.Budget.Books.{IsValid}
use coreguard.Budget.Outcomes.{succeeded, Untouched}
use coreguard.Budget.Writes.{direct-IsValid}

-- A lock that `hold` can set on the job: an amount above zero, none set before, and no more than
-- the ceiling leaves beside what is committed and reserved.
pub record CanHold (job_id : String) (amount : Amount) (l : Ledger) (j : Job) : Type 0 where
  pub found : lookup job_id l.jobs ≡ some j
  pub positive : 0 < cents amount
  pub unlocked : j.held_cents ≡ 0
  pub fits : cents amount + j.committed_cents + j.reserved_cents ≤ j.ceiling_cents

abbrev pub locked_job : Job → ℕ → Job
locked_job j amount = record j { held_cents = amount; state = JobState.held }

abbrev pub Locked : String → Amount → Ledger → Answer Held × Ledger → Type 0
Locked job_id amount l a =
    (j : Job) × CanHold job_id amount l j
    × (succeeded a.0 ≡ true)
    × (a.1 ≡ set_job job_id (locked_job j (cents amount)) l)

-- `hold` either refuses and writes nothing, or the job exists, holds nothing, the amount is above
-- zero and at most what the ceiling leaves beside what is committed and reserved, and it is
-- locked.
pub hold_outcome :
    (job_id : String) (amount : Amount) (l : Ledger)
    → Untouched l (hold job_id amount l) ⊎ Locked job_id amount l (hold job_id amount l)
unfolding hold holdable exceeds is_positive_int cents
hold_outcome job_id amount l = elim (Option-cases (lookup job_id l.jobs)) [
  | inl missing ↦ inl (ground arith)
  | inr (j, ej) ↦
      elim (Bool-cases (
        is_positive_int amount
        && not (ltb 0 j.held_cents)
        && not (exceeds (cents amount) (holdable j)))) [
          | inl fits ↦ inr (j, ground arith, ground arith, ground arith)
          | inr not_fits ↦ inl (ground arith)
        ]
]

-- A disposition that can be made: a known target, and an amount above zero within what is locked.
pub record CanDispose (job_id : String) (to : Target) (amount : Option Amount) (l : Ledger)
    (j : Job) : Type 0 where
  pub found : lookup job_id l.jobs ≡ some j
  pub target : is_target to ≡ true
  pub positive : 0 < cents (amount_of amount j)
  pub within : cents (amount_of amount j) ≤ j.held_cents

pub disposition_outcome :
    (job_id : String) (to : Target) (amount : Option Amount) (reason : Option String) (l : Ledger)
    → Untouched l (disposition job_id to amount reason l)
      ⊎ ((j : Job) × CanDispose job_id to amount l j
          × (succeeded (disposition job_id to amount reason l).0 ≡ true)
          × ((disposition job_id to amount reason l).1
              ≡ set_job job_id (disposed_job to j (cents (amount_of amount j))) l))
unfolding disposition is_positive_int cents
disposition_outcome job_id to amount reason l = elim (Option-cases (lookup job_id l.jobs)) [
  | inl missing ↦ inl (ground arith)
  | inr (j, ej) ↦
      elim (Bool-cases (
        is_target to
        && not (nat_beq j.held_cents 0)
        && is_positive_int (amount_of amount j)
        && not (ltb j.held_cents (cents (amount_of amount j))))) [
          | inl fits ↦ inr (j, ground arith, ground arith, ground arith)
          | inr not_fits ↦ inl (ground arith)
        ]
]

-- What a disposition does with the amount, by its target.
abbrev pub Moved : Target → ℕ → Job → Job → Type 0
Moved Target.released a j j' =
    (j'.held_cents + a ≡ j.held_cents)
    × (j'.released_cents ≡ j.released_cents + a)
    × (j'.refunded_cents ≡ j.refunded_cents)
Moved Target.refunded a j j' =
    (j'.held_cents + a ≡ j.held_cents)
    × (j'.released_cents ≡ j.released_cents)
    × (j'.refunded_cents ≡ j.refunded_cents + a)
Moved _ a j j' = j' ≡ j

disposed_job-Moved :
    (to : Target) (j : Job) (a : ℕ)
    → a ≤ j.held_cents
    → Moved to a j (disposed_job to j a)
      × ((disposed_job to j a).held_cents
            + (disposed_job to j a).released_cents
            + (disposed_job to j a).refunded_cents
          ≡ j.held_cents + j.released_cents + j.refunded_cents)
unfolding disposed_job
disposed_job-Moved Target.released j a h = (omega arith, omega arith)
disposed_job-Moved Target.refunded j a h = (omega arith, omega arith)
disposed_job-Moved _ j a h = (refl, refl)

-- A disposition that succeeds is of a job that exists, moves its amount out of the lock to its
-- target and nowhere else, leaves the job as it is if its target is HELD, and keeps the sum of
-- what is held, released and refunded.
pub disposition_moves :
    (job_id : String) (to : Target) (amount : Option Amount) (reason : Option String) (l : Ledger)
    → succeeded (disposition job_id to amount reason l).0 ≡ true
    → (j j' : Job) × (lookup job_id l.jobs ≡ some j)
      × (lookup job_id (disposition job_id to amount reason l).1.jobs ≡ some j')
      × Moved to (cents (amount_of amount j)) j j'
      × (j'.held_cents + j'.released_cents + j'.refunded_cents
          ≡ j.held_cents + j.released_cents + j.refunded_cents)
unfolding set_job
disposition_moves job_id to amount reason l h =
    elim (disposition_outcome job_id to amount reason l) [
      | inl same ↦ cc (same.0, h)
      | inr (j, d, _, e) ↦ (
        j,
        disposed_job to j (cents (amount_of amount j)),
        d.found,
        ap (λ t. lookup job_id t.jobs) e ∙ lookup-insert_self job_id _ l.jobs,
        (disposed_job-Moved to j (cents (amount_of amount j)) d.within).0,
        (disposed_job-Moved to j (cents (amount_of amount j)) d.within).1,
      )
    ]

-- The books do not read the locks: a write to a job that leaves its other counters keeps them valid.
pub set_job-IsValid :
    (l : Ledger) (v : IsValid l) (job_id : String) {j : Job} (ej : lookup job_id l.jobs ≡ some j)
    (j' : Job)
    → j'.child_shares_cents ≡ j.child_shares_cents
    → j'.ceiling_cents ≡ j.ceiling_cents
    → j'.reserved_cents ≡ j.reserved_cents
    → j'.committed_cents ≡ j.committed_cents
    → IsValid (set_job job_id j' l)
unfolding set_job
set_job-IsValid l v job_id ej j' child ceiling reserved committed =
    direct-IsValid l v job_id ej j' l.reservations 0 0 (λ k. refl) child ceiling (omega arith) l.seq
      (inr (omega arith)) (λ key. refl)

-- `hold` keeps the books valid.
pub hold-IsValid :
    (job_id : String) (amount : Amount) (l : Ledger) → IsValid l → IsValid (hold job_id amount l).1
hold-IsValid job_id amount l v = elim (hold_outcome job_id amount l) [
  | inl same ↦ subst IsValid (sym same.1) v
  | inr (j, h, _, e) ↦
      subst IsValid (sym e)
        (set_job-IsValid l v job_id h.found (locked_job j (cents amount)) refl refl refl refl)
]

disposed_job-IsValid :
    (l : Ledger) (v : IsValid l) (job_id : String) (j : Job) (ej : lookup job_id l.jobs ≡ some j)
    (to : Target) (a : ℕ)
    → IsValid (set_job job_id (disposed_job to j a) l)
unfolding disposed_job
disposed_job-IsValid l v job_id j ej Target.released a =
    set_job-IsValid l v job_id ej _ refl refl refl refl
disposed_job-IsValid l v job_id j ej Target.refunded a =
    set_job-IsValid l v job_id ej _ refl refl refl refl
disposed_job-IsValid l v job_id j ej _ a = set_job-IsValid l v job_id ej _ refl refl refl refl

-- `disposition` keeps the books valid.
pub disposition-IsValid :
    (job_id : String) (to : Target) (amount : Option Amount) (reason : Option String) (l : Ledger)
    → IsValid l
    → IsValid (disposition job_id to amount reason l).1
disposition-IsValid job_id to amount reason l v =
    elim (disposition_outcome job_id to amount reason l) [
      | inl same ↦ subst IsValid (sym same.1) v
      | inr (j, d, _, e) ↦
          subst IsValid (sym e)
            (disposed_job-IsValid l v job_id j d.found to (cents (amount_of amount j)))
    ]
