-- ===== src/Budget/Tests.antt =====
-- Runs of the ledger, and the theorems about packages/budget/ledger.mjs at concrete inputs.
use coreguard.Prelude.{
  Option, ◌<◌, ◌-◌, ℕ, ◌+◌, ◌*◌, ◌⊎◌, String-ne, ◌≤◌, String, ◌≡◌, refl, true, false, none, some,
  [], ◌∷◌, arith, pos, lookup, insert, values,
}
use coreguard.Budget.{
  new_reservation, Job, Scope, Reservation, Ledger, Amount, Target, Cost, CostSource, JobState,
  ScopeState, ReservationState, create_budget_ledger, new_job, new_scope, open_job, open_scope,
  reserve, commit, release, meter, hold, disposition, snapshot, require_job, set_job, set_scope,
  set_reservation, open_scope_of, debit_parent, is_positive_int, cents, exceeds, job_available,
  scope_available, available_to, available_after, scope_key, scope_of, reservation_id, book,
  charged_job, charged_scope, write_scope, new_reservation, open_reservation, close, spent_job,
  spent_scope, freed_job, freed_scope, scope_of_reservation, report_scopes, report_scope,
  disposed_job, amount_of, holdable,
}
use coreguard.Budget.Outcomes.{next_id, succeeded, Untouched, Names}
use coreguard.Budget.Endings.{IsOpen}
use coreguard.Budget.Locks.{Locked, Moved, hold_outcome, disposition_moves}
use coreguard.Budget.Gaps.{
  HasRoom, rounds, rounds_release, root_cost, hold-reserve, scope_cost, nested_id,
  reserve_shared_key,
}
use coreguard.Budget.Frames.{HasFree}
use coreguard.Budget.Effects.{Affords, Takes, reserve_effect, reserve-Affords}
use coreguard.Budget.EndingEffects.{ScopeOf, scope_with, Ends, commit_effect}
use coreguard.Budget.CarvingEffects.{Carves, open_scope_effect}
use coreguard.Budget.Isolation.{reserve-snapshot}
use coreguard.Budget.Books.{IsValid}
use coreguard.Budget.Accounts.{Evolves, no_accounts, accounts_of}
use coreguard.Budget.Refinement.{Reach-Evolves}
use coreguard.Budget.Runs.{Reach, Step, Reach-IsValid, Reach-ceiling}

-- A digest for the tests: the text itself.
abbrev digest : String → String
digest s = s

abbrev cents_of : ℕ → Amount
cents_of n = Amount.integer (pos n)

abbrev research : ℕ → Cost
research n = record {
  job_id = "job-1";
  scope_id = some "research";
  amount_cents = cents_of n;
  source = CostSource.settlement;
  reason = none;
}

-- A job of 500 cents with a scope of 200.
two_deep : Ledger
two_deep =
    (open_scope "job-1" "research" none (cents_of 200)
      (open_job "job-1" (cents_of 500) (create_budget_ledger "USDC")).1).1

-- Opens the operations, so that a run computes.
all_open : Unit {0}
unfolding two_deep open_scope open_job create_budget_ledger reserve lookup insert set_job set_scope
    new_job new_scope open_scope_of debit_parent is_positive_int cents exceeds job_available
    scope_available available_to available_after scope_key scope_of reservation_id book charged_job
    charged_scope write_scope set_reservation new_reservation commit release meter hold disposition
    holdable disposed_job amount_of open_reservation close spent_job spent_scope freed_job
    freed_scope scope_of_reservation require_job snapshot report_scopes report_scope values
all_open = tt

abbrev after_first : Ledger
after_first = (reserve digest (research 120) two_deep).1

-- The second cost does not fit in the 80 cents that are left of the scope's share.
second_cost_refused :
    (succeeded (reserve digest (research 120) two_deep).0 ≡ true)
    × (succeeded (reserve digest (research 120) after_first).0 ≡ false)
unfolding all_open
second_cost_refused = (refl, refl)

run_two_deep : Reach digest "USDC" two_deep
unfolding two_deep
run_two_deep =
    Reach.next (Reach.next Reach.start (Step.opens "job-1" (cents_of 500)))
      (Step.carves "job-1" "research" none (cents_of 200) refl)

run_first : Reach digest "USDC" after_first
unfolding all_open
run_first = Reach.next run_two_deep (Step.reserves (research 120) refl refl)

abbrev job_after_first : Job
job_after_first = record {
  job_id = "job-1";
  currency = "USDC";
  ceiling_cents = 500;
  state = JobState.opened;
  held_cents = 0;
  released_cents = 0;
  refunded_cents = 0;
  committed_cents = 0;
  reserved_cents = 120;
  child_shares_cents = 200;
  reservations = next_id digest (research 120) two_deep ∷ [];
}

Reach-IsValid_example : IsValid after_first
Reach-IsValid_example = Reach-IsValid digest run_first

Reach-ceiling_example : 120 + 0 ≤ 500
unfolding all_open
Reach-ceiling_example =
    Reach-ceiling digest "USDC" after_first "job-1" job_after_first run_first refl

abbrev scope_after_first : Scope
scope_after_first = record {
  job_id = "job-1";
  scope_id = "research";
  parent_scope_id = none;
  share_cents = 200;
  child_shares_cents = 0;
  reserved_cents = 120;
  committed_cents = 0;
  state = ScopeState.opened;
}

reserve_effect_example :
    Untouched after_first (reserve digest (research 80) after_first)
    ⊎ ((j : Job) × (s : Option Scope) × (n : ℕ) × Affords (research 80) after_first j s n
        × Takes digest (research 80) after_first j s n (reserve digest (research 80) after_first))
reserve_effect_example = reserve_effect digest (research 80) after_first

reserve-Affords_example :
    Takes digest
      (research 80)
      after_first
      job_after_first
      (some scope_after_first)
      80
      (reserve digest (research 80) after_first)
unfolding all_open
reserve-Affords_example =
    reserve-Affords digest (research 80) after_first job_after_first (some scope_after_first) 80
      (record {
        found = refl;
        names = (refl, refl);
        amount = refl;
        positive = omega arith;
        free = omega arith;
        listed = refl;
      })

abbrev first_id : String
first_id = next_id digest (research 120) two_deep

commit_effect_example :
    Untouched after_first (commit "job-1" first_id after_first)
    ⊎ ((j : Job) × (r : Reservation) × (s : Option Scope) × IsOpen "job-1" first_id after_first j r
        × ScopeOf "job-1" r.scope_id after_first.scopes s
        × (succeeded (commit "job-1" first_id after_first).0 ≡ true)
        × Ends "job-1" first_id r
            (record j {
              reserved_cents = j.reserved_cents - r.amount_cents;
              committed_cents = j.committed_cents + r.amount_cents;
            })
            (scope_with
              (λ t. record t {
                reserved_cents = t.reserved_cents - r.amount_cents;
                committed_cents = t.committed_cents + r.amount_cents;
              })
              s)
            ReservationState.committed
            after_first
            (commit "job-1" first_id after_first).1)
commit_effect_example = commit_effect "job-1" first_id after_first

abbrev carved : Ledger
carved = (open_scope "job-1" "nested" (some "research") (cents_of 50) two_deep).1

open_scope_effect_example :
    Untouched two_deep (open_scope "job-1" "nested" (some "research") (cents_of 50) two_deep)
    ⊎ ((j : Job) × (p : Option Scope) × (n : ℕ) × (lookup "job-1" two_deep.jobs ≡ some j)
        × (lookup (scope_key "job-1" "nested") two_deep.scopes ≡ none)
        × Names "job-1" (some "research") p two_deep
        × (cents_of 50 ≡ Amount.integer (pos n))
        × (0 < n)
        × HasFree j p n
        × (succeeded (open_scope "job-1" "nested" (some "research") (cents_of 50) two_deep).0
            ≡ true)
        × Carves "job-1" "nested" (some "research") n j p two_deep carved
        × (carved.reservations ≡ two_deep.reservations))
open_scope_effect_example =
    open_scope_effect "job-1" "nested" (cents_of 50) two_deep (some "research")

reserve-snapshot_example :
    snapshot "job-2" (reserve digest (research 120) two_deep).1 ≡ snapshot "job-2" two_deep
unfolding all_open
reserve-snapshot_example =
    reserve-snapshot digest (research 120) "job-2" two_deep (Reach-IsValid digest run_two_deep) refl
      (String-ne "job-1" "job-2" refl)

abbrev empty_job : ℕ → Job
empty_job ceiling = new_job "job-1" "USDC" ceiling

one_job : Ledger
one_job = (open_job "job-1" (cents_of 400) (create_budget_ledger "USDC")).1

hold_outcome_example :
    Untouched one_job (hold "job-1" (cents_of 401) one_job)
    ⊎ Locked "job-1" (cents_of 401) one_job (hold "job-1" (cents_of 401) one_job)
hold_outcome_example = hold_outcome "job-1" (cents_of 401) one_job

abbrev one_held : Ledger
one_held = (hold "job-1" (cents_of 400) one_job).1

disposition_moves_example :
    let l' = (disposition "job-1" Target.released (some (cents_of 150)) none one_held).1 in
    (j j' : Job) × (lookup "job-1" one_held.jobs ≡ some j)
    × (lookup "job-1" l'.jobs ≡ some j')
    × Moved Target.released (cents (amount_of (some (cents_of 150)) j)) j j'
    × (j'.held_cents + j'.released_cents + j'.refunded_cents
        ≡ j.held_cents + j.released_cents + j.refunded_cents)
unfolding all_open one_job
disposition_moves_example =
    disposition_moves "job-1" Target.released (some (cents_of 150)) none one_held refl

rounds_release_example : HasRoom "job-1" 400 (0 + 3 * 400) (rounds 3 "job-1" 400 one_job)
unfolding all_open one_job
rounds_release_example =
    rounds_release 3 "job-1" 400 0 one_job (omega arith)
      (empty_job 400, refl, refl, omega arith, refl)

hold-reserve_example :
    let (answer, l') = reserve digest (root_cost "job-1" 400) one_held in
    (succeeded answer ≡ true)
    × (j' : Job) × (lookup "job-1" l'.jobs ≡ some j')
    × (j'.ceiling_cents ≡ 400)
    × (j'.held_cents ≡ 400)
    × (j'.reserved_cents ≡ 0 + 400)
unfolding all_open one_job
hold-reserve_example =
    hold-reserve digest "job-1" 400 one_job (empty_job 400) refl refl (omega arith) (omega arith)

-- A job of one cent beside a job of 500 whose scope is called `b::c`.
two_jobs : Ledger
two_jobs =
    (open_scope "a" "b::c" none (cents_of 500)
      (open_job "a::b" (cents_of 1)
        (open_job "a" (cents_of 500) (create_budget_ledger "USDC")).1).1).1

reserve_shared_key_example :
    succeeded (reserve digest (scope_cost (nested_id "a" "b") "c" 300) two_jobs).0 ≡ true
unfolding all_open two_jobs
reserve_shared_key_example =
    reserve_shared_key digest "a" "b" "c" 300 two_jobs (new_scope "a" "b::c" none 500)
      (new_job "a::b" "USDC" 1) refl refl (omega arith) (omega arith) refl

run_settled : Reach digest "USDC" (commit "job-1" first_id after_first).1
unfolding all_open
run_settled = Reach.next run_first (Step.commits "job-1" first_id refl)

Reach-Evolves_example : Evolves no_accounts (accounts_of (commit "job-1" first_id after_first).1)
Reach-Evolves_example = Reach-Evolves digest "USDC" _ run_settled
