-- ===== src/Budget/Open.antt =====
-- openJob and openScope of packages/budget/ledger.mjs.
use coreguard.Prelude.{ℕ, ◌+◌, String, not, ◌==◌, Option, some, [], ℤ, contains}
use coreguard.Budget.State.{
  JobState, ScopeState, RefusalCode, Amount, Job, Scope, Ledger, is_positive_int, cents, scope_key,
  exceeds,
}
use coreguard.Budget.Calls.{
  Action, Refusal, refusal, Thrown, pure, gets, refuse_if, throw_if, modify, ◌>>=◌, ◌>>◌,
}
use coreguard.Budget.Access.{require_job, set_job, set_scope, open_scope_of, available_to}

pub record OpenedJob : Type 0 where
  pub job_id : String
  pub currency : String
  pub ceiling_cents : ℕ
  pub available_cents : ℕ

unfoldable pub new_job : String → String → ℕ → Job
new_job job_id currency ceiling = record {
  job_id = job_id;
  currency = currency;
  ceiling_cents = ceiling;
  state = JobState.opened;
  held_cents = 0;
  released_cents = 0;
  refunded_cents = 0;
  committed_cents = 0;
  reserved_cents = 0;
  child_shares_cents = 0;
  reservations = [];
}

-- openJob
unfoldable pub open_job : String → Amount → Action OpenedJob
open_job job_id ceiling = do
  throw_if (job_id == "") Thrown.bad_job_id
  throw_if (not (is_positive_int ceiling)) Thrown.bad_ceiling
  throw_if (← gets (λ l. contains job_id l.jobs)) Thrown.job_exists
  currency ← gets (λ l. l.currency)
  modify (set_job job_id (new_job job_id currency (cents ceiling)))
  pure (record {
    job_id = job_id;
    currency = currency;
    ceiling_cents = cents ceiling;
    available_cents = cents ceiling;
  })

-- `childSharesCents += shareCents` on the job or on the parent scope.
unfoldable pub debit_parent : String → Job → Option String → Option Scope → ℕ → Ledger → Ledger
unfolding set_job set_scope
debit_parent job_id j (some parent_id) (some p) share =
    set_scope job_id parent_id (record p { child_shares_cents = p.child_shares_cents + share })
debit_parent job_id j _ _ share =
    set_job job_id (record j { child_shares_cents = j.child_shares_cents + share })

unfoldable pub new_scope : String → String → Option String → ℕ → Scope
new_scope job_id scope_id parent_scope_id share = record {
  job_id = job_id;
  scope_id = scope_id;
  parent_scope_id = parent_scope_id;
  share_cents = share;
  child_shares_cents = 0;
  reserved_cents = 0;
  committed_cents = 0;
  state = ScopeState.opened;
}

pub record OpenedScope : Type 0 where
  pub job_id : String
  pub scope_id : String
  pub parent_scope_id : Option String
  pub share_cents : ℕ
  pub available_cents : ℕ

unfoldable pub too_large : Amount → ℤ → Refusal
too_large share available = record (refusal RefusalCode.exceeds_job_ceiling) {
  requested_cents = some share;
  available_cents = some available;
}

-- openScope
unfoldable pub open_scope : String → String → Option String → Amount → Action OpenedScope
unfolding require_job
open_scope job_id scope_id parent_scope_id share = do
  j ← require_job job_id
  throw_if (scope_id == "") Thrown.bad_scope_id
  throw_if (not (is_positive_int share)) Thrown.bad_share
  throw_if (← gets (λ l. contains (scope_key job_id scope_id) l.scopes)) Thrown.scope_exists
  parent ← open_scope_of job_id parent_scope_id
  refuse_if (exceeds (cents share) (available_to j parent))
      (too_large share (available_to j parent))
  modify (debit_parent job_id j parent_scope_id parent (cents share))
  modify (set_scope job_id scope_id (new_scope job_id scope_id parent_scope_id (cents share)))
  pure (record {
    job_id = job_id;
    scope_id = scope_id;
    parent_scope_id = parent_scope_id;
    share_cents = cents share;
    available_cents = cents share;
  })
