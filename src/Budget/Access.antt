-- ===== src/Budget/Access.antt =====
-- How the operations of packages/budget/ledger.mjs read and write the maps of the ledger.
use coreguard.Prelude.{String, Bool, true, false, Option, none, some, [], ℤ, lookup, insert}
use coreguard.Budget.State.{
  ScopeState, RefusalCode, Job, Scope, Reservation, Ledger, scope_key, job_available,
  scope_available,
}
use coreguard.Budget.Calls.{Action, refusal, pure, gets, or_refuse, refuse_if, ◌>>=◌, ◌>>◌}

-- createBudgetLedger
unfoldable pub create_budget_ledger : String → Ledger
create_budget_ledger currency = record {
  currency = currency;
  jobs = [];
  scopes = [];
  reservations = [];
  seq = 0;
}

unfoldable pub require_job : String → Action Job
require_job job_id = do
  or_refuse (← gets (λ l. lookup job_id l.jobs)) (refusal RefusalCode.no_such_job)

-- scopeOf
unfoldable pub scope_of : String → String → Ledger → Option Scope
scope_of job_id scope_id l = lookup (scope_key job_id scope_id) l.scopes

-- A write through the job object that `jobs` holds, and the same for a scope and a reservation.
unfoldable pub set_job : String → Job → Ledger → Ledger
set_job job_id j l = record l { jobs = insert job_id j l.jobs }

unfoldable pub set_scope : String → String → Scope → Ledger → Ledger
set_scope job_id scope_id s l = record l { scopes = insert (scope_key job_id scope_id) s l.scopes }

unfoldable pub set_reservation : String → Reservation → Ledger → Ledger
set_reservation id r l = record l { reservations = insert id r l.reservations }

abbrev pub is_closed : ScopeState → Bool
is_closed ScopeState.opened = false
is_closed ScopeState.closed = true

-- The scope that is named, if one is, checked to be open.
unfoldable pub open_scope_of : String → Option String → Action (Option Scope)
unfolding scope_of
open_scope_of job_id none = pure none
open_scope_of job_id (some scope_id) = do
  s ← or_refuse (← gets (scope_of job_id scope_id)) (refusal RefusalCode.no_such_scope)
  refuse_if (is_closed s.state) (refusal RefusalCode.scope_closed)
  pure (some s)

-- What is left to the scope, or to the job where no scope is named.
unfoldable pub available_to : Job → Option Scope → ℤ
unfolding job_available scope_available
available_to j none = job_available j
available_to j (some s) = scope_available s
