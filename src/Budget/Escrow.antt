-- ===== src/Budget/Escrow.antt =====
-- hold and disposition, and the reports snapshot and listReservations, of
-- packages/budget/ledger.mjs.
use coreguard.Prelude.{
  ℕ, ◌+◌, ◌-◌, String, Bool, true, false, not, ◌||◌, ◌==◌, Option, none, some, List, [], ◌∷◌, map,
  ltb, nat_beq, if◌then◌else◌, ℤ, pos, sub_ℕ, lookup, values,
}
use coreguard.Budget.State.{
  JobState, ScopeState, Target, RefusalCode, Amount, Job, Scope, Reservation, Ledger,
  is_positive_int, cents, job_available, scope_available, exceeds,
}
use coreguard.Budget.Calls.{Action, Refusal, refusal, pure, refuse_if, modify, ◌>>=◌, ◌>>◌}
use coreguard.Budget.Access.{require_job, set_job}

pub record Held : Type 0 where
  pub job_id : String
  pub held_cents : ℕ
  pub available_cents : ℤ

unfoldable pub no_value : Amount → Refusal
no_value amount = record (refusal RefusalCode.unknown_amount) { requested_cents = some amount }

unfoldable pub still_held : RefusalCode → Job → Refusal
still_held code j = record (refusal code) { held_cents = some j.held_cents }

-- What `hold` compares with: it leaves out the shares of the scopes.
unfoldable pub holdable : Job → ℤ
holdable j = sub_ℕ j.ceiling_cents (j.committed_cents + j.reserved_cents)

unfoldable pub above_ceiling : Amount → Job → Refusal
unfolding holdable
above_ceiling amount j = record (refusal RefusalCode.exceeds_job_ceiling) {
  requested_cents = some amount;
  available_cents = some (holdable j);
}

-- hold
unfoldable pub hold : String → Amount → Action Held
unfolding require_job above_ceiling
hold job_id amount = do
  j ← require_job job_id
  refuse_if (not (is_positive_int amount)) (no_value amount)
  refuse_if (ltb 0 j.held_cents) (still_held RefusalCode.invalid_disposition j)
  refuse_if (exceeds (cents amount) (holdable j)) (above_ceiling amount j)
  modify (set_job job_id (record j { held_cents = cents amount; state = JobState.held }))
  pure (record {
    job_id = job_id;
    held_cents = cents amount;
    available_cents = sub_ℕ j.ceiling_cents (cents amount);
  })

pub record Disposed : Type 0 where
  pub state : Target
  pub job_id : String
  pub held_cents : ℕ
  pub released_cents : ℕ
  pub refunded_cents : ℕ
  pub amount_cents : Option ℕ
  pub reason : Option String

abbrev pub is_target : Target → Bool
is_target Target.unlisted = false
is_target _ = true

-- `amountCents === null ? j.heldCents : amountCents`
unfoldable pub amount_of : Option Amount → Job → Amount
amount_of none j = Amount.integer (pos j.held_cents)
amount_of (some a) j = a

abbrev pub state_after : ℕ → JobState → JobState → JobState
state_after remaining done before = if nat_beq remaining 0 then done else before

-- The writes of `disposition` for a target; `held` writes nothing.
unfoldable pub disposed_job : Target → Job → ℕ → Job
disposed_job Target.released j amount = record j {
  held_cents = j.held_cents - amount;
  released_cents = j.released_cents + amount;
  state = state_after (j.held_cents - amount) JobState.released j.state;
}
disposed_job Target.refunded j amount = record j {
  held_cents = j.held_cents - amount;
  refunded_cents = j.refunded_cents + amount;
  state = state_after (j.held_cents - amount) JobState.refunded j.state;
}
disposed_job _ j amount = j

unfoldable pub disposition_answer : Target → String → Job → ℕ → Option String → Disposed
disposition_answer Target.held job_id j amount reason = record {
  state = Target.held;
  job_id = job_id;
  held_cents = j.held_cents;
  released_cents = 0;
  refunded_cents = 0;
  amount_cents = none;
  reason = reason;
}
disposition_answer to job_id j amount reason = record {
  state = to;
  job_id = job_id;
  held_cents = j.held_cents;
  released_cents = j.released_cents;
  refunded_cents = j.refunded_cents;
  amount_cents = some amount;
  reason = reason;
}

-- disposition
unfoldable pub disposition : String → Target → Option Amount → Option String → Action Disposed
unfolding require_job disposition_answer
disposition job_id to amount reason = do
  j ← require_job job_id
  refuse_if (not (is_target to)) (refusal RefusalCode.invalid_disposition)
  refuse_if (nat_beq j.held_cents 0) (refusal RefusalCode.nothing_held)
  let a = amount_of amount j
  refuse_if (not (is_positive_int a) || ltb j.held_cents (cents a))
      (still_held RefusalCode.invalid_disposition j)
  modify (set_job job_id (disposed_job to j (cents a)))
  pure (disposition_answer to job_id (disposed_job to j (cents a)) (cents a) reason)

pub record ScopeReport : Type 0 where
  pub scope_id : String
  pub parent_scope_id : Option String
  pub share_cents : ℕ
  pub reserved_cents : ℕ
  pub committed_cents : ℕ
  pub available_cents : ℤ
  pub state : ScopeState

pub record Snapshot : Type 0 where
  pub job_id : String
  pub currency : String
  pub state : JobState
  pub ceiling_cents : ℕ
  pub held_cents : ℕ
  pub reserved_cents : ℕ
  pub committed_cents : ℕ
  pub released_cents : ℕ
  pub refunded_cents : ℕ
  pub available_cents : ℤ
  pub scopes : List ScopeReport

unfoldable pub report_scope : Scope → ScopeReport
unfolding scope_available
report_scope s = record {
  scope_id = s.scope_id;
  parent_scope_id = s.parent_scope_id;
  share_cents = s.share_cents;
  reserved_cents = s.reserved_cents;
  committed_cents = s.committed_cents;
  available_cents = scope_available s;
  state = s.state;
}

-- The scopes of one job, in the order in which they were opened.
unfoldable pub report_scopes : String → List Scope → List ScopeReport
unfolding report_scope
report_scopes job_id [] = []
report_scopes job_id (s ∷ ss) =
    if s.job_id == job_id then report_scope s ∷ report_scopes job_id ss else report_scopes job_id ss

-- snapshot: it refuses an unknown job, and writes nothing.
unfoldable pub snapshot : String → Ledger → Option Snapshot
unfolding job_available report_scopes
snapshot job_id l = elim (lookup job_id l.jobs) [
  | none ↦ none
  | some j ↦ some (record {
    job_id = job_id;
    currency = j.currency;
    state = j.state;
    ceiling_cents = j.ceiling_cents;
    held_cents = j.held_cents;
    reserved_cents = j.reserved_cents;
    committed_cents = j.committed_cents;
    released_cents = j.released_cents;
    refunded_cents = j.refunded_cents;
    available_cents = job_available j;
    scopes = report_scopes job_id (values l.scopes);
  })
]

-- listReservations
unfoldable pub list_reservations : String → Ledger → List (Option Reservation)
list_reservations job_id l = elim (lookup job_id l.jobs) [
  | none ↦ []
  | some j ↦ map (λ id. lookup id l.reservations) j.reservations
]
