-- ===== src/Budget/Spend.antt =====
-- reserve, commit, release and meter of packages/budget/ledger.mjs.
use coreguard.Prelude.{
  ℕ, suc, ◌+◌, ◌-◌, String, Bool, true, false, not, ◌==◌, Option, none, some, [], ◌∷◌, ◌++◌,
  if◌then◌else◌, ℤ, lookup,
}
use mathlib.Core.Option
use coreguard.Budget.State.{
  ReservationState, CostSource, RefusalCode, Amount, Job, Scope, Reservation, Ledger,
  is_positive_int, cents, reservation_id, job_available, exceeds,
}
use coreguard.Budget.Calls.{
  Action, Refusal, refusal, Thrown, pure, gets, or_refuse, refuse_if, throw_if, modify, ◌>>=◌, ◌>>◌,
}
use coreguard.Budget.Access.{
  require_job, scope_of, set_job, set_scope, set_reservation, open_scope_of, available_to,
}

-- The fields of `reserve`'s and `meter`'s argument.
pub record Cost : Type 0 where
  pub job_id : String
  pub scope_id : Option String
  pub amount_cents : Amount
  pub source : CostSource
  pub reason : Option String

abbrev pub is_unlisted : CostSource → Bool
is_unlisted CostSource.unlisted = true
is_unlisted _ = false

abbrev pub overrun_code : Option Scope → RefusalCode
overrun_code none = RefusalCode.exceeds_job_ceiling
overrun_code (some s) = RefusalCode.exceeds_scope_share

unfoldable pub overrun : Cost → Job → Option Scope → Refusal
overrun c j s = record (refusal (overrun_code s)) {
  requested_cents = some c.amount_cents;
  available_cents = some (available_to j s);
}

unfoldable pub new_reservation : Cost → String → Reservation
unfolding cents
new_reservation c id = record {
  reservation_id = id;
  job_id = c.job_id;
  scope_id = c.scope_id;
  amount_cents = cents c.amount_cents;
  source = c.source;
  reason = c.reason;
  state = ReservationState.reserved;
}

-- `reservedCents += amountCents`, on a job and on a scope.
unfoldable pub charged_job : Job → ℕ → Job
charged_job j amount = record j { reserved_cents = j.reserved_cents + amount }

unfoldable pub charged_scope : Scope → ℕ → Scope
charged_scope s amount = record s { reserved_cents = s.reserved_cents + amount }

-- The same write on the scope that a cost names, if it names one that exists.
unfoldable pub write_scope :
    String → Option String → Option Scope → (Scope → Scope) → Ledger → Ledger
unfolding set_scope
write_scope job_id (some scope_id) (some s) f = set_scope job_id scope_id (f s)
write_scope job_id _ _ f = λ l. l

-- The writes of `reserve`, in the source's order.
unfoldable pub book : Cost → Job → Option Scope → String → Ledger → Ledger
unfolding cents set_job set_reservation charged_job charged_scope write_scope new_reservation
book c j s id l =
    write_scope c.job_id c.scope_id s (λ t. charged_scope t (cents c.amount_cents))
      (set_job c.job_id
        (charged_job (record j { reservations = j.reservations ++ id ∷ [] }) (cents c.amount_cents))
        (set_reservation id (new_reservation c id) (record l { seq = suc l.seq })))

-- What is left once the amount is taken.
unfoldable pub available_after : Job → Option Scope → ℕ → ℤ
unfolding available_to charged_job charged_scope
available_after j none amount = available_to (charged_job j amount) none
available_after j (some s) amount = available_to j (some (charged_scope s amount))

abbrev pub unknown_refusal : Amount → Refusal
unknown_refusal amount = record (refusal RefusalCode.unknown_amount) {
  requested_cents = some amount;
}

pub record Reserved : Type 0 where
  pub reservation_id : String
  pub job_id : String
  pub scope_id : Option String
  pub amount_cents : ℕ
  pub source : CostSource
  pub available_cents : ℤ

abbrev pub or_job : Option String → String → String
or_job none job_id = job_id
or_job (some scope_id) job_id = if scope_id == "" then job_id else scope_id

abbrev pub is_reserved : ReservationState → Bool
is_reserved ReservationState.reserved = true
is_reserved _ = false

abbrev pub closed_refusal : Reservation → Refusal
closed_refusal r = record (refusal RefusalCode.reservation_closed) {
  reservation_state = some r.state;
}

-- The guards that `commit` and `release` share.
unfoldable pub open_reservation : String → String → Action Reservation
open_reservation job_id id = do
  r ← or_refuse (← gets (λ l. lookup id l.reservations)) (refusal RefusalCode.no_such_reservation)
  refuse_if (not (r.job_id == job_id)) (refusal RefusalCode.no_such_reservation)
  refuse_if (not (is_reserved r.state)) (closed_refusal r)
  pure r

unfoldable pub scope_of_reservation : String → Reservation → Ledger → Option Scope
unfolding scope_of
scope_of_reservation job_id r l = elim r.scope_id [
  | none ↦ none
  | some scope_id ↦ scope_of job_id scope_id l
]

-- `reservedCents -= amountCents`, and `committedCents += amountCents` where the cost happened.
unfoldable pub freed_job : Job → ℕ → Job
freed_job j amount = record j { reserved_cents = j.reserved_cents - amount }

unfoldable pub freed_scope : Scope → ℕ → Scope
freed_scope s amount = record s { reserved_cents = s.reserved_cents - amount }

unfoldable pub spent_job : Job → ℕ → Job
spent_job j amount = record j {
  reserved_cents = j.reserved_cents - amount;
  committed_cents = j.committed_cents + amount;
}

unfoldable pub spent_scope : Scope → ℕ → Scope
spent_scope s amount = record s {
  reserved_cents = s.reserved_cents - amount;
  committed_cents = s.committed_cents + amount;
}

-- The writes of `commit` and `release`: the job, the scope, and the reservation's state.
unfoldable pub close :
    String
    → String
    → Reservation
    → (Job → ℕ → Job)
    → (Scope → ℕ → Scope)
    → ReservationState
    → Job
    → Ledger
    → Ledger
unfolding set_job set_reservation write_scope scope_of_reservation
close job_id id r on_job on_scope state j l =
    set_reservation id (record r { state = state })
      (write_scope job_id r.scope_id (scope_of_reservation job_id r l)
        (λ s. on_scope s r.amount_cents) (set_job job_id (on_job j r.amount_cents) l))

pub record Committed : Type 0 where
  pub reservation_id : String
  pub amount_cents : ℕ
  pub committed_cents : ℕ

-- commit
unfoldable pub commit : String → String → Action Committed
unfolding require_job open_reservation
commit job_id id = do
  j ← require_job job_id
  r ← open_reservation job_id id
  modify (close job_id id r spent_job spent_scope ReservationState.committed j)
  pure (record {
    reservation_id = id;
    amount_cents = r.amount_cents;
    committed_cents = j.committed_cents + r.amount_cents;
  })

pub record Released : Type 0 where
  pub reservation_id : String
  pub amount_cents : ℕ
  pub reserved_cents : ℕ

-- release
unfoldable pub release : String → String → Action Released
unfolding require_job open_reservation
release job_id id = do
  j ← require_job job_id
  r ← open_reservation job_id id
  modify (close job_id id r freed_job freed_scope ReservationState.released j)
  pure (record {
    reservation_id = id;
    amount_cents = r.amount_cents;
    reserved_cents = j.reserved_cents - r.amount_cents;
  })

pub record Metered : Type 0 where
  pub committed : Committed
  pub source : CostSource
  pub available_cents : Option ℤ

module _ (sha256_hex : String → String) where
  -- reserve
  unfoldable pub reserve : Cost → Action Reserved
  unfolding require_job
  reserve c = do
    j ← require_job c.job_id
    throw_if (is_unlisted c.source) Thrown.bad_source
    refuse_if (not (is_positive_int c.amount_cents)) (unknown_refusal c.amount_cents)
    s ← open_scope_of c.job_id c.scope_id
    refuse_if (exceeds (cents c.amount_cents) (available_to j s)) (overrun c j s)
    n ← gets (λ l. suc l.seq)
    let id = reservation_id sha256_hex c.job_id (or_job c.scope_id c.job_id) n
    modify (book c j s id)
    pure (record {
      reservation_id = id;
      job_id = c.job_id;
      scope_id = c.scope_id;
      amount_cents = cents c.amount_cents;
      source = c.source;
      available_cents = available_after j s (cents c.amount_cents);
    })

  -- meter
  unfoldable pub meter : Cost → Action Metered
  meter c = do
    r ← reserve c
    done ← commit c.job_id r.reservation_id
    available ← gets (λ l. Option.map job_available (lookup c.job_id l.jobs))
    pure (record { committed = done; source = c.source; available_cents = available })
