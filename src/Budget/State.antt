-- ===== src/Budget/State.antt =====
-- The records and maps inside `createBudgetLedger` (packages/budget/ledger.mjs), its closed
-- vocabularies, and the keys of its maps.
use Prim.Native.Nat.{◌/◌, ◌%◌}
use Prim.Native.String.{slice}
use Prim.Native.String
use coreguard.Prelude.{
  ℕ, zero, suc, ◌+◌, String, Bool, true, false, Option, List, ltb, if◌then◌else◌, ℤ, pos, negsuc,
  sub_ℕ, Dict,
}

-- BUDGET_JOB_STATES
pub data JobState : Type 0 where
  opened held released refunded : JobState

-- RESERVATION_STATES
pub data ReservationState : Type 0 where
  reserved committed released : ReservationState

-- The only value that the source ever writes is "OPEN"; its guards compare with it.
pub data ScopeState : Type 0 where
  opened closed : ScopeState

-- COST_SOURCES, and any other value of the argument.
pub data CostSource : Type 0 where
  settlement metered unlisted : CostSource

-- The targets of `disposition`, and any other value of the argument.
pub data Target : Type 0 where
  released refunded held unlisted : Target

-- REFUSAL_CODES
pub data RefusalCode : Type 0 where
  no_such_job no_such_scope scope_closed unknown_amount exceeds_scope_share exceeds_job_ceiling
        no_such_reservation reservation_closed nothing_held invalid_disposition :
      RefusalCode

-- A JavaScript value where an amount is expected: an integer, or anything else.
pub data Amount : Type 0 where
  integer : ℤ → Amount
  not_integer : Amount

-- isPositiveInt
unfoldable pub is_positive_int : Amount → Bool
is_positive_int (Amount.integer (pos n)) = ltb 0 n
is_positive_int (Amount.integer (negsuc n)) = false
is_positive_int Amount.not_integer = false

-- The number in an amount that `is_positive_int` has let through.
unfoldable pub cents : Amount → ℕ
cents (Amount.integer (pos n)) = n
cents (Amount.integer (negsuc n)) = 0
cents Amount.not_integer = 0

pub record Job : Type 0 where
  pub job_id : String
  pub currency : String
  pub ceiling_cents : ℕ
  pub state : JobState
  pub held_cents : ℕ
  pub released_cents : ℕ
  pub refunded_cents : ℕ
  pub committed_cents : ℕ
  pub reserved_cents : ℕ
  pub child_shares_cents : ℕ
  pub reservations : List String

pub record Scope : Type 0 where
  pub job_id : String
  pub scope_id : String
  pub parent_scope_id : Option String
  pub share_cents : ℕ
  pub child_shares_cents : ℕ
  pub reserved_cents : ℕ
  pub committed_cents : ℕ
  pub state : ScopeState

pub record Reservation : Type 0 where
  pub reservation_id : String
  pub job_id : String
  pub scope_id : Option String
  pub amount_cents : ℕ
  pub source : CostSource
  pub reason : Option String
  pub state : ReservationState

-- What the closure of `createBudgetLedger` holds.
pub record Ledger : Type 0 where
  pub currency : String
  pub jobs : Dict Job
  pub scopes : Dict Scope
  pub reservations : Dict Reservation
  pub seq : ℕ

-- scopeKey
unfoldable pub scope_key : String → String → String
scope_key job_id scope_id = String.◌++◌ job_id (String.◌++◌ "::" scope_id)

-- A decimal digit, and a number as a template literal prints it. A number has at most as many
-- digits as its value plus one, which is the fuel.
unfoldable pub digit : ℕ → String
digit n = slice "0123456789" n (suc n)

unfoldable pub decimal_from : ℕ → ℕ → String → String
unfolding digit
decimal_from zero n acc = acc
decimal_from (suc fuel) n acc =
    let more = decimal_from fuel (n / 10) (String.◌++◌ (digit (n % 10)) acc) in
    if ltb n 10 then String.◌++◌ (digit n) acc else more

unfoldable pub decimal : ℕ → String
unfolding decimal_from
decimal n = decimal_from (suc n) n ""

-- reservationId: `sha256_hex` is the hex digest of `node:crypto`.
unfoldable pub reservation_id : (String → String) → String → String → ℕ → String
unfolding decimal
reservation_id sha256_hex job_id scope_id seq = String.◌++◌ "res_" (slice (sha256_hex text) 0 16)
  where
    text : String
    text =
        String.◌++◌ job_id (String.◌++◌ "|" (String.◌++◌ scope_id (String.◌++◌ "|" (decimal seq))))

-- jobAvailable and scopeAvailable: differences that may be negative.
unfoldable pub job_available : Job → ℤ
job_available j =
    sub_ℕ j.ceiling_cents (j.child_shares_cents + j.reserved_cents + j.committed_cents)

unfoldable pub scope_available : Scope → ℤ
scope_available s =
    sub_ℕ s.share_cents (s.child_shares_cents + s.reserved_cents + s.committed_cents)

-- `amount > available`
unfoldable pub exceeds : ℕ → ℤ → Bool
exceeds amount (pos n) = ltb n amount
exceeds amount (negsuc n) = true
