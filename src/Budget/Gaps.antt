-- ===== src/Budget/Gaps.antt =====
-- Where packages/budget/ledger.mjs spends more than the job's ceiling: the lock of `hold` and the
-- amounts released from it are counted apart from what is reserved, and two jobs can share a key.
use Prim.Native.String
use coreguard.Prelude.{
  [], ◌∷◌, ◌++◌, ℕ, zero, suc, ◌+◌, ◌-◌, negsuc, ◌*◌, ◌≤◌, ◌<◌, String, ◌≡◌, refl, ap, subst, ◌∙◌,
  true, Option, none, some, arith, lookup, insert, pos, lookup-insert_self,
}
use coreguard.Budget.{
  Job, Scope, Ledger, Amount, Target, Cost, CostSource, cents, is_positive_int, exceeds, hold,
  holdable, disposition, disposed_job, amount_of, set_job, reserve, book, write_scope, set_scope,
  charged_job, set_reservation, open_scope_of, available_to, job_available, scope_available,
  scope_of, ScopeState,
}
use coreguard.Budget.Keys.{scope_key_shared}
use coreguard.Budget.Locks.{locked_job}
use coreguard.Budget.Outcomes.{succeeded, next_id}

abbrev whole : ℕ → Amount
whole n = Amount.integer (pos n)

-- One round of escrow: lock `n` and release it.
pub hold_and_release : String → ℕ → Ledger → Ledger
hold_and_release job_id n l =
    (disposition job_id Target.released none none (hold job_id (whole n) l).1).1

pub rounds : ℕ → String → ℕ → Ledger → Ledger
rounds zero job_id n l = l
rounds (suc k) job_id n l = rounds k job_id n (hold_and_release job_id n l)

-- A job with no lock and with room for `n`.
abbrev pub HasRoom : String → ℕ → ℕ → Ledger → Type 0
HasRoom job_id n paid l =
    (j : Job) × (lookup job_id l.jobs ≡ some j)
    × (j.held_cents ≡ 0)
    × (n + j.committed_cents + j.reserved_cents ≤ j.ceiling_cents)
    × (j.released_cents ≡ paid)

hold_and_release-HasRoom :
    (job_id : String) (n paid : ℕ) (l : Ledger)
    → 0 < n
    → HasRoom job_id n paid l
    → HasRoom job_id n (paid + n) (hold_and_release job_id n l)
unfolding hold_and_release hold disposition set_job is_positive_int cents exceeds holdable amount_of
    disposed_job
hold_and_release-HasRoom job_id n paid l p (j, ej, unlocked, room, e) = (
  disposed_job Target.released (locked_job j n) n,
  ground (
    arith,
    lookup-insert_self job_id (locked_job j n) l.jobs,
    lookup-insert_self job_id (disposed_job Target.released (locked_job j n) n)
        (insert job_id (locked_job j n) l.jobs),
  ),
  omega arith,
  omega arith,
  omega arith,
)

-- From a job that holds nothing and whose ceiling leaves room for an amount above zero, any
-- number of rounds that lock and release the amount all succeed: `k` rounds release `k` times the
-- amount, and the room is still there.
pub rounds_release :
    (k : ℕ) (job_id : String) (n paid : ℕ) (l : Ledger)
    → 0 < n
    → HasRoom job_id n paid l
    → HasRoom job_id n (paid + k * n) (rounds k job_id n l)
unfolding rounds
rounds_release zero job_id n paid l p h = subst (λ t. HasRoom job_id n t l) (omega arith) h
rounds_release (suc k) job_id n paid l p h =
    subst (λ t. HasRoom job_id n t (rounds k job_id n (hold_and_release job_id n l))) (grind arith)
      (rounds_release k job_id n (paid + n) (hold_and_release job_id n l) p
        (hold_and_release-HasRoom job_id n paid l p h))

-- The id `a::b`.
abbrev pub nested_id : String → String → String
nested_id a b = String.◌++◌ a (String.◌++◌ "::" b)

abbrev pub root_cost : String → ℕ → Cost
root_cost job_id n = record {
  job_id = job_id;
  scope_id = none;
  amount_cents = whole n;
  source = CostSource.settlement;
  reason = none;
}

abbrev pub scope_cost : String → String → ℕ → Cost
scope_cost job_id scope_id n = record {
  job_id = job_id;
  scope_id = some scope_id;
  amount_cents = whole n;
  source = CostSource.settlement;
  reason = none;
}

write_scope-jobs :
    (job_id : String) (o : Option String) (s : Option Scope) (f : Scope → Scope) (l : Ledger)
    → (write_scope job_id o s f l).jobs ≡ l.jobs
unfolding write_scope set_scope
write_scope-jobs job_id (some scope_id) (some s) f l = refl
write_scope-jobs job_id none _ f l = refl
write_scope-jobs job_id _ none f l = refl

module _ (sha256_hex : String → String) where
  -- In a job that holds nothing, and whose ceiling leaves room for an amount above zero beside
  -- what is reserved, committed and carved, that amount can be locked and then reserved as well:
  -- the lock is not counted.
  pub hold-reserve :
      (job_id : String) (n : ℕ) (l : Ledger) (j : Job)
      → lookup job_id l.jobs ≡ some j
      → j.held_cents ≡ 0
      → 0 < n
      → n + j.child_shares_cents + j.reserved_cents + j.committed_cents ≤ j.ceiling_cents
      → let (answer, l') = reserve sha256_hex (root_cost job_id n) (hold job_id (whole n) l).1 in
        (succeeded answer ≡ true)
        × (j' : Job) × (lookup job_id l'.jobs ≡ some j')
        × (j'.ceiling_cents ≡ j.ceiling_cents)
        × (j'.held_cents ≡ n)
        × (j'.reserved_cents ≡ j.reserved_cents + n)
  unfolding hold reserve book write_scope charged_job set_reservation set_job is_positive_int cents
      exceeds holdable open_scope_of available_to job_available
  hold-reserve job_id n l j ej unlocked p room = (
    ground (arith, lookup-insert_self job_id (locked_job j n) l.jobs),
    charged_job
        (record (locked_job j n) {
          reservations = j.reservations ++ next_id sha256_hex (root_cost job_id n) l ∷ [];
        })
        n,
    ground (
      arith,
      lookup-insert_self job_id (locked_job j n) l.jobs,
      lookup-insert_self job_id
          (charged_job
            (record (locked_job j n) {
              reservations = j.reservations ++ next_id sha256_hex (root_cost job_id n) l ∷ [];
            })
            n)
          (insert job_id (locked_job j n) l.jobs),
    ),
    refl,
    refl,
    refl,
  )

  -- Of jobs `a` and `a::b`, where the first has an open scope `b::c` with room for an amount
  -- above zero, the second can reserve that amount in its scope `c`, whatever its own ceiling.
  pub reserve_shared_key :
      (a b c : String) (n : ℕ) (l : Ledger) (s : Scope) (j : Job)
      → scope_of a (nested_id b c) l ≡ some s
      → s.state ≡ ScopeState.opened
      → 0 < n
      → n + s.child_shares_cents + s.reserved_cents + s.committed_cents ≤ s.share_cents
      → lookup (nested_id a b) l.jobs ≡ some j
      → succeeded (reserve sha256_hex (scope_cost (nested_id a b) c n) l).0 ≡ true
  unfolding reserve is_positive_int cents exceeds open_scope_of scope_of available_to
      scope_available
  reserve_shared_key a b c n l s j es open_s p room ej = ground (arith, scope_key_shared a b c)

-- Once a job has carved its whole ceiling into scopes, a booking of an amount above zero leaves
-- what the job has available below zero, by all that it has reserved and committed.
pub reserve-job_available :
    (c : Cost) (l : Ledger) (j : Job) (s : Option Scope) (id : String)
    → 0 < cents c.amount_cents
    → j.child_shares_cents ≡ j.ceiling_cents
    → (j' : Job) × (lookup c.job_id (book c j s id l).jobs ≡ some j')
      × (job_available j'
          ≡ negsuc (j.reserved_cents + j.committed_cents + cents c.amount_cents - 1))
unfolding book set_job set_reservation charged_job job_available
reserve-job_available c l j s id p full = (
  charged_job (record j { reservations = j.reservations ++ id ∷ [] }) (cents c.amount_cents),
  ap (lookup c.job_id) (write_scope-jobs c.job_id c.scope_id s _ _)
      ∙ lookup-insert_self c.job_id _ l.jobs,
  ground arith,
)
