-- ===== src/Budget/Runs.antt =====
-- Runs of packages/budget/ledger.mjs: any sequence of calls on a fresh ledger keeps every job under
-- its ceiling and every scope within its share.
use coreguard.Prelude.{
  ◌+◌, ◌≤◌, String, ◌≡◌, refl, sym, subst, ◌⊎◌, inl, inr, true, Option, none, some, arith, lookup,
  sum_by, AllValues-lookup,
}
use coreguard.Budget.{
  Job, Scope, Ledger, Amount, Target, Cost, ok, refused, threw, Answer, Reserved,
  create_budget_ledger, new_job, new_scope, open_job, open_scope, reserve, commit, release, meter,
  hold, disposition, book, new_reservation,
}
use coreguard.Budget.Books.{IsWithin, IsValid, spending-le-ceiling}
use coreguard.Budget.Keys.{colon_free}
use coreguard.Budget.Outcomes.{next_id, succeeded, reserve_outcome}
use coreguard.Budget.Endings.{commit-IsOpen}
use coreguard.Budget.Reservations.{booked_job, book-IsOpen}
use coreguard.Budget.Booking.{reserve-IsValid}
use coreguard.Budget.Preservation.{commit-IsValid, release-IsValid}
use coreguard.Budget.Allocation.{open_scope-IsValid}
use coreguard.Budget.Opening.{open_job-IsValid}
use coreguard.Budget.Locks.{hold-IsValid, disposition-IsValid}

-- A fresh ledger has valid books.
pub create_budget_ledger-IsValid : (currency : String) → IsValid (create_budget_ledger currency)
unfolding create_budget_ledger lookup sum_by new_job new_scope
create_budget_ledger-IsValid currency = record {
  jobs = λ k. record { shares = refl; subshares = refl; covered = omega arith; owed = refl };
  scopes = λ key. refl;
  within = tt;
  named = λ key s e. cc;
}

module _ (sha256_hex : String → String) where
  -- After `meter` the state is that of its `reserve`, or that of a `commit` after it.
  pub meter_state :
      (c : Cost) (l : Ledger) (a : Answer Reserved) (l' : Ledger)
      → reserve sha256_hex c l ≡ (a, l')
      → ((meter sha256_hex c l).1 ≡ l')
        ⊎ ((id : String) × ((meter sha256_hex c l).1 ≡ (commit c.job_id id l').1))
  unfolding meter
  meter_state c l (ok r) l' e = inr (r.reservation_id, ground arith)
  meter_state c l (refused r) l' e = inl (ground arith)
  meter_state c l (threw t) l' e = inl (ground arith)

  pub meter-IsValid :
      (c : Cost) (l : Ledger)
      → IsValid l
      → colon_free c.job_id ≡ true
      → lookup (next_id sha256_hex c l) l.reservations ≡ none
      → IsValid (meter sha256_hex c l).1
  meter-IsValid c l v free fresh =
      let v' = reserve-IsValid sha256_hex c l v free fresh in
      elim (meter_state c l (reserve sha256_hex c l).0 (reserve sha256_hex c l).1 refl) [
        | inl e ↦ subst IsValid (sym e) v'
        | inr (id, e) ↦ subst IsValid (sym e) (commit-IsValid c.job_id id _ v' free)
      ]

  commit-book :
      (c : Cost) (l : Ledger) (j : Job) (s : Option Scope) (id : String)
      → succeeded (commit c.job_id id (book c j s id l)).0 ≡ true
  commit-book c l j s id =
      (commit-IsOpen c.job_id id (book c j s id l) (booked_job c j id) (new_reservation c id)
        (book-IsOpen c l j s id)).0

  -- `meter` succeeds exactly when `reserve` of the same cost does.
  pub meter-succeeds :
      (c : Cost) (l : Ledger)
      → succeeded (meter sha256_hex c l).0 ≡ succeeded (reserve sha256_hex c l).0
  unfolding meter
  meter-succeeds c l = elim (reserve_outcome sha256_hex c l) [
    | inl same ↦ ground arith
    | inr (j, s, fits, e) ↦ ground (arith, commit-book c l j s (next_id sha256_hex c l), e)
  ]

  -- One call. Ids of jobs have no colon, and the digest gives each reservation a new id.
  pub data Step (l : Ledger) : Ledger → Type 0 where
    opens : (job_id : String) (ceiling : Amount) → Step l (open_job job_id ceiling l).1
    carves :
        (job_id scope_id : String) (parent : Option String) (share : Amount)
        → colon_free job_id ≡ true
        → Step l (open_scope job_id scope_id parent share l).1
    reserves :
        (c : Cost)
        → colon_free c.job_id ≡ true
        → lookup (next_id sha256_hex c l) l.reservations ≡ none
        → Step l (reserve sha256_hex c l).1
    meters :
        (c : Cost)
        → colon_free c.job_id ≡ true
        → lookup (next_id sha256_hex c l) l.reservations ≡ none
        → Step l (meter sha256_hex c l).1
    commits : (job_id id : String) → colon_free job_id ≡ true → Step l (commit job_id id l).1
    releases : (job_id id : String) → colon_free job_id ≡ true → Step l (release job_id id l).1
    holds : (job_id : String) (amount : Amount) → Step l (hold job_id amount l).1
    disposes :
        (job_id : String) (to : Target) (amount : Option Amount) (reason : Option String)
        → Step l (disposition job_id to amount reason l).1

  pub Step-IsValid : {l l' : Ledger} → Step l l' → IsValid l → IsValid l'
  Step-IsValid {l} (opens job_id ceiling) v = open_job-IsValid job_id ceiling l v
  Step-IsValid {l} (carves job_id scope_id parent share free) v =
      open_scope-IsValid job_id scope_id parent share l v free
  Step-IsValid {l} (reserves c free fresh) v = reserve-IsValid sha256_hex c l v free fresh
  Step-IsValid {l} (meters c free fresh) v = meter-IsValid c l v free fresh
  Step-IsValid {l} (commits job_id id free) v = commit-IsValid job_id id l v free
  Step-IsValid {l} (releases job_id id free) v = release-IsValid job_id id l v free
  Step-IsValid {l} (holds job_id amount) v = hold-IsValid job_id amount l v
  Step-IsValid {l} (disposes job_id to amount reason) v =
      disposition-IsValid job_id to amount reason l v

  pub data Reach (currency : String) : Ledger → Type 0 where
    start : Reach currency (create_budget_ledger currency)
    next : {l l' : Ledger} → Reach currency l → Step l l' → Reach currency l'

  -- After any run of calls the books are valid: what a job has carved is the sum of the shares of its
  -- top scopes; what its scopes have carved is the sum of the shares of its nested scopes; what it has
  -- reserved, committed and carved is at most its ceiling and what its scopes have reserved and
  -- committed; what a job, or a scope, has reserved is the sum of its open reservations; a scope is
  -- within its share and stands under the key of its job and name, and its job's id has no colon.
  pub Reach-IsValid : {currency : String} {l : Ledger} → Reach currency l → IsValid l
  Reach-IsValid {currency} start = create_budget_ledger-IsValid currency
  Reach-IsValid (next r s) = Step-IsValid s (Reach-IsValid r)

  -- After any run of ledger calls from a fresh ledger, in which job ids have no colon and each
  -- new reservation gets an id that is not in use, what a job has reserved and committed is at
  -- most its ceiling.
  pub Reach-ceiling :
      (currency : String) (l : Ledger) (k : String) (j : Job)
      → Reach currency l
      → lookup k l.jobs ≡ some j
      → j.reserved_cents + j.committed_cents ≤ j.ceiling_cents
  Reach-ceiling currency l k j r e = ground (arith, e, spending-le-ceiling k l (Reach-IsValid r))

  -- After any such run, what a scope has reserved, committed and given to its own scopes is at
  -- most its share.
  pub Reach-share :
      (currency : String) (l : Ledger) (key : String) (s : Scope)
      → Reach currency l
      → lookup key l.scopes ≡ some s
      → s.child_shares_cents + s.reserved_cents + s.committed_cents ≤ s.share_cents
  Reach-share currency l key s r e =
      AllValues-lookup IsWithin key s l.scopes (Reach-IsValid r).within e
