-- ===== src/Budget/AccountWrites.antt =====
-- What the writes of packages/budget/ledger.mjs do to the accounts that its ledger stands for.
use coreguard.Prelude.{
  ℕ, suc, String, ◌≡◌, refl, false, Option, none, some, arith, lookup, insert, lookup-insert,
  eq_iff,
}
use coreguard.Budget.{
  Job, Scope, Reservation, ReservationState, Ledger, Cost, set_job, set_scope, set_reservation,
  close, scope_of_reservation, is_reserved, book, charged_scope, cents, new_reservation,
}
use coreguard.Budget.Accounts.{
  Charge, Accounts, put, write, account_of, account, charge, accounts_of,
}
use coreguard.Budget.Reservations.{write_scope-frame, booked_job}

-- The accounts of a ledger, by what its maps give.
accounts_of-≡ :
    (l : Ledger) (v : Accounts)
    → ((k : String) → account (lookup k l.jobs) ≡ v.accounts k)
    → ((id : String) → charge (lookup id l.reservations) ≡ v.waiting id)
    → accounts_of l ≡ v
unfolding accounts_of
accounts_of-≡ l v p q = λ i. record { accounts = λ k. p k i; waiting = λ id. q id i }

account-insert :
    (k : String) (j : Job) (l : Ledger) (asked : String)
    → account (lookup asked (insert k j l.jobs))
      ≡ put k (some (account_of j)) (accounts_of l).accounts asked
unfolding accounts_of
account-insert k j l asked = ground (arith, lookup-insert k asked j l.jobs)

charge-insert :
    (id : String) (r : Reservation) (c : Option Charge) (l : Ledger) (asked : String)
    → charge (some r) ≡ c
    → charge (lookup asked (insert id r l.reservations)) ≡ put id c (accounts_of l).waiting asked
unfolding accounts_of
charge-insert id r c l asked e = ground (arith, lookup-insert id asked r l.reservations)

-- A write to a job that leaves its account.
pub set_job-accounts :
    (l : Ledger) (k : String) (j j' : Job)
    → lookup k l.jobs ≡ some j
    → account_of j' ≡ account_of j
    → accounts_of (set_job k j' l) ≡ accounts_of l
unfolding accounts_of set_job
set_job-accounts l k j j' e same =
    accounts_of-≡ (set_job k j' l) (accounts_of l)
      (λ asked. ground (arith, lookup-insert k asked j' l.jobs, eq_iff k asked)) (λ id. refl)

pub set_scope-accounts :
    (l : Ledger) (job_id scope_id : String) (s : Scope)
    → accounts_of (set_scope job_id scope_id s l) ≡ accounts_of l
unfolding accounts_of set_scope
set_scope-accounts l job_id scope_id s = refl

module _ (job_id id : String) (l : Ledger) (j : Job) (r : Reservation) (state : ReservationState)
    (closed : is_reserved state ≡ false) where
  pub close-accounts :
      (on_job : Job → ℕ → Job) (on_scope : Scope → ℕ → Scope)
      → accounts_of (close job_id id r on_job on_scope state j l)
        ≡ write job_id (account_of (on_job j r.amount_cents)) id none (accounts_of l)
  unfolding close set_job set_reservation
  close-accounts on_job on_scope =
      let frame =
        write_scope-frame job_id r.scope_id (scope_of_reservation job_id r l)
          (λ t. on_scope t r.amount_cents) (set_job job_id (on_job j r.amount_cents) l) in
      accounts_of-≡ (close job_id id r on_job on_scope state j l) _
        (λ k. rw frame.0 (account-insert job_id (on_job j r.amount_cents) l k))
        (λ k. rw frame.1 (charge-insert id (record r { state = state }) none l k (rw closed refl)))

pub book-accounts :
    (c : Cost) (l : Ledger) (j : Job) (s : Option Scope) (id : String)
    → accounts_of (book c j s id l)
      ≡ write c.job_id
          (account_of (booked_job c j id))
          id
          (some (record { job_id = c.job_id; amount_cents = cents c.amount_cents }))
          (accounts_of l)
unfolding book set_job set_reservation new_reservation
book-accounts c l j s id =
    let based =
      set_job c.job_id (booked_job c j id)
        (set_reservation id (new_reservation c id) (record l { seq = suc l.seq })) in
    let frame =
      write_scope-frame c.job_id c.scope_id s (λ t. charged_scope t (cents c.amount_cents)) based in
    accounts_of-≡ (book c j s id l) _
      (λ k. rw frame.0 (account-insert c.job_id (booked_job c j id) l k))
      (λ k. rw frame.1 (charge-insert id (new_reservation c id) _ l k refl))

pub set_job-adds :
    (k : String) (j : Job) (l : Ledger)
    → accounts_of (set_job k j l)
      ≡ record (accounts_of l) { accounts = put k (some (account_of j)) (accounts_of l).accounts }
unfolding set_job accounts_of
set_job-adds k j l = accounts_of-≡ (set_job k j l) _ (account-insert k j l) (λ id. refl)
