-- ===== src/Budget/Refinement.antt =====
-- The ledger of packages/budget/ledger.mjs does what its accounts allow.
use coreguard.Prelude.{
  ℕ, ◌+◌, ◌≤◌, String, ◌≡◌, refl, sym, ap, ◌∙◌, subst, inl, inr, true, Option, none, some, arith,
  lookup,
}
use coreguard.Budget.{
  Job, Scope, ReservationState, Ledger, Amount, Target, Cost, open_job, open_scope, reserve, commit,
  release, meter, hold, disposition, create_budget_ledger, set_scope, spent_job, spent_scope,
  freed_job, freed_scope, book, charged_job, cents, new_job, is_positive_int, debit_parent,
  disposed_job,
}
use coreguard.Budget.Accounts.{
  Accounts, Allows, Evolves, no_accounts, account_of, account, charge, accounts_of,
}
use coreguard.Budget.Books.{IsValid, spending-le-ceiling}
use coreguard.Budget.Keys.{colon_free}
use coreguard.Budget.Outcomes.{next_id, reserve_outcome}
use coreguard.Budget.Endings.{commit_outcome, release_outcome}
use coreguard.Budget.Carving.{open_scope_outcome}
use coreguard.Budget.Closing.{due-le-job}
use coreguard.Budget.Locks.{locked_job, hold_outcome, disposition_outcome}
use coreguard.Budget.Opening.{open_job_outcome}
use coreguard.Budget.Booking.{reserve-IsValid}
use coreguard.Budget.Reservations.{book-IsOpen}
use coreguard.Budget.Runs.{Step, Reach, meter_state, Reach-IsValid}
use coreguard.Budget.AccountWrites.{
  set_job-accounts, set_scope-accounts, close-accounts, book-accounts, set_job-adds,
}

-- A step of the ledger that leaves its accounts, and one that writes them.
unchanged :
    (l l' : Ledger) → accounts_of l' ≡ accounts_of l → Evolves (accounts_of l) (accounts_of l')
unchanged l l' e = subst (Evolves (accounts_of l)) (sym e) Evolves.start

once :
    (l l' : Ledger) (v : Accounts)
    → accounts_of l' ≡ v
    → Allows (accounts_of l) v
    → Evolves (accounts_of l) (accounts_of l')
once l l' v e s = subst (Evolves (accounts_of l)) (sym e) (Evolves.next Evolves.start s)

untouched : (l l' : Ledger) → l' ≡ l → Evolves (accounts_of l) (accounts_of l')
untouched l l' e = unchanged l l' (ap accounts_of e)

open_job-Evolves :
    (job_id : String) (ceiling : Amount) (l : Ledger)
    → Evolves (accounts_of l) (accounts_of (open_job job_id ceiling l).1)
open_job-Evolves job_id ceiling l = elim (open_job_outcome job_id ceiling l) [
  | inl same ↦ untouched _ _ same
  | inr (free, e) ↦
      once _ _ _
        (ap accounts_of e ∙ set_job-adds job_id (new_job job_id l.currency (cents ceiling)) l)
        (unfold new_job accounts_of in (Allows.opens job_id (cents ceiling) (ap account free)))
]

module _ (l : Ledger) (v : IsValid l) (job_id id : String) (free : colon_free job_id ≡ true) where
  commit-Evolves : Evolves (accounts_of l) (accounts_of (commit job_id id l).1)
  commit-Evolves = elim (commit_outcome job_id id l) [
    | inl same ↦ untouched _ _ same.1
    | inr (j, r, o, _, e) ↦
        once _ _ _
          (ap accounts_of e
            ∙ close-accounts job_id id l j r ReservationState.committed refl spent_job spent_scope)
          (unfold spent_job accounts_of in
            (Allows.spends job_id id (account_of j) r.amount_cents (ap account o.job)
              (ground (arith, o.found, o.owner, o.state)) (due-le-job l v job_id id free j r o)))
  ]

  release-Evolves : Evolves (accounts_of l) (accounts_of (release job_id id l).1)
  release-Evolves = elim (release_outcome job_id id l) [
    | inl same ↦ untouched _ _ same.1
    | inr (j, r, o, _, e) ↦
        once _ _ _
          (ap accounts_of e
            ∙ close-accounts job_id id l j r ReservationState.released refl freed_job freed_scope)
          (unfold freed_job accounts_of in
            (Allows.frees job_id id (account_of j) r.amount_cents (ap account o.job)
              (ground (arith, o.found, o.owner, o.state)) (due-le-job l v job_id id free j r o)))
  ]

-- A booking of valid books stays under the ceiling of its job.
booked-le-ceiling :
    (c : Cost) (l : Ledger) (j : Job) (s : Option Scope) (id : String)
    → IsValid (book c j s id l)
    → j.reserved_cents + cents c.amount_cents + j.committed_cents ≤ j.ceiling_cents
unfolding charged_job
booked-le-ceiling c l j s id v =
    ground (arith, spending-le-ceiling c.job_id (book c j s id l) v, (book-IsOpen c l j s id).job)

module _ (sha256_hex : String → String) (c : Cost) (l : Ledger) (v : IsValid l)
    (free : colon_free c.job_id ≡ true)
    (fresh : lookup (next_id sha256_hex c l) l.reservations ≡ none) where
  reserve-Evolves : Evolves (accounts_of l) (accounts_of (reserve sha256_hex c l).1)
  reserve-Evolves = elim (reserve_outcome sha256_hex c l) [
    | inl same ↦ untouched _ _ same.1
    | inr (j, s, f, e) ↦
        let id = next_id sha256_hex c l in
        let v' = subst IsValid (ap (λ r. r.1) e) (reserve-IsValid sha256_hex c l v free fresh) in
        once _ _ _ (ap (λ r. accounts_of r.1) e ∙ book-accounts c l j s id) (
          unfold charged_job accounts_of is_positive_int cents in
          (Allows.charges c.job_id id (account_of j) (cents c.amount_cents) (ap account f.found)
            (ap charge fresh) (ground (arith, f.positive)) (booked-le-ceiling c l j s id v')))
  ]

open_scope-accounts :
    (job_id scope_id : String) (parent_id : Option String) (p : Option Scope) (share : ℕ)
    (new : Scope) (l : Ledger) (j : Job)
    → lookup job_id l.jobs ≡ some j
    → accounts_of (set_scope job_id scope_id new (debit_parent job_id j parent_id p share l))
      ≡ accounts_of l
unfolding debit_parent
open_scope-accounts job_id scope_id (some parent_id) (some p) share new l j e =
    set_scope-accounts _ job_id scope_id new ∙ set_scope-accounts l job_id parent_id _
open_scope-accounts job_id scope_id none _ share new l j e =
    set_scope-accounts _ job_id scope_id new ∙ set_job-accounts l job_id j _ e refl
open_scope-accounts job_id scope_id _ none share new l j e =
    set_scope-accounts _ job_id scope_id new ∙ set_job-accounts l job_id j _ e refl

disposed_job-account :
    (to : Target) (j : Job) (a : ℕ) → account_of (disposed_job to j a) ≡ account_of j
unfolding disposed_job
disposed_job-account Target.released j a = refl
disposed_job-account Target.refunded j a = refl
disposed_job-account _ j a = refl

open_scope-Evolves :
    (job_id scope_id : String) (parent_id : Option String) (share : Amount) (l : Ledger)
    → Evolves (accounts_of l) (accounts_of (open_scope job_id scope_id parent_id share l).1)
open_scope-Evolves job_id scope_id parent_id share l =
    elim (open_scope_outcome job_id scope_id parent_id share l) [
      | inl same ↦ untouched _ _ same.1
      | inr (j, p, a, _, e) ↦ unchanged _ _ (
          ap accounts_of e
          ∙ open_scope-accounts job_id scope_id parent_id p (cents share) _ l j a.found)
    ]

hold-Evolves :
    (job_id : String) (amount : Amount) (l : Ledger)
    → Evolves (accounts_of l) (accounts_of (hold job_id amount l).1)
hold-Evolves job_id amount l = elim (hold_outcome job_id amount l) [
  | inl same ↦ untouched _ _ same.1
  | inr (j, h, _, e) ↦
      unchanged _ _
        (ap accounts_of e ∙ set_job-accounts l job_id j (locked_job j (cents amount)) h.found refl)
]

disposition-Evolves :
    (job_id : String) (to : Target) (amount : Option Amount) (reason : Option String) (l : Ledger)
    → Evolves (accounts_of l) (accounts_of (disposition job_id to amount reason l).1)
disposition-Evolves job_id to amount reason l =
    elim (disposition_outcome job_id to amount reason l) [
      | inl same ↦ untouched _ _ same.1
      | inr (j, d, _, e) ↦
          unchanged _ _
            (ap accounts_of e ∙ set_job-accounts l job_id j _ d.found (disposed_job-account to j _))
    ]

module _ (sha256_hex : String → String) where
  Evolves-trans : {u v w : Accounts} → Evolves u v → Evolves v w → Evolves u w
  Evolves-trans r Evolves.start = r
  Evolves-trans r (Evolves.next q s) = Evolves.next (Evolves-trans r q) s

  meter-Evolves :
      (c : Cost) (l : Ledger)
      → IsValid l
      → colon_free c.job_id ≡ true
      → lookup (next_id sha256_hex c l) l.reservations ≡ none
      → Evolves (accounts_of l) (accounts_of (meter sha256_hex c l).1)
  meter-Evolves c l v free fresh =
      let l' = (reserve sha256_hex c l).1 in
      let booked = reserve-Evolves sha256_hex c l v free fresh in
      let v' = reserve-IsValid sha256_hex c l v free fresh in
      elim (meter_state sha256_hex c l (reserve sha256_hex c l).0 l' refl) [
        | inl e ↦ Evolves-trans booked (untouched _ _ e)
        | inr (id, e) ↦
            Evolves-trans booked
              (Evolves-trans (commit-Evolves l' v' c.job_id id free) (untouched _ _ e))
      ]

  Step-Evolves :
      {l l' : Ledger} → Step sha256_hex l l' → IsValid l → Evolves (accounts_of l) (accounts_of l')
  Step-Evolves {l} (Step.opens job_id ceiling) v = open_job-Evolves job_id ceiling l
  Step-Evolves {l} (Step.carves job_id scope_id parent share free) v =
      open_scope-Evolves job_id scope_id parent share l
  Step-Evolves {l} (Step.reserves c free fresh) v = reserve-Evolves sha256_hex c l v free fresh
  Step-Evolves {l} (Step.meters c free fresh) v = meter-Evolves c l v free fresh
  Step-Evolves {l} (Step.commits job_id id free) v = commit-Evolves l v job_id id free
  Step-Evolves {l} (Step.releases job_id id free) v = release-Evolves l v job_id id free
  Step-Evolves {l} (Step.holds job_id amount) v = hold-Evolves job_id amount l
  Step-Evolves {l} (Step.disposes job_id to amount reason) v =
      disposition-Evolves job_id to amount reason l

  -- Any run of ledger calls from a fresh ledger, in which job ids have no colon and each new
  -- reservation gets an id that is not in use, is a run of the accounts: a job gets its account
  -- once; a reservation waits under an id at which none waits, for an amount above zero that the
  -- ceiling of its job leaves; a commit or a release ends a waiting one, with its whole amount; and
  -- scopes, locks and calls that do not succeed leave the accounts as they are.
  pub Reach-Evolves :
      (currency : String) (l : Ledger)
      → Reach sha256_hex currency l
      → Evolves no_accounts (accounts_of l)
  Reach-Evolves currency _ Reach.start =
      unfold create_budget_ledger accounts_of lookup in Evolves.start
  Reach-Evolves currency l (Reach.next r s) =
      Evolves-trans (Reach-Evolves currency _ r) (Step-Evolves s (Reach-IsValid sha256_hex r))
