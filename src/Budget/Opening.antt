-- ===== src/Budget/Opening.antt =====
-- What openJob of packages/budget/ledger.mjs does, and that it keeps the books valid.
use coreguard.Prelude.{
  ℕ, String, ◌≡◌, sym, subst, ◌⊎◌, ◌≢◌, inl, inr, not, ◌&&◌, none, arith, lookup, insert,
  lookup-insert_self, lookup-insert_ne, Option-cases, Bool-cases, String-cases, ◌==◌,
}
use coreguard.Budget.{Ledger, Amount, is_positive_int, cents, open_job, new_job, set_job}
use coreguard.Budget.Books.{JobBooks, IsValid}

-- `openJob` answers without a write, or adds an empty job under an id that was free.
pub open_job_outcome :
    (job_id : String) (ceiling : Amount) (l : Ledger)
    → ((open_job job_id ceiling l).1 ≡ l)
      ⊎ ((lookup job_id l.jobs ≡ none)
          × ((open_job job_id ceiling l).1
              ≡ set_job job_id (new_job job_id l.currency (cents ceiling)) l))
unfolding open_job
open_job_outcome job_id ceiling l = elim (Option-cases (lookup job_id l.jobs)) [
  | inl free ↦ elim (Bool-cases (not (job_id == "") && is_positive_int ceiling)) [
    | inl fits ↦ inr (free, ground arith)
    | inr not_fits ↦ inl (ground arith)
  ]
  | inr (j, taken) ↦ inl (ground arith)
]

module _ (l : Ledger) (v : IsValid l) (job_id : String) (free : lookup job_id l.jobs ≡ none)
    (currency : String) (ceiling : ℕ) where
  abbrev opened : Ledger
  opened = record l { jobs = insert job_id (new_job job_id currency ceiling) l.jobs }

  opened-JobBooks : JobBooks job_id opened
  unfolding new_job
  opened-JobBooks = ground (
    arith,
    free,
    v.jobs job_id,
    lookup-insert_self job_id (new_job job_id currency ceiling) l.jobs,
  )

  opened-JobBooks_ne : (k : String) → job_id ≢ k → JobBooks k opened
  opened-JobBooks_ne k ne =
      ground
        (arith, v.jobs k, lookup-insert_ne job_id k (new_job job_id currency ceiling) l.jobs ne)

  opened-IsValid : IsValid opened
  opened-IsValid = record {
    jobs = λ k. elim (String-cases job_id k) [
      | inl e ↦ subst (λ t. JobBooks t opened) e opened-JobBooks
      | inr ne ↦ opened-JobBooks_ne k ne
    ];
    scopes = v.scopes;
    within = v.within;
    named = v.named;
  }

-- `openJob` keeps the books valid.
pub open_job-IsValid :
    (job_id : String) (ceiling : Amount) (l : Ledger)
    → IsValid l
    → IsValid (open_job job_id ceiling l).1
unfolding set_job
open_job-IsValid job_id ceiling l v = elim (open_job_outcome job_id ceiling l) [
  | inl same ↦ subst IsValid (sym same) v
  | inr (free, e) ↦
      subst IsValid (sym e) (opened-IsValid l v job_id free l.currency (cents ceiling))
]
