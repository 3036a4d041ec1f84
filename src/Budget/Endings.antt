-- ===== src/Budget/Endings.antt =====
-- What commit and release of packages/budget/ledger.mjs can have done.
use coreguard.Prelude.{
  ==_self, ℕ, String, ◌≡◌, ◌⊎◌, inl, inr, true, some, arith, lookup, Option-cases, ◌==◌, eq_iff,
  Bool-cases, ◌&&◌,
}
use coreguard.Budget.{
  Job, Scope, Reservation, Ledger, Answer, is_reserved, commit, release, close, spent_job,
  spent_scope, freed_job, freed_scope, ReservationState,
}
use coreguard.Budget.Outcomes.{succeeded, Untouched}

-- `r` is an open reservation of the job `j`.
pub record IsOpen (job_id id : String) (l : Ledger) (j : Job) (r : Reservation) : Type 0 where
  pub job : lookup job_id l.jobs ≡ some j
  pub found : lookup id l.reservations ≡ some r
  pub owner : r.job_id ≡ job_id
  pub state : is_reserved r.state ≡ true

module _ (job_id id : String) (l : Ledger) where
  abbrev pub Closed :
      {A : Type 0}
      → (Job → ℕ → Job)
      → (Scope → ℕ → Scope)
      → ReservationState
      → Answer A × Ledger
      → Type 0
  Closed on_job on_scope state a =
      (j : Job) × (r : Reservation) × IsOpen job_id id l j r
      × (succeeded a.0 ≡ true)
      × (a.1 ≡ close job_id id r on_job on_scope state j l)

  module _ (j : Job) (ej : lookup job_id l.jobs ≡ some j) (r : Reservation)
      (er : lookup id l.reservations ≡ some r) where
    commit_outcome_found :
        Untouched l (commit job_id id l)
        ⊎ Closed spent_job spent_scope ReservationState.committed (commit job_id id l)
    unfolding commit
    commit_outcome_found = elim (Bool-cases (r.job_id == job_id && is_reserved r.state)) [
      | inl fits ↦ inr (j, r, ground (arith, eq_iff r.job_id job_id), ground arith, ground arith)
      | inr not_fits ↦ inl (ground arith)
    ]

    release_outcome_found :
        Untouched l (release job_id id l)
        ⊎ Closed freed_job freed_scope ReservationState.released (release job_id id l)
    unfolding release
    release_outcome_found = elim (Bool-cases (r.job_id == job_id && is_reserved r.state)) [
      | inl fits ↦ inr (j, r, ground (arith, eq_iff r.job_id job_id), ground arith, ground arith)
      | inr not_fits ↦ inl (ground arith)
    ]

  -- `commit` either refuses and writes nothing, or the id is an open reservation of the job and its
  -- amount moves from reserved to committed in the job and in the reservation's scope.
  pub commit_outcome :
      Untouched l (commit job_id id l)
      ⊎ Closed spent_job spent_scope ReservationState.committed (commit job_id id l)
  unfolding commit
  commit_outcome = elim (Option-cases (lookup job_id l.jobs)) [
    | inl missing ↦ inl (ground arith)
    | inr (j, ej) ↦ elim (Option-cases (lookup id l.reservations)) [
      | inl missing ↦ inl (ground arith)
      | inr (r, er) ↦ commit_outcome_found j ej r er
    ]
  ]

  -- An open reservation of the job is committed: `commit` succeeds, and its amount moves from reserved
  -- to committed in the job and in the reservation's scope.
  pub commit-IsOpen :
      (j : Job) (r : Reservation)
      → IsOpen job_id id l j r
      → (succeeded (commit job_id id l).0 ≡ true)
        × ((commit job_id id l).1
            ≡ close job_id id r spent_job spent_scope ReservationState.committed j l)
  unfolding commit
  commit-IsOpen j r o = (
    ground (arith, o.job, o.found, o.owner, o.state, ==_self job_id),
    ground (arith, o.job, o.found, o.owner, o.state, ==_self job_id),
  )

  -- `release` either refuses and writes nothing, or the id is an open reservation of the job and its
  -- amount leaves what is reserved in the job and in the reservation's scope.
  pub release_outcome :
      Untouched l (release job_id id l)
      ⊎ Closed freed_job freed_scope ReservationState.released (release job_id id l)
  unfolding release
  release_outcome = elim (Option-cases (lookup job_id l.jobs)) [
    | inl missing ↦ inl (ground arith)
    | inr (j, ej) ↦ elim (Option-cases (lookup id l.reservations)) [
      | inl missing ↦ inl (ground arith)
      | inr (r, er) ↦ release_outcome_found j ej r er
    ]
  ]

  -- The same for `release`, which frees the amount.
  pub release-IsOpen :
      (j : Job) (r : Reservation)
      → IsOpen job_id id l j r
      → (succeeded (release job_id id l).0 ≡ true)
        × ((release job_id id l).1
            ≡ close job_id id r freed_job freed_scope ReservationState.released j l)
  unfolding release
  release-IsOpen j r o = (
    ground (arith, o.job, o.found, o.owner, o.state, ==_self job_id),
    ground (arith, o.job, o.found, o.owner, o.state, ==_self job_id),
  )
