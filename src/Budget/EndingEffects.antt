-- ===== src/Budget/EndingEffects.antt =====
-- What commit and release of packages/budget/ledger.mjs leave in the maps of the ledger, entry by
-- entry.
use coreguard.Prelude.{
  ℕ, ◌+◌, ◌-◌, String, ◌≡◌, refl, sym, subst, inl, inr, true, Option, none, some, lookup,
  Option-cases, Dict, ◌⊎◌,
}
use coreguard.Budget.{
  Job, Scope, Reservation, Ledger, ReservationState, scope_key, scope_of, set_job, set_scope,
  set_reservation, write_scope, close, commit, release, spent_job, spent_scope, freed_job,
  freed_scope, scope_of_reservation,
}
use coreguard.Budget.Reservations.{write_scope-frame}
use coreguard.Budget.Outcomes.{Untouched, succeeded}
use coreguard.Budget.Frames.{Sets, SetsScope, insert-Sets}
use coreguard.Budget.Endings.{IsOpen, commit_outcome, release_outcome}

-- The scope that a reservation names, if it names one that exists.
abbrev pub ScopeOf : String → Option String → Dict Scope → Option Scope → Type 0
ScopeOf job_id none scopes s = s ≡ none
ScopeOf job_id (some scope_id) scopes s = lookup (scope_key job_id scope_id) scopes ≡ s

abbrev pub scope_with : (Scope → Scope) → Option Scope → Option Scope
scope_with f none = none
scope_with f (some s) = some (f s)

-- The three entries that the end of a reservation writes.
pub record Ends (job_id id : String) (r : Reservation) (j' : Job) (s' : Option Scope)
    (state : ReservationState) (l l' : Ledger) : Type 0 where
  pub jobs : Sets job_id j' l.jobs l'.jobs
  pub scopes : SetsScope job_id r.scope_id s' l.scopes l'.scopes
  pub reservations : Sets id (record r { state = state }) l.reservations l'.reservations

write_scope-Sets :
    (job_id : String) (o : Option String) (s : Option Scope) (f : Scope → Scope) (l : Ledger)
    → SetsScope job_id o (scope_with f s) l.scopes (write_scope job_id o s f l).scopes
unfolding write_scope set_scope
write_scope-Sets job_id (some scope_id) (some s) f l = insert-Sets _ _ l.scopes
write_scope-Sets job_id none none f l = refl
write_scope-Sets job_id none (some s) f l = refl
write_scope-Sets job_id (some scope_id) none f l = refl

module _ (job_id id : String) (r : Reservation) (j : Job) (l : Ledger) where
  scope_of_reservation-ScopeOf :
      ScopeOf job_id r.scope_id l.scopes (scope_of_reservation job_id r l)
  unfolding scope_of_reservation scope_of
  scope_of_reservation-ScopeOf = elim (Option-cases r.scope_id) [
    | inl none_named ↦ rw none_named refl
    | inr (scope_id, named) ↦ rw named refl
  ]

  close-Ends :
      (on_job : Job → ℕ → Job) (on_scope : Scope → ℕ → Scope) (state : ReservationState)
      → Ends job_id id r
          (on_job j r.amount_cents)
          (scope_with (λ s. on_scope s r.amount_cents) (scope_of_reservation job_id r l))
          state
          l
          (close job_id id r on_job on_scope state j l)
  unfolding close set_job set_reservation
  close-Ends on_job on_scope state =
      let s = scope_of_reservation job_id r l in
      let f : Scope → Scope = λ t. on_scope t r.amount_cents in
      let based = set_job job_id (on_job j r.amount_cents) l in
      let frame = write_scope-frame job_id r.scope_id s f based in
      record {
        jobs = rw frame.0 (insert-Sets job_id (on_job j r.amount_cents) l.jobs);
        scopes = write_scope-Sets job_id r.scope_id s f based;
        reservations = rw frame.1 (insert-Sets id (record r { state = state }) l.reservations);
      }

module _ (job_id id : String) (l : Ledger) where
  -- `commit` either refuses and leaves the ledger as it was; or the id is an open reservation of the job,
  -- the job, and the scope that the reservation names if it exists, have its amount less reserved and
  -- more committed, the reservation is COMMITTED, and every other job, scope and reservation is as it
  -- was.
  pub commit_effect :
      Untouched l (commit job_id id l)
      ⊎ ((j : Job) × (r : Reservation) × (s : Option Scope) × IsOpen job_id id l j r
          × ScopeOf job_id r.scope_id l.scopes s
          × (succeeded (commit job_id id l).0 ≡ true)
          × Ends job_id id r
              (record j {
                reserved_cents = j.reserved_cents - r.amount_cents;
                committed_cents = j.committed_cents + r.amount_cents;
              })
              (scope_with
                (λ t. record t {
                  reserved_cents = t.reserved_cents - r.amount_cents;
                  committed_cents = t.committed_cents + r.amount_cents;
                })
                s)
              ReservationState.committed
              l
              (commit job_id id l).1)
  unfolding spent_job spent_scope
  commit_effect = elim (commit_outcome job_id id l) [
    | inl same ↦ inl same
    | inr (j, r, o, done, e) ↦
        let ends = close-Ends job_id id r j l spent_job spent_scope ReservationState.committed in
        inr (
          j,
          r,
          scope_of_reservation job_id r l,
          o,
          scope_of_reservation-ScopeOf job_id id r j l,
          done,
          subst (Ends job_id id r _ _ ReservationState.committed l) (sym e) ends,
        )
  ]

  -- `release` either refuses and leaves the ledger as it was; or the id is an open reservation of the
  -- job, the job, and the scope that the reservation names if it exists, have its amount less reserved,
  -- the reservation is RELEASED, and every other job, scope and reservation is as it was.
  pub release_effect :
      Untouched l (release job_id id l)
      ⊎ ((j : Job) × (r : Reservation) × (s : Option Scope) × IsOpen job_id id l j r
          × ScopeOf job_id r.scope_id l.scopes s
          × (succeeded (release job_id id l).0 ≡ true)
          × Ends job_id id r
              (record j { reserved_cents = j.reserved_cents - r.amount_cents })
              (scope_with (λ t. record t { reserved_cents = t.reserved_cents - r.amount_cents }) s)
              ReservationState.released
              l
              (release job_id id l).1)
  unfolding freed_job freed_scope
  release_effect = elim (release_outcome job_id id l) [
    | inl same ↦ inl same
    | inr (j, r, o, done, e) ↦
        let ends = close-Ends job_id id r j l freed_job freed_scope ReservationState.released in
        inr (
          j,
          r,
          scope_of_reservation job_id r l,
          o,
          scope_of_reservation-ScopeOf job_id id r j l,
          done,
          subst (Ends job_id id r _ _ ReservationState.released l) (sym e) ends,
        )
  ]
