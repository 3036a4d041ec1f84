-- ===== src/Budget/Reservations.antt =====
-- The reservation that a booking of packages/budget/ledger.mjs makes is open, and what closing one
-- does to its job.
use coreguard.Prelude.{
  ◌∷◌, [], ◌++◌, suc, ℕ, String, ◌≡◌, refl, Option, none, some, lookup, lookup-insert_self,
}
use coreguard.Budget.{
  Job, Scope, Ledger, Cost, Reservation, ReservationState, book, charged_job, charged_scope, cents,
  set_job, set_scope, set_reservation, new_reservation, write_scope, close, scope_of_reservation,
}
use coreguard.Budget.Endings.{IsOpen}

-- The scope's write touches neither the jobs nor the reservations.
pub write_scope-frame :
    (job_id : String) (o : Option String) (s : Option Scope) (f : Scope → Scope) (l : Ledger)
    → ((write_scope job_id o s f l).jobs ≡ l.jobs)
      × ((write_scope job_id o s f l).reservations ≡ l.reservations)
unfolding write_scope set_scope
write_scope-frame job_id (some scope_id) (some s) f l = (refl, refl)
write_scope-frame job_id none _ f l = (refl, refl)
write_scope-frame job_id _ none f l = (refl, refl)

-- The job once the cost is booked under the id.
abbrev pub booked_job : Cost → Job → String → Job
booked_job c j id =
    charged_job (record j { reservations = j.reservations ++ id ∷ [] }) (cents c.amount_cents)

pub book-IsOpen :
    (c : Cost) (l : Ledger) (j : Job) (s : Option Scope) (id : String)
    → IsOpen c.job_id id (book c j s id l) (booked_job c j id) (new_reservation c id)
unfolding book set_job set_reservation
book-IsOpen c l j s id =
    let based =
      set_job c.job_id (booked_job c j id)
        (set_reservation id (new_reservation c id) (record l { seq = suc l.seq })) in
    let frame =
      write_scope-frame c.job_id c.scope_id s (λ t. charged_scope t (cents c.amount_cents)) based in
    record {
      job = rw frame.0 (lookup-insert_self c.job_id (booked_job c j id) l.jobs);
      found = rw frame.1 (lookup-insert_self id (new_reservation c id) l.reservations);
      owner = unfold new_reservation in refl;
      state = unfold new_reservation in refl;
    }

-- Closing a reservation leaves its job with the amount moved.
pub close-job :
    (job_id id : String) (r : Reservation) (on_job : Job → ℕ → Job) (on_scope : Scope → ℕ → Scope)
    (state : ReservationState) (j : Job) (l : Ledger)
    → lookup job_id (close job_id id r on_job on_scope state j l).jobs
      ≡ some (on_job j r.amount_cents)
unfolding close set_job set_reservation
close-job job_id id r on_job on_scope state j l =
    let based = set_job job_id (on_job j r.amount_cents) l in
    let frame =
      write_scope-frame job_id r.scope_id (scope_of_reservation job_id r l)
        (λ t. on_scope t r.amount_cents) based in
    rw frame.0 (lookup-insert_self job_id (on_job j r.amount_cents) l.jobs)
