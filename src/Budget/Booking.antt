-- ===== src/Budget/Booking.antt =====
-- `reserve` of packages/budget/ledger.mjs keeps the books of the ledger valid.
use coreguard.Prelude.{
  suc, String, ◌≡◌, refl, sym, ap, subst, inl, inr, true, false, Option, none, some, arith, lookup,
  sum_by-insert_new, ◌++◌, ◌∷◌, [],
}
use coreguard.Budget.{
  Job, Scope, Ledger, Cost, cents, exceeds, available_to, scope_key, scope_of, reserve, book,
  new_reservation, charged_job, charged_scope, write_scope, set_job, set_scope, set_reservation,
  job_available, scope_available,
}
use coreguard.Budget.Books.{pending, pending_in, IsValid}
use coreguard.Budget.Keys.{colon_free, scope_key-job_id}
use coreguard.Budget.Writes.{direct-IsValid, drawn-IsValid}
use coreguard.Budget.Outcomes.{Names, next_id, reserve_outcome}

-- In valid books the scope that a job finds under a name is its own.
pub scope_of-job_id :
    (l : Ledger) (v : IsValid l) (job_id scope_id : String) (s : Scope)
    → colon_free job_id ≡ true
    → scope_of job_id scope_id l ≡ some s
    → s.job_id ≡ job_id
unfolding scope_of
scope_of-job_id l v job_id scope_id s free e =
    let (named, s_free) = v.named (scope_key job_id scope_id) s e in
    sym (scope_key-job_id job_id s.job_id scope_id s.scope_id free s_free named)

module _ (l : Ledger) (v : IsValid l) (c : Cost) (id : String)
    (fresh : lookup id l.reservations ≡ none) (free : colon_free c.job_id ≡ true) (j : Job)
    (ej : lookup c.job_id l.jobs ≡ some j) where
  abbrev booked_base : Ledger
  booked_base =
      set_job c.job_id
        (charged_job (record j { reservations = j.reservations ++ id ∷ [] }) (cents c.amount_cents))
        (set_reservation id (new_reservation c id) (record l { seq = suc l.seq }))

  write_scope-IsValid :
      (o : Option String) (s : Option Scope)
      → c.scope_id ≡ o
      → Names c.job_id o s l
      → exceeds (cents c.amount_cents) (available_to j s) ≡ false
      → IsValid (write_scope c.job_id o s (λ t. charged_scope t (cents c.amount_cents)) booked_base)
  unfolding scope_of write_scope set_job set_reservation charged_job charged_scope new_reservation
      exceeds available_to job_available scope_available set_scope
  write_scope-IsValid none none eo n fits =
      direct-IsValid l v c.job_id ej _ _ 0 (cents c.amount_cents)
        (λ k.
          ground
            (arith, sum_by-insert_new (pending k) id (new_reservation c id) l.reservations fresh))
        refl refl (omega arith) (suc l.seq) (inl (ground arith))
        (λ key. ground (
          arith,
          sum_by-insert_new (pending_in key) id (new_reservation c id) l.reservations fresh,
        ))
  write_scope-IsValid (some scope_id) (some s) eo n fits =
      drawn-IsValid l v c.job_id ej _ _ 0 (cents c.amount_cents)
        (λ k.
          ground
            (arith, sum_by-insert_new (pending k) id (new_reservation c id) l.reservations fresh))
        refl refl (omega arith) (suc l.seq) (scope_key c.job_id scope_id) n.0 _
        (scope_of-job_id l v c.job_id scope_id s free n.0) refl refl refl refl refl (omega arith)
        (omega arith) (ground arith)
        (λ key. ground (
          arith,
          sum_by-insert_new (pending_in key) id (new_reservation c id) l.reservations fresh,
        ))
  write_scope-IsValid none (some s) eo n fits = absurd n
  write_scope-IsValid (some scope_id) none eo n fits = absurd n

-- `reserve` keeps the books valid, whatever it answers, if the digest gives a new id.
pub reserve-IsValid :
    (sha256_hex : String → String) (c : Cost) (l : Ledger)
    → IsValid l
    → colon_free c.job_id ≡ true
    → lookup (next_id sha256_hex c l) l.reservations ≡ none
    → IsValid (reserve sha256_hex c l).1
unfolding book
reserve-IsValid sha256_hex c l v free fresh = elim (reserve_outcome sha256_hex c l) [
  | inl same ↦ subst IsValid (sym same.1) v
  | inr (j, s, fits, e) ↦ subst IsValid (ap (λ a. a.1) (sym e)) (
      write_scope-IsValid l v c (next_id sha256_hex c l) fresh free j fits.found c.scope_id s refl
        fits.names fits.within)
]
