-- ===== src/Budget/Closing.antt =====
-- The writes that commit and release of packages/budget/ledger.mjs share keep the books valid.
use coreguard.Prelude.{
  ℕ, ◌+◌, ◌≤◌, String, ◌≡◌, subst, inl, inr, true, false, none, some, arith, insert, Option-cases,
  eq_iff, ==_self, le-sum_by, sum_by, sum_by-insert, AllValues-lookup,
}
use coreguard.Budget.{
  Job, Scope, Reservation, Ledger, ReservationState, scope_key, scope_of, write_scope, new_scope,
  set_job, set_scope, set_reservation, close, is_reserved, scope_of_reservation,
}
use coreguard.Budget.Books.{mine, in_scope, pending, pending_in, IsWithin, IsValid}
use coreguard.Budget.Keys.{colon_free}
use coreguard.Budget.Writes.{direct-IsValid, drawn-IsValid}
use coreguard.Budget.Endings.{IsOpen}
use coreguard.Budget.Booking.{scope_of-job_id}

-- What `commit` and `release` do to a job: the amount leaves what is reserved.
pub record JobDrops (j j' : Job) (a : ℕ) : Type 0 where
  pub same_child : j'.child_shares_cents ≡ j.child_shares_cents
  pub same_ceiling : j'.ceiling_cents ≡ j.ceiling_cents
  pub moved : j'.reserved_cents + a ≡ j.reserved_cents + 0
  pub level : j'.reserved_cents + j'.committed_cents ≤ j.reserved_cents + j.committed_cents

pub record ScopeDrops (j j' : Job) (s s' : Scope) (a : ℕ) : Type 0 where
  pub same_job : s'.job_id ≡ s.job_id
  pub same_id : s'.scope_id ≡ s.scope_id
  pub same_parent : s'.parent_scope_id ≡ s.parent_scope_id
  pub same_share : s'.share_cents ≡ s.share_cents
  pub same_carved : s'.child_shares_cents ≡ s.child_shares_cents
  pub moved : s'.reserved_cents + a ≡ s.reserved_cents + 0
  pub level :
      j'.reserved_cents + j'.committed_cents + (s.reserved_cents + s.committed_cents)
      ≡ j.reserved_cents + j.committed_cents + (s'.reserved_cents + s'.committed_cents)
  pub within : IsWithin s → IsWithin s'

module _ (l : Ledger) (v : IsValid l) (job_id id : String) (free : colon_free job_id ≡ true)
    (j : Job) (r : Reservation) (o : IsOpen job_id id l j r) where
  pub due-le-job : r.amount_cents ≤ j.reserved_cents
  due-le-job = ground (
    arith,
    o.job,
    o.owner,
    o.state,
    v.jobs job_id,
    ==_self job_id,
    le-sum_by (pending job_id) id r l.reservations o.found,
  )

  pub due-le-scope :
      (scope_id : String) (s : Scope)
      → r.scope_id ≡ some scope_id
      → scope_of job_id scope_id l ≡ some s
      → r.amount_cents ≤ s.reserved_cents
  unfolding scope_of
  due-le-scope scope_id s es e = ground (
    arith,
    o.owner,
    o.state,
    v.scopes (scope_key job_id scope_id),
    ==_self (scope_key job_id scope_id),
    le-sum_by (pending_in (scope_key job_id scope_id)) id r l.reservations o.found,
  )

  module _ (state : ReservationState) (closed : is_reserved state ≡ false) where
    abbrev closed_reservation : Reservation
    closed_reservation = record r { state = state }

    close_pending :
        (k : String)
        → sum_by (pending k) (insert id closed_reservation l.reservations)
            + mine k job_id r.amount_cents
          ≡ sum_by (pending k) l.reservations + mine k job_id 0
    close_pending k = ground (
      arith,
      o.found,
      o.owner,
      o.state,
      sum_by-insert (pending k) id closed_reservation r l.reservations o.found,
    )

    close_pending_in :
        (k : String)
        → sum_by (pending_in k) (insert id closed_reservation l.reservations)
            + in_scope k job_id r.scope_id r.amount_cents
          ≡ sum_by (pending_in k) l.reservations
    close_pending_in k = elim (Option-cases r.scope_id) [
      | inl e ↦ ground (
        arith,
        o.owner,
        o.state,
        sum_by-insert (pending_in k) id closed_reservation r l.reservations o.found,
      )
      | inr (scope_id, e) ↦ ground (
        arith,
        o.owner,
        o.state,
        sum_by-insert (pending_in k) id closed_reservation r l.reservations o.found,
      )
    ]

    -- The writes of `close`, by where the cost was drawn.
    module _ (on_job : Job → ℕ → Job) (on_scope : Scope → ℕ → Scope)
        (dj : JobDrops j (on_job j r.amount_cents) r.amount_cents)
        (ds : (scope_id : String) (s : Scope)
          → r.scope_id ≡ some scope_id
          → scope_of job_id scope_id l ≡ some s
          → ScopeDrops j
              (on_job j r.amount_cents)
              s
              (on_scope s r.amount_cents)
              r.amount_cents) where
      close_root :
          ((k : String)
            → sum_by (pending_in k) (insert id closed_reservation l.reservations)
              ≡ sum_by (pending_in k) l.reservations)
          → IsValid
              (set_reservation id closed_reservation (set_job job_id (on_job j r.amount_cents) l))
      unfolding set_reservation set_job
      close_root hs =
          direct-IsValid l v job_id o.job (on_job j r.amount_cents) _ r.amount_cents 0 close_pending
            dj.same_child dj.same_ceiling dj.moved l.seq (inr dj.level) hs

      close_scope :
          (scope_id : String) (s : Scope)
          → r.scope_id ≡ some scope_id
          → scope_of job_id scope_id l ≡ some s
          → IsValid (
              set_reservation id closed_reservation (
                set_scope job_id scope_id
                  (on_scope s r.amount_cents)
                  (set_job job_id (on_job j r.amount_cents) l)))
      unfolding set_reservation set_job set_scope scope_of
      close_scope scope_id s es e =
          let d = ds scope_id s es e in
          drawn-IsValid l v job_id o.job (on_job j r.amount_cents) _ r.amount_cents 0 close_pending
            dj.same_child dj.same_ceiling dj.moved l.seq (scope_key job_id scope_id) e
            (on_scope s r.amount_cents) (scope_of-job_id l v job_id scope_id s free e) d.same_job
            d.same_id d.same_parent d.same_share d.same_carved d.moved d.level
            (d.within (AllValues-lookup IsWithin (scope_key job_id scope_id) s l.scopes v.within e))
            (λ k. ground (arith, es, close_pending_in k))

      close_missing :
          (scope_id : String)
          → r.scope_id ≡ some scope_id
          → scope_of job_id scope_id l ≡ none
          → (k : String)
          → sum_by (pending_in k) (insert id closed_reservation l.reservations)
            ≡ sum_by (pending_in k) l.reservations
      unfolding scope_of new_scope
      close_missing scope_id es e k =
          ground (arith, es, close_pending_in k, v.scopes k, eq_iff (scope_key job_id scope_id) k)

      close_unscoped :
          scope_of_reservation job_id r l ≡ none
          → set_reservation id closed_reservation (set_job job_id (on_job j r.amount_cents) l)
            ≡ close job_id id r on_job on_scope state j l
      unfolding close write_scope
      close_unscoped e = elim (Option-cases r.scope_id) [
        | inl root ↦ ground arith
        | inr (scope_id, es) ↦ ground arith
      ]

      close_scoped :
          (scope_id : String) (s : Scope)
          → r.scope_id ≡ some scope_id
          → scope_of_reservation job_id r l ≡ some s
          → set_reservation id closed_reservation (
              set_scope job_id scope_id
                (on_scope s r.amount_cents)
                (set_job job_id (on_job j r.amount_cents) l))
            ≡ close job_id id r on_job on_scope state j l
      unfolding close write_scope
      close_scoped scope_id s es e = ground arith

      pub close-IsValid : IsValid (close job_id id r on_job on_scope state j l)
      unfolding scope_of_reservation
      close-IsValid = elim (Option-cases r.scope_id) [
        | inl root ↦
            subst IsValid (close_unscoped (ground arith))
              (close_root (λ k. ground (arith, close_pending_in k)))
        | inr (scope_id, es) ↦ elim (Option-cases (scope_of job_id scope_id l)) [
          | inl missing ↦
              subst IsValid (close_unscoped (ground arith))
                (close_root (close_missing scope_id es missing))
          | inr (s, found) ↦
              subst IsValid (close_scoped scope_id s es (ground arith))
                (close_scope scope_id s es found)
        ]
      ]
