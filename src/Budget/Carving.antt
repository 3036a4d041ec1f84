-- ===== src/Budget/Carving.antt =====
-- What openScope of packages/budget/ledger.mjs can have done.
use coreguard.Prelude.{
  String, ◌≡◌, ◌⊎◌, inl, inr, true, false, Option, none, some, arith, lookup, Option-cases,
  contains, ◌==◌, Bool-cases, ◌&&◌, not,
}
use coreguard.Budget.{
  Job, Scope, Ledger, OpenedScope, Amount, Answer, is_positive_int, cents, exceeds, available_to,
  scope_key, scope_of, open_scope_of, is_closed, open_scope, set_scope, new_scope, debit_parent,
}
use coreguard.Budget.Outcomes.{succeeded, Untouched, Names}

-- The guards of `openScope` hold for the share, in the job `j` and under the parent `p`.
pub record Allocates (job_id scope_id : String) (parent_id : Option String) (share : Amount)
    (l : Ledger) (j : Job) (p : Option Scope) : Type 0 where
  pub found : lookup job_id l.jobs ≡ some j
  pub fresh : lookup (scope_key job_id scope_id) l.scopes ≡ none
  pub names : Names job_id parent_id p l
  pub positive : is_positive_int share ≡ true
  pub within : exceeds (cents share) (available_to j p) ≡ false

module _ (job_id scope_id : String) (parent_id : Option String) (share : Amount) (l : Ledger) where
  abbrev pub Allocated : Answer OpenedScope × Ledger → Type 0
  Allocated a =
      (j : Job) × (p : Option Scope) × Allocates job_id scope_id parent_id share l j p
      × (succeeded a.0 ≡ true)
      × (a.1
          ≡ set_scope job_id scope_id (new_scope job_id scope_id parent_id (cents share))
              (debit_parent job_id j parent_id p (cents share) l))

  module _ (j : Job) (ej : lookup job_id l.jobs ≡ some j) where
    open_scope_outcome_root :
        parent_id ≡ none
        → Untouched l (open_scope job_id scope_id parent_id share l)
          ⊎ Allocated (open_scope job_id scope_id parent_id share l)
    unfolding open_scope open_scope_of
    open_scope_outcome_root es =
        elim (Bool-cases (
          not (scope_id == "")
          && is_positive_int share
          && not (contains (scope_key job_id scope_id) l.scopes)
          && not (exceeds (cents share) (available_to j none)))) [
            | inl fits ↦ inr (j, none, ground arith, ground arith, ground arith)
            | inr not_fits ↦ inl (ground arith)
          ]

    open_scope_outcome_child :
        (p_id : String)
        → parent_id ≡ some p_id
        → Untouched l (open_scope job_id scope_id parent_id share l)
          ⊎ Allocated (open_scope job_id scope_id parent_id share l)
    unfolding open_scope open_scope_of scope_of
    open_scope_outcome_child p_id es = elim (Option-cases (scope_of job_id p_id l)) [
      | inl missing ↦ inl (ground arith)
      | inr (p, found) ↦
          elim (Bool-cases (
            not (scope_id == "")
            && is_positive_int share
            && not (contains (scope_key job_id scope_id) l.scopes)
            && not (is_closed p.state)
            && not (exceeds (cents share) (available_to j (some p))))) [
              | inl fits ↦ inr (j, some p, ground arith, ground arith, ground arith)
              | inr not_fits ↦ inl (ground arith)
            ]
    ]

  -- `openScope` either refuses or throws and writes nothing, or the job exists, the scope does not,
  -- the parent that is named exists and is open, the share is above zero and at most what the parent
  -- has left, and the writes are the new scope and the share taken from its parent.
  pub open_scope_outcome :
      Untouched l (open_scope job_id scope_id parent_id share l)
      ⊎ Allocated (open_scope job_id scope_id parent_id share l)
  unfolding open_scope
  open_scope_outcome = elim (Option-cases (lookup job_id l.jobs)) [
    | inl missing ↦ inl (ground arith)
    | inr (j, ej) ↦ elim (Option-cases parent_id) [
      | inl root ↦ open_scope_outcome_root j ej root
      | inr (p_id, es) ↦ open_scope_outcome_child j ej p_id es
    ]
  ]
