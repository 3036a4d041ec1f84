-- ===== src/Budget/CarvingEffects.antt =====
-- What openScope of packages/budget/ledger.mjs leaves in the maps of the ledger, entry by entry.
use coreguard.Prelude.{
  ℕ, ◌+◌, ◌<◌, String, ◌≡◌, ◌≢◌, refl, sym, ◌∙◌, ap, subst, inl, inr, true, Option, none, some, pos,
  lookup, lookup-insert_self, lookup-insert_ne, ◌⊎◌,
}
use coreguard.Budget.{
  Job, Scope, Ledger, Amount, ScopeState, cents, scope_key, scope_of, set_job, set_scope,
  open_scope, new_scope, debit_parent,
}
use coreguard.Budget.Outcomes.{Names, Untouched, succeeded}
use coreguard.Budget.Frames.{Sets, HasFree, insert-Sets, positive-integer, within-HasFree}
use coreguard.Budget.Carving.{Allocates, open_scope_outcome}

-- The scope that openScope adds.
abbrev pub fresh_scope : String → String → Option String → ℕ → Scope
fresh_scope job_id scope_id parent_id n = record {
  job_id = job_id;
  scope_id = scope_id;
  parent_scope_id = parent_id;
  share_cents = n;
  child_shares_cents = 0;
  reserved_cents = 0;
  committed_cents = 0;
  state = ScopeState.opened;
}

-- The new scope stands under its key, and its parent, the job or a scope, has `n` more given away.
abbrev pub Carves :
    String → String → Option String → ℕ → Job → Option Scope → (l l' : Ledger) → Type 0
Carves job_id scope_id none n j none l l' =
    Sets job_id (record j { child_shares_cents = j.child_shares_cents + n }) l.jobs l'.jobs
    × Sets (scope_key job_id scope_id) (fresh_scope job_id scope_id none n) l.scopes l'.scopes
Carves job_id scope_id (some parent_id) n j (some p) l l' =
    (l'.jobs ≡ l.jobs)
    × (lookup (scope_key job_id scope_id) l'.scopes
        ≡ some (fresh_scope job_id scope_id (some parent_id) n))
    × (lookup (scope_key job_id parent_id) l'.scopes
        ≡ some (record p { child_shares_cents = p.child_shares_cents + n }))
    × ((asked : String)
        → scope_key job_id scope_id ≢ asked
        → scope_key job_id parent_id ≢ asked
        → lookup asked l'.scopes ≡ lookup asked l.scopes)
Carves job_id scope_id _ n j _ l l' = ⊥

module _ (job_id scope_id : String) (share : Amount) (l : Ledger) where
  debit_parent-Carves :
      (parent_id : Option String) (j : Job) (p : Option Scope)
      → Allocates job_id scope_id parent_id share l j p
      → Carves job_id scope_id parent_id (cents share) j p l (
          set_scope job_id scope_id
            (new_scope job_id scope_id parent_id (cents share))
            (debit_parent job_id j parent_id p (cents share) l))
        × ((set_scope job_id scope_id
              (new_scope job_id scope_id parent_id (cents share))
              (debit_parent job_id j parent_id p (cents share) l)).reservations
            ≡ l.reservations)
  unfolding set_scope set_job debit_parent new_scope scope_of
  debit_parent-Carves none j none a = ((insert-Sets _ _ l.jobs, insert-Sets _ _ l.scopes), refl)
  debit_parent-Carves (some parent_id) j (some p) a = (
    (
      refl,
      lookup-insert_self _ _ _,
      lookup-insert_ne _ _ _ _ (λ same. cc (same, a.fresh, a.names.0))
          ∙ lookup-insert_self _ _ l.scopes,
      λ asked other parent.
          lookup-insert_ne _ asked _ _ other ∙ lookup-insert_ne _ asked _ l.scopes parent,
    ),
    refl,
  )
  debit_parent-Carves none j (some p) a = absurd a.names
  debit_parent-Carves (some parent_id) j none a = absurd a.names

  -- `openScope` either refuses or throws and leaves the ledger as it was; or the job exists, the scope
  -- does not, the parent that is named exists and is open, and the share is above zero and free in it;
  -- the new scope stands under its key with that share and nothing spent; the parent, or the job where
  -- none is named, has the share more given away; and every other job and scope, and every reservation,
  -- is as it was.
  pub open_scope_effect :
      (parent_id : Option String)
      → Untouched l (open_scope job_id scope_id parent_id share l)
        ⊎ ((j : Job) × (p : Option Scope) × (n : ℕ) × (lookup job_id l.jobs ≡ some j)
            × (lookup (scope_key job_id scope_id) l.scopes ≡ none)
            × Names job_id parent_id p l
            × (share ≡ Amount.integer (pos n))
            × (0 < n)
            × HasFree j p n
            × (succeeded (open_scope job_id scope_id parent_id share l).0 ≡ true)
            × Carves job_id scope_id parent_id n j p l
                (open_scope job_id scope_id parent_id share l).1
            × ((open_scope job_id scope_id parent_id share l).1.reservations ≡ l.reservations))
  open_scope_effect parent_id = elim (open_scope_outcome job_id scope_id parent_id share l) [
    | inl same ↦ inl same
    | inr (j, p, a, done, e) ↦
        let (amount, positive) = positive-integer share a.positive in
        let (carves, kept) = debit_parent-Carves parent_id j p a in
        inr (
          j,
          p,
          cents share,
          a.found,
          a.fresh,
          a.names,
          amount,
          positive,
          within-HasFree (cents share) j p a.within,
          done,
          subst (Carves job_id scope_id parent_id (cents share) j p l) (sym e) carves,
          ap (λ t. t.reservations) e ∙ kept,
        )
  ]
