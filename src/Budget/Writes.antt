-- ===== src/Budget/Writes.antt =====
-- The writes of packages/budget/ledger.mjs keep the books: one lemma for a cost drawn on the job
-- itself, and one for a cost drawn on a scope.
use coreguard.Prelude.{
  ℕ, ◌+◌, ◌≤◌, String, ◌≡◌, sym, ◌∙◌, subst, ◌≢◌, ◌⊎◌, inl, inr, some, arith, Dict, lookup, insert,
  lookup-insert_self, lookup-insert_ne, sum_by, sum_by-insert, AllValues-insert, String-cases,
  ==_self, ==-of_ne,
}
use coreguard.Budget.{Job, Scope, Reservation, Ledger}
use coreguard.Budget.Books.{
  mine, top, nested, carved, own, pending, pending_in, JobBooks, ScopeBooks, IsWithin, IsNamed,
  IsValid,
}

-- A named scope that is written under its key leaves every scope named.
pub IsNamed-insert :
    (m : Dict Scope) (named : (k : String) (t : Scope) → lookup k m ≡ some t → IsNamed k t)
    (key : String) (s : Scope)
    → IsNamed key s
    → (k : String) (t : Scope) → lookup k (insert key s m) ≡ some t
    → IsNamed k t
IsNamed-insert m named key s h k t e = elim (String-cases key k) [
  | inl here ↦ ground (arith, here, lookup-insert_self key s m)
  | inr ne ↦ named k t (sym (lookup-insert_ne key k s m ne) ∙ e)
]

-- A cost of the job `jid` that was due `p0` is now due `p1`, and the job's record is `j'`.
module _ (l : Ledger) (v : IsValid l) (jid : String) {j : Job} (ej : lookup jid l.jobs ≡ some j)
    (j' : Job) (m : Dict Reservation) (p0 p1 : ℕ)
    (hp : (k : String)
      → sum_by (pending k) m + mine k jid p0 ≡ sum_by (pending k) l.reservations + mine k jid p1)
    (same_child : j'.child_shares_cents ≡ j.child_shares_cents)
    (same_ceiling : j'.ceiling_cents ≡ j.ceiling_cents)
    (moved : j'.reserved_cents + p0 ≡ j.reserved_cents + p1) where
  module _ (seq : ℕ)
      (fits : (j'.reserved_cents + j'.committed_cents + j.child_shares_cents ≤ j.ceiling_cents)
        ⊎ (j'.reserved_cents + j'.committed_cents ≤ j.reserved_cents + j.committed_cents))
      (hs : (key : String)
        → sum_by (pending_in key) m ≡ sum_by (pending_in key) l.reservations) where
    abbrev direct : Ledger
    direct = record {
      currency = l.currency;
      jobs = insert jid j' l.jobs;
      scopes = l.scopes;
      reservations = m;
      seq = seq;
    }

    direct-JobBooks : JobBooks jid direct
    direct-JobBooks =
        ground (arith, lookup-insert_self jid j' l.jobs, ej, v.jobs jid, hp jid, ==_self jid)

    direct-JobBooks_ne : (k : String) → jid ≢ k → JobBooks k direct
    direct-JobBooks_ne k ne =
        ground (arith, lookup-insert_ne jid k j' l.jobs ne, v.jobs k, hp k, ==-of_ne jid k ne)

    pub direct-IsValid : IsValid direct
    direct-IsValid = record {
      jobs = λ k. elim (String-cases jid k) [
        | inl e ↦ subst (λ t. JobBooks t direct) e direct-JobBooks
        | inr ne ↦ direct-JobBooks_ne k ne
      ];
      scopes = λ key. hs key ∙ v.scopes key;
      within = v.within;
      named = v.named;
    }

  -- The scope at `key` is drawn on too, and its record is `s'`.
  module _ (seq : ℕ) (key : String) {s : Scope} (es : lookup key l.scopes ≡ some s) (s' : Scope)
      (mine_s : s.job_id ≡ jid) (same_job : s'.job_id ≡ s.job_id)
      (same_id : s'.scope_id ≡ s.scope_id) (same_parent : s'.parent_scope_id ≡ s.parent_scope_id)
      (same_share : s'.share_cents ≡ s.share_cents)
      (same_carved : s'.child_shares_cents ≡ s.child_shares_cents)
      (moved_s : s'.reserved_cents + p0 ≡ s.reserved_cents + p1)
      (level : j'.reserved_cents + j'.committed_cents + (s.reserved_cents + s.committed_cents)
        ≡ j.reserved_cents + j.committed_cents + (s'.reserved_cents + s'.committed_cents))
      (within : IsWithin s')
      (hs : (k : String)
        → sum_by (pending_in k) m + mine k key p0
          ≡ sum_by (pending_in k) l.reservations + mine k key p1) where
    abbrev drawn : Ledger
    drawn = record {
      currency = l.currency;
      jobs = insert jid j' l.jobs;
      scopes = insert key s' l.scopes;
      reservations = m;
      seq = seq;
    }

    drawn-JobBooks : JobBooks jid drawn
    drawn-JobBooks = ground (
      arith,
      lookup-insert_self jid j' l.jobs,
      ej,
      v.jobs jid,
      hp jid,
      ==_self jid,
      sum_by-insert (top jid) key s' s l.scopes es,
      sum_by-insert (nested jid) key s' s l.scopes es,
      sum_by-insert (carved jid) key s' s l.scopes es,
      sum_by-insert (own jid) key s' s l.scopes es,
    )

    drawn-JobBooks_ne : (k : String) → jid ≢ k → JobBooks k drawn
    drawn-JobBooks_ne k ne = ground (
      arith,
      lookup-insert_ne jid k j' l.jobs ne,
      v.jobs k,
      hp k,
      ==-of_ne jid k ne,
      sum_by-insert (top k) key s' s l.scopes es,
      sum_by-insert (nested k) key s' s l.scopes es,
      sum_by-insert (carved k) key s' s l.scopes es,
      sum_by-insert (own k) key s' s l.scopes es,
    )

    drawn-ScopeBooks : ScopeBooks key drawn
    drawn-ScopeBooks =
        ground (arith, lookup-insert_self key s' l.scopes, es, v.scopes key, hs key, ==_self key)

    drawn-ScopeBooks_ne : (k : String) → key ≢ k → ScopeBooks k drawn
    drawn-ScopeBooks_ne k ne =
        ground (arith, lookup-insert_ne key k s' l.scopes ne, v.scopes k, hs k, ==-of_ne key k ne)

    drawn-IsNamed : (k : String) (t : Scope) → lookup k drawn.scopes ≡ some t → IsNamed k t
    drawn-IsNamed = IsNamed-insert l.scopes v.named key s' (ground (arith, v.named key s es))

    pub drawn-IsValid : IsValid drawn
    drawn-IsValid = record {
      jobs = λ k. elim (String-cases jid k) [
        | inl e ↦ subst (λ t. JobBooks t drawn) e drawn-JobBooks
        | inr ne ↦ drawn-JobBooks_ne k ne
      ];
      scopes = λ k. elim (String-cases key k) [
        | inl e ↦ subst (λ t. ScopeBooks t drawn) e drawn-ScopeBooks
        | inr ne ↦ drawn-ScopeBooks_ne k ne
      ];
      within = AllValues-insert IsWithin key s' l.scopes within v.within;
      named = drawn-IsNamed;
    }
