-- ===== src/Budget/Allocation.antt =====
-- openScope of packages/budget/ledger.mjs keeps the books valid.
use coreguard.Prelude.{
  ℕ, ◌+◌, ◌≤◌, String, ◌≡◌, refl, sym, ◌∙◌, subst, lookup-insert, eq_iff, ◌≢◌, inl, inr, true,
  Option, none, some, arith, Dict, lookup, insert, lookup-insert_self, lookup-insert_ne,
  sum_by-insert, sum_by-insert_new, AllValues-insert, String-cases, ==_self, ==-of_ne,
}
use coreguard.Budget.{
  Job, Scope, Ledger, Amount, cents, exceeds, available_to, scope_key, scope_of, open_scope,
  new_scope, debit_parent, set_job, set_scope, job_available, scope_available,
}
use coreguard.Budget.Books.{top, nested, carved, own, JobBooks, ScopeBooks, IsWithin, IsValid}
use coreguard.Budget.Keys.{colon_free}
use coreguard.Budget.Writes.{IsNamed-insert}
use coreguard.Budget.Carving.{Allocates, open_scope_outcome}
use coreguard.Budget.Booking.{scope_of-job_id}

module _ (l : Ledger) (v : IsValid l) (job_id scope_id : String) (free : colon_free job_id ≡ true)
    (fresh : lookup (scope_key job_id scope_id) l.scopes ≡ none) (share : ℕ) (j : Job)
    (ej : lookup job_id l.jobs ≡ some j) where
  abbrev key : String
  key = scope_key job_id scope_id

  module _
      (fits : j.child_shares_cents + j.reserved_cents + j.committed_cents + share
        ≤ j.ceiling_cents) where
    abbrev debited : Job
    debited = record j { child_shares_cents = j.child_shares_cents + share }

    abbrev root : Scope
    root = new_scope job_id scope_id none share

    abbrev with_root : Ledger
    with_root = record l { jobs = insert job_id debited l.jobs; scopes = insert key root l.scopes }

    root-JobBooks : JobBooks job_id with_root
    unfolding new_scope
    root-JobBooks = ground (
      arith,
      ej,
      v.jobs job_id,
      ==_self job_id,
      lookup-insert_self job_id debited l.jobs,
      sum_by-insert_new (top job_id) key root l.scopes fresh,
      sum_by-insert_new (nested job_id) key root l.scopes fresh,
      sum_by-insert_new (carved job_id) key root l.scopes fresh,
      sum_by-insert_new (own job_id) key root l.scopes fresh,
    )

    root-JobBooks_ne : (k : String) → job_id ≢ k → JobBooks k with_root
    unfolding new_scope
    root-JobBooks_ne k ne = ground (
      arith,
      v.jobs k,
      ==-of_ne job_id k ne,
      lookup-insert_ne job_id k debited l.jobs ne,
      sum_by-insert_new (top k) key root l.scopes fresh,
      sum_by-insert_new (nested k) key root l.scopes fresh,
      sum_by-insert_new (carved k) key root l.scopes fresh,
      sum_by-insert_new (own k) key root l.scopes fresh,
    )

    root-ScopeBooks : ScopeBooks key with_root
    unfolding new_scope
    root-ScopeBooks = ground (arith, fresh, v.scopes key, lookup-insert_self key root l.scopes)

    root-ScopeBooks_ne : (k : String) → key ≢ k → ScopeBooks k with_root
    root-ScopeBooks_ne k ne = ground (arith, v.scopes k, lookup-insert_ne key k root l.scopes ne)

    with_root-IsValid : IsValid with_root
    unfolding new_scope
    with_root-IsValid = record {
      jobs = λ k. elim (String-cases job_id k) [
        | inl e ↦ subst (λ t. JobBooks t with_root) e root-JobBooks
        | inr ne ↦ root-JobBooks_ne k ne
      ];
      scopes = λ k. elim (String-cases key k) [
        | inl e ↦ subst (λ t. ScopeBooks t with_root) e root-ScopeBooks
        | inr ne ↦ root-ScopeBooks_ne k ne
      ];
      within = AllValues-insert IsWithin key root l.scopes (omega arith) v.within;
      named = IsNamed-insert l.scopes v.named key root (refl, free);
    }

  module _ (parent_id : String) (p : Scope)
      (ep : lookup (scope_key job_id parent_id) l.scopes ≡ some p)
      (fits : p.child_shares_cents + p.reserved_cents + p.committed_cents + share
        ≤ p.share_cents) where
    abbrev parent_key : String
    parent_key = scope_key job_id parent_id

    abbrev parent : Scope
    parent = record p { child_shares_cents = p.child_shares_cents + share }

    abbrev child : Scope
    child = new_scope job_id scope_id (some parent_id) share

    abbrev carved_scopes : Dict Scope
    carved_scopes = insert parent_key parent l.scopes

    abbrev with_child : Ledger
    with_child = record l { scopes = insert key child carved_scopes }

    keys_differ : parent_key ≢ key
    keys_differ e = cc (fresh, ep)

    child_fresh : lookup key carved_scopes ≡ none
    child_fresh = lookup-insert_ne parent_key key parent l.scopes keys_differ ∙ fresh

    child-JobBooks : (k : String) → JobBooks k with_child
    unfolding new_scope scope_of
    child-JobBooks k = ground (
      arith,
      v.jobs k,
      scope_of-job_id l v job_id parent_id p free ep,
      sum_by-insert (top k) parent_key parent p l.scopes ep,
      sum_by-insert (nested k) parent_key parent p l.scopes ep,
      sum_by-insert (carved k) parent_key parent p l.scopes ep,
      sum_by-insert (own k) parent_key parent p l.scopes ep,
      sum_by-insert_new (top k) key child carved_scopes child_fresh,
      sum_by-insert_new (nested k) key child carved_scopes child_fresh,
      sum_by-insert_new (carved k) key child carved_scopes child_fresh,
      sum_by-insert_new (own k) key child carved_scopes child_fresh,
    )

    child-ScopeBooks : ScopeBooks key with_child
    unfolding new_scope
    child-ScopeBooks =
        ground (arith, fresh, v.scopes key, lookup-insert_self key child carved_scopes)

    child-ScopeBooks_ne : (k : String) → key ≢ k → ScopeBooks k with_child
    child-ScopeBooks_ne k ne = ground (
      arith,
      ep,
      v.scopes k,
      lookup-insert_ne key k child carved_scopes ne,
      lookup-insert parent_key k parent l.scopes,
      eq_iff parent_key k,
    )

    with_child-IsValid : IsValid with_child
    unfolding new_scope
    with_child-IsValid = record {
      jobs = child-JobBooks;
      scopes = λ k. elim (String-cases key k) [
        | inl e ↦ subst (λ t. ScopeBooks t with_child) e child-ScopeBooks
        | inr ne ↦ child-ScopeBooks_ne k ne
      ];
      within =
          AllValues-insert IsWithin key child carved_scopes (omega arith)
            (AllValues-insert IsWithin parent_key parent l.scopes (omega arith) v.within);
      named =
          IsNamed-insert carved_scopes
            (IsNamed-insert l.scopes v.named parent_key parent (v.named parent_key p ep)) key child
            (refl, free);
    }

module _ (job_id scope_id : String) (share : Amount) (l : Ledger) (v : IsValid l)
    (free : colon_free job_id ≡ true) (j : Job) where
  allocated-IsValid :
      (parent_id : Option String) (p : Option Scope)
      → Allocates job_id scope_id parent_id share l j p
      → IsValid (
          set_scope job_id scope_id
            (new_scope job_id scope_id parent_id (cents share))
            (debit_parent job_id j parent_id p (cents share) l))
  unfolding set_scope set_job debit_parent scope_of available_to job_available scope_available
      exceeds
  allocated-IsValid none none a =
      with_root-IsValid l v job_id scope_id free a.fresh (cents share) j a.found
        (ground (arith, a.within))
  allocated-IsValid (some parent_id) (some p) a =
      with_child-IsValid l v job_id scope_id free a.fresh (cents share) j a.found parent_id p
        a.names.0 (ground (arith, a.within))
  allocated-IsValid none (some p) a = absurd a.names
  allocated-IsValid (some parent_id) none a = absurd a.names

-- `openScope` keeps the books valid.
pub open_scope-IsValid :
    (job_id scope_id : String) (parent_id : Option String) (share : Amount) (l : Ledger)
    → IsValid l
    → colon_free job_id ≡ true
    → IsValid (open_scope job_id scope_id parent_id share l).1
open_scope-IsValid job_id scope_id parent_id share l v free =
    elim (open_scope_outcome job_id scope_id parent_id share l) [
      | inl same ↦ subst IsValid (sym same.1) v
      | inr (j, p, a, _, e) ↦
          subst IsValid (sym e) (allocated-IsValid job_id scope_id share l v free j parent_id p a)
    ]
