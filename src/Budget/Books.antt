-- ===== src/Budget/Books.antt =====
-- The books of a ledger (packages/budget/ledger.mjs): sums over its maps, and the invariant that
-- ties them to the counters of the jobs and the scopes.
use coreguard.Prelude.{
  ℕ, ◌+◌, ◌≤◌, String, ◌≡◌, true, Option, none, some, [], ◌∷◌, arith, ◌==◌, if◌then◌else◌, Dict,
  lookup, sum_by, AllValues,
}
use coreguard.Budget.{Job, Scope, Reservation, Ledger, scope_key, new_job, new_scope, is_reserved}
use coreguard.Budget.Keys.{colon_free}

-- `n` for the job `k`, and nothing for another.
abbrev pub mine : String → String → ℕ → ℕ
mine k job_id n = if job_id == k then n else 0

abbrev pub root_share : Option String → ℕ → ℕ
root_share none n = n
root_share (some p) n = 0

abbrev pub child_share : Option String → ℕ → ℕ
child_share none n = 0
child_share (some p) n = n

-- What the scopes of the job `k` were given by the job itself, and by other scopes.
abbrev pub top : String → String → Scope → ℕ
top k key s = mine k s.job_id (root_share s.parent_scope_id s.share_cents)

abbrev pub nested : String → String → Scope → ℕ
nested k key s = mine k s.job_id (child_share s.parent_scope_id s.share_cents)

-- What they have passed on, and what they have reserved or committed themselves.
abbrev pub carved : String → String → Scope → ℕ
carved k key s = mine k s.job_id s.child_shares_cents

abbrev pub own : String → String → Scope → ℕ
own k key s = mine k s.job_id (s.reserved_cents + s.committed_cents)

-- The amount of a reservation that is still open, for its job and for its scope.
abbrev pub due : Reservation → ℕ
due r = if is_reserved r.state then r.amount_cents else 0

abbrev pub pending : String → String → Reservation → ℕ
pending k id r = mine k r.job_id (due r)

abbrev pub in_scope : String → String → Option String → ℕ → ℕ
in_scope key job_id none n = 0
in_scope key job_id (some scope_id) n = mine key (scope_key job_id scope_id) n

abbrev pub pending_in : String → String → Reservation → ℕ
pending_in key id r = in_scope key r.job_id r.scope_id (due r)

-- The job or the scope under a key, or an empty one.
abbrev pub or_new_job : Option Job → Job
or_new_job none = new_job "" "" 0
or_new_job (some j) = j

abbrev pub or_new_scope : Option Scope → Scope
or_new_scope none = new_scope "" "" none 0
or_new_scope (some s) = s

pub record JobBooks (k : String) (l : Ledger) : Type 0 where
  pub shares : sum_by (top k) l.scopes ≡ (or_new_job (lookup k l.jobs)).child_shares_cents
  pub subshares : sum_by (nested k) l.scopes ≡ sum_by (carved k) l.scopes
  pub covered :
      (or_new_job (lookup k l.jobs)).reserved_cents
        + (or_new_job (lookup k l.jobs)).committed_cents
        + (or_new_job (lookup k l.jobs)).child_shares_cents
      ≤ (or_new_job (lookup k l.jobs)).ceiling_cents + sum_by (own k) l.scopes
  pub owed : sum_by (pending k) l.reservations ≡ (or_new_job (lookup k l.jobs)).reserved_cents

abbrev pub ScopeBooks : String → Ledger → Type 0
ScopeBooks key l =
    sum_by (pending_in key) l.reservations ≡ (or_new_scope (lookup key l.scopes)).reserved_cents

-- A scope has not given away more than its share.
abbrev pub IsWithin : Scope → Type 0
IsWithin s = s.child_shares_cents + s.reserved_cents + s.committed_cents ≤ s.share_cents

-- A scope stands under its own key, in a job whose id has no colon.
abbrev pub IsNamed : String → Scope → Type 0
IsNamed key s = (key ≡ scope_key s.job_id s.scope_id) × (colon_free s.job_id ≡ true)

pub record IsValid (l : Ledger) : Type 0 where
  pub jobs : (k : String) → JobBooks k l
  pub scopes : (key : String) → ScopeBooks key l
  pub within : AllValues IsWithin l.scopes
  pub named : (key : String) (s : Scope) → lookup key l.scopes ≡ some s → IsNamed key s

-- Within their shares, the scopes of a job spend no more than the job gave to scopes.
own_bound :
    (k : String) (m : Dict Scope)
    → AllValues IsWithin m
    → sum_by (carved k) m + sum_by (own k) m ≤ sum_by (top k) m + sum_by (nested k) m
unfolding sum_by
own_bound k [] h = omega arith
own_bound k ((key, s) ∷ m) h = ground (arith, own_bound k m h.1)

-- So in valid books a job's whole spending stays under its ceiling.
pub spending-le-ceiling :
    (k : String) (l : Ledger)
    → IsValid l
    → let j = or_new_job (lookup k l.jobs) in j.reserved_cents + j.committed_cents ≤ j.ceiling_cents
spending-le-ceiling k l v =
    let b = v.jobs k in
    let h = own_bound k l.scopes v.within in omega (arith, b.shares, b.subshares, b.covered)
