-- ===== src/Budget/Frames.antt =====
-- One entry of a map of packages/budget/ledger.mjs written, and what is free in a job or in a scope.
use coreguard.Prelude.{
  ℕ, ◌+◌, ◌≤◌, ◌<◌, String, ◌≡◌, ◌≢◌, refl, true, false, Option, none, some, arith, pos, negsuc,
  lookup, insert, lookup-insert_self, lookup-insert_ne, Dict,
}
use coreguard.Budget.{
  Job, Scope, Amount, is_positive_int, cents, exceeds, available_to, job_available, scope_available,
  scope_key,
}

-- The map differs from the old one at one key, where it has the value.
pub record Sets {V : Type 0} (k : String) (v : V) (old new : Dict V) : Type 0 where
  pub here : lookup k new ≡ some v
  pub elsewhere : (asked : String) → k ≢ asked → lookup asked new ≡ lookup asked old

pub insert-Sets : {V : Type 0} (k : String) (v : V) (m : Dict V) → Sets k v m (insert k v m)
insert-Sets k v m = record {
  here = lookup-insert_self k v m;
  elsewhere = λ asked other. lookup-insert_ne k asked v m other;
}

-- The scope that is named, if one is: it has the key in the old map and is the one value that the new
-- map has of its own.
abbrev pub SetsScope : String → Option String → Option Scope → (old new : Dict Scope) → Type 0
SetsScope job_id (some scope_id) (some s) old new = Sets (scope_key job_id scope_id) s old new
SetsScope job_id _ _ old new = new ≡ old

-- What is free is at least `n`, in the scope or else in the job.
abbrev pub HasFree : Job → Option Scope → ℕ → Type 0
HasFree j none n = j.child_shares_cents + j.reserved_cents + j.committed_cents + n ≤ j.ceiling_cents
HasFree j (some s) n =
    s.child_shares_cents + s.reserved_cents + s.committed_cents + n ≤ s.share_cents

pub positive-integer :
    (a : Amount) → is_positive_int a ≡ true → (a ≡ Amount.integer (pos (cents a))) × (0 < cents a)
unfolding is_positive_int cents
positive-integer (Amount.integer (pos n)) h = (refl, ground arith)
positive-integer (Amount.integer (negsuc n)) h = ground arith
positive-integer Amount.not_integer h = ground arith

pub within-HasFree :
    (n : ℕ) (j : Job) (s : Option Scope) → exceeds n (available_to j s) ≡ false → HasFree j s n
unfolding exceeds available_to job_available scope_available
within-HasFree n j none h = ground arith
within-HasFree n j (some s) h = ground arith
