-- ===== src/Budget/Accounts.antt =====
-- What packages/budget/ledger.mjs promises to a caller, without the order of its maps, its scopes,
-- its locks and its texts: an account for each job, and the charges that wait for an end.
use coreguard.Prelude.{
  ℕ, ◌+◌, ◌-◌, ◌≤◌, ◌<◌, String, ◌≡◌, if◌then◌else◌, Option, none, some, lookup, ◌==◌,
}
use coreguard.Budget.{Job, Reservation, Ledger, is_reserved}

pub record Account : Type 0 where
  pub ceiling_cents : ℕ
  pub reserved_cents : ℕ
  pub committed_cents : ℕ

pub record Charge : Type 0 where
  pub job_id : String
  pub amount_cents : ℕ

pub record Accounts : Type 0 where
  pub accounts : String → Option Account
  pub waiting : String → Option Charge

-- The value at one key, replaced.
abbrev pub put : {A : Type 0} → String → Option A → (String → Option A) → String → Option A
put k a f asked = if k == asked then a else f asked

-- The accounts with one account and one charge replaced.
abbrev pub write : String → Account → String → Option Charge → Accounts → Accounts
write k a id c v = record { accounts = put k (some a) v.accounts; waiting = put id c v.waiting }

-- What may happen to the accounts: a charge fits under the ceiling and waits under a free id; it ends
-- once, with the whole of its amount spent or given back.
pub data Allows (v : Accounts) : Accounts → Type 0 where
  opens :
      (k : String) (ceiling : ℕ)
      → v.accounts k ≡ none
      → Allows v (record v {
        accounts =
            put k
              (some (record { ceiling_cents = ceiling; reserved_cents = 0; committed_cents = 0 }))
              v.accounts;
      })
  charges :
      (k id : String) (a : Account) (n : ℕ)
      → v.accounts k ≡ some a
      → v.waiting id ≡ none
      → 0 < n
      → a.reserved_cents + n + a.committed_cents ≤ a.ceiling_cents
      → Allows v (
          write k
            (record a { reserved_cents = a.reserved_cents + n })
            id
            (some (record { job_id = k; amount_cents = n }))
            v)
  spends :
      (k id : String) (a : Account) (n : ℕ)
      → v.accounts k ≡ some a
      → v.waiting id ≡ some (record { job_id = k; amount_cents = n })
      → n ≤ a.reserved_cents
      → Allows v (
          write k
            (record a {
              reserved_cents = a.reserved_cents - n;
              committed_cents = a.committed_cents + n;
            })
            id
            none
            v)
  frees :
      (k id : String) (a : Account) (n : ℕ)
      → v.accounts k ≡ some a
      → v.waiting id ≡ some (record { job_id = k; amount_cents = n })
      → n ≤ a.reserved_cents
      → Allows v (write k (record a { reserved_cents = a.reserved_cents - n }) id none v)

-- A run of such steps.
pub data Evolves (v : Accounts) : Accounts → Type 0 where
  start : Evolves v v
  next : {w u : Accounts} → Evolves v w → Allows w u → Evolves v u

-- No account and no charge.
abbrev pub no_accounts : Accounts
no_accounts = record { accounts = λ k. none; waiting = λ id. none }

abbrev pub account_of : Job → Account
account_of j = record {
  ceiling_cents = j.ceiling_cents;
  reserved_cents = j.reserved_cents;
  committed_cents = j.committed_cents;
}

abbrev pub account : Option Job → Option Account
account none = none
account (some j) = some (account_of j)

abbrev pub charge : Option Reservation → Option Charge
charge none = none
charge (some r) =
    if is_reserved r.state
    then some (record { job_id = r.job_id; amount_cents = r.amount_cents })
    else none

-- The accounts that a ledger stands for.
unfoldable pub accounts_of : Ledger → Accounts
accounts_of l = record {
  accounts = λ k. account (lookup k l.jobs);
  waiting = λ id. charge (lookup id l.reservations);
}
