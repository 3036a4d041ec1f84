-- ===== src/Budget/Outcomes.antt =====
-- What a call of packages/budget/ledger.mjs can have done, and what `reserve` has.
use coreguard.Prelude.{
  suc, String, ◌≡◌, ◌⊎◌, inl, inr, Bool, true, false, Option, none, some, arith, lookup,
  Option-cases, Bool-cases, ◌&&◌, not,
}
use coreguard.Budget.{
  Job, Scope, Ledger, Reserved, available_after, refused, threw, Cost, Answer, ok, is_positive_int,
  cents, exceeds, available_to, reservation_id, or_job, scope_of, open_scope_of, reserve, book,
  is_closed, is_unlisted,
}

-- Whether the call gave a result.
abbrev pub succeeded : {A : Type 0} → Answer A → Bool
succeeded (ok a) = true
succeeded (refused e) = false
succeeded (threw t) = false

-- A refusal or an exception, and no write.
abbrev pub Untouched : {A : Type 0} → Ledger → Answer A × Ledger → Type 0
Untouched l r = (succeeded r.0 ≡ false) × (r.1 ≡ l)

-- `s` is the scope that the optional name stands for in the job, and it is open.
abbrev pub Names : String → Option String → Option Scope → Ledger → Type 0
Names job_id none none l = Unit
Names job_id (some scope_id) (some s) l =
    (scope_of job_id scope_id l ≡ some s) × (is_closed s.state ≡ false)
Names job_id _ _ l = ⊥

-- The id that the next reservation gets.
abbrev pub next_id : (String → String) → Cost → Ledger → String
next_id sha256_hex c l = reservation_id sha256_hex c.job_id (or_job c.scope_id c.job_id) (suc l.seq)

-- The guards of `reserve` hold for the cost, in the job `j` and the scope `s`.
pub record Fits (c : Cost) (l : Ledger) (j : Job) (s : Option Scope) : Type 0 where
  pub found : lookup c.job_id l.jobs ≡ some j
  pub names : Names c.job_id c.scope_id s l
  pub positive : is_positive_int c.amount_cents ≡ true
  pub within : exceeds (cents c.amount_cents) (available_to j s) ≡ false

abbrev pub reserved_answer : Cost → Job → Option Scope → String → Reserved
reserved_answer c j s id = record {
  reservation_id = id;
  job_id = c.job_id;
  scope_id = c.scope_id;
  amount_cents = cents c.amount_cents;
  source = c.source;
  available_cents = available_after j s (cents c.amount_cents);
}

abbrev pub Booked : (String → String) → Cost → Ledger → Answer Reserved × Ledger → Type 0
Booked sha256_hex c l r =
    (j : Job) × (s : Option Scope) × Fits c l j s
    × (r ≡ (
      ok (reserved_answer c j s (next_id sha256_hex c l)),
      book c j s (next_id sha256_hex c l) l,
    ))

module _ (sha256_hex : String → String) (c : Cost) (l : Ledger) where
  module _ (j : Job) (ej : lookup c.job_id l.jobs ≡ some j) where
    reserve_outcome_root :
        c.scope_id ≡ none
        → Untouched l (reserve sha256_hex c l) ⊎ Booked sha256_hex c l (reserve sha256_hex c l)
    unfolding reserve open_scope_of
    reserve_outcome_root es =
        elim (Bool-cases (
          not (is_unlisted c.source)
          && is_positive_int c.amount_cents
          && not (exceeds (cents c.amount_cents) (available_to j none)))) [
            | inl fits ↦ inr (j, none, ground arith, ground arith)
            | inr not_fits ↦ inl (ground arith)
          ]

    reserve_outcome_scope :
        (scope_id : String)
        → c.scope_id ≡ some scope_id
        → Untouched l (reserve sha256_hex c l) ⊎ Booked sha256_hex c l (reserve sha256_hex c l)
    unfolding reserve open_scope_of scope_of
    reserve_outcome_scope scope_id es = elim (Option-cases (scope_of c.job_id scope_id l)) [
      | inl missing ↦ inl (ground arith)
      | inr (s, found) ↦
          elim (Bool-cases (
            not (is_unlisted c.source)
            && is_positive_int c.amount_cents
            && not (is_closed s.state)
            && not (exceeds (cents c.amount_cents) (available_to j (some s))))) [
              | inl fits ↦ inr (j, some s, ground arith, ground arith)
              | inr not_fits ↦ inl (ground arith)
            ]
    ]

  -- `reserve` either refuses or throws and writes nothing, or the job exists, the scope that is named
  -- exists and is open, the amount is above zero and at most what is available there, and the answer
  -- and the writes are those of one booking of that amount under the next id.
  pub reserve_outcome :
      Untouched l (reserve sha256_hex c l) ⊎ Booked sha256_hex c l (reserve sha256_hex c l)
  unfolding reserve
  reserve_outcome = elim (Option-cases (lookup c.job_id l.jobs)) [
    | inl missing ↦ inl (ground arith)
    | inr (j, ej) ↦ elim (Option-cases c.scope_id) [
      | inl root ↦ reserve_outcome_root j ej root
      | inr (scope_id, es) ↦ reserve_outcome_scope j ej scope_id es
    ]
  ]

  -- Where the source of the cost is listed, the job exists, the scope that is named exists and is open,
  -- and the amount is above zero and at most what is available there, `reserve` succeeds, and its
  -- answer and its writes are those of one booking of that amount under the next id.
  pub reserve-Fits :
      (j : Job) (s : Option Scope)
      → is_unlisted c.source ≡ false
      → Fits c l j s
      → reserve sha256_hex c l ≡ (
        ok (reserved_answer c j s (next_id sha256_hex c l)),
        book c j s (next_id sha256_hex c l) l,
      )
  unfolding reserve open_scope_of scope_of
  reserve-Fits j none listed f = elim (Option-cases c.scope_id) [
    | inl root ↦ ground (arith, f.found, f.names, f.positive, f.within)
    | inr (scope_id, es) ↦ ground (arith, f.found, f.names, f.positive, f.within)
  ]
  reserve-Fits j (some s) listed f = elim (Option-cases c.scope_id) [
    | inl root ↦ ground (arith, f.found, f.names, f.positive, f.within)
    | inr (scope_id, es) ↦ ground (arith, f.found, f.names, f.positive, f.within)
  ]
