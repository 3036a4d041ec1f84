-- ===== src/Acceptance/Verdicts.antt =====
-- The verdict of packages/acceptance/index.mjs against what its checks say.
use coreguard.Prelude.{
  Any, String, ◌≡◌, refl, ◌↔◌, ◌≢◌, inl, inr, true, Option, some, List, [], ◌∷◌, arith, any, All,
  lookup, Bool-cases, Option-cases,
}
use coreguard.Budget.{Ledger, snapshot}
use coreguard.Budget.Runs.{Reach, Reach-ceiling}
use coreguard.Acceptance.{
  Check, Verdict, AcceptanceState, Evidence, evaluate_kind, evaluate_checks, aggregate,
  or_no_evidence, is_fail, budget_verdict,
}

-- The verdict of one check of a spec.
abbrev pub verdict_of : Option Evidence → Option Ledger → Check → Verdict
verdict_of e l c = evaluate_kind c.kind c.args (or_no_evidence e) l

module _ (e : Option Evidence) (l : Option Ledger) where
  passed_accepted :
      (cs : List Check)
      → All (λ c. verdict_of e l c ≡ Verdict.pass) cs
      → aggregate (evaluate_checks cs e l) ≡ AcceptanceState.accepted
  unfolding aggregate evaluate_checks
  passed_accepted [] h = refl
  passed_accepted (c ∷ cs) h = ground (arith, passed_accepted cs h.1)

  accepted_passed :
      (cs : List Check)
      → aggregate (evaluate_checks cs e l) ≡ AcceptanceState.accepted
      → All (λ c. verdict_of e l c ≡ Verdict.pass) cs
  unfolding aggregate evaluate_checks
  accepted_passed [] h = tt
  accepted_passed (c ∷ cs) h = ground (arith, accepted_passed cs)

  failed_rejected :
      (cs : List Check)
      → Any (λ c. verdict_of e l c ≡ Verdict.fail) cs
      → any (λ r. is_fail r.verdict) (evaluate_checks cs e l) ≡ true
  unfolding evaluate_checks
  failed_rejected [] h = absurd h
  failed_rejected (c ∷ cs) (inl h) = ground arith
  failed_rejected (c ∷ cs) (inr h) = ground (arith, failed_rejected cs h)

  rejected_failed :
      (cs : List Check)
      → any (λ r. is_fail r.verdict) (evaluate_checks cs e l) ≡ true
      → Any (λ c. verdict_of e l c ≡ Verdict.fail) cs
  unfolding evaluate_checks
  rejected_failed [] h = cc
  rejected_failed (c ∷ cs) h = elim (Bool-cases (is_fail (verdict_of e l c))) [
    | inl fails ↦ inl (ground arith)
    | inr other ↦ inr (rejected_failed cs (ground arith))
  ]

  -- The aggregate of a list of checks is ACCEPTED exactly when every check passes, and REJECTED
  -- exactly when some check fails.
  pub aggregate_verdict :
      (cs : List Check)
      → ((aggregate (evaluate_checks cs e l) ≡ AcceptanceState.accepted)
          ↔ All (λ c. verdict_of e l c ≡ Verdict.pass) cs)
        × ((aggregate (evaluate_checks cs e l) ≡ AcceptanceState.rejected)
            ↔ Any (λ c. verdict_of e l c ≡ Verdict.fail) cs)
  unfolding aggregate
  aggregate_verdict cs = (
    (accepted_passed cs, passed_accepted cs),
    ((λ h. rejected_failed cs (ground arith)), (λ h. ground (arith, failed_rejected cs h))),
  )

-- On a ledger that ledger calls have led to, the budget check never fails, for any job.
pub budget_verdict-not_fail :
    (sha256_hex : String → String) (currency job_id : String) (l : Ledger)
    → Reach sha256_hex currency l
    → budget_verdict job_id (some l) ≢ Verdict.fail
unfolding budget_verdict snapshot
budget_verdict-not_fail sha256_hex currency job_id l r h =
    elim (Option-cases (lookup job_id l.jobs)) [
      | inl missing ↦ ground arith
      | inr (j, e) ↦ ground (arith, Reach-ceiling sha256_hex currency l job_id j r e)
    ]
