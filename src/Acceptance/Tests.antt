-- ===== src/Acceptance/Tests.antt =====
-- The theorems about packages/acceptance/index.mjs at concrete inputs.
use coreguard.Prelude.{
  Any, ℕ, String, ◌≡◌, refl, ◌↔◌, Option, none, some, List, [], ◌∷◌, arith, pos, lookup, insert,
  All,
}
use coreguard.Budget.{
  Job, JobState, Ledger, Amount, create_budget_ledger, new_job, open_job, hold, holdable,
  require_job, set_job, is_positive_int, cents, exceeds, disposition, decimal,
}
use coreguard.Budget.Runs.{Reach, Step}
use coreguard.Acceptance.{
  CheckKind, CheckArgs, Check, RawCheck, absent, Spec, Basis, Verdict, AcceptanceState, Evidence,
  ReplayState, evaluate_acceptance, evaluate_checks, evaluate_kind, digest_verdict, count_verdict,
  aggregate, build_acceptance_spec, build_checks, check_ids, normalise_from, check_id, is_listed,
  is_judgment, target_of,
}
use coreguard.Acceptance.Verdicts.{verdict_of, aggregate_verdict}
use coreguard.Acceptance.Escrow.{Settles, verdict, evaluate_acceptance-Settles}

abbrev args : String → ℕ → CheckArgs
args digest count = record {
  digest = some digest;
  count = Amount.integer (pos count);
  forbidden = none;
  job_id = "escrow-1";
}

abbrev digest_check : Check
digest_check = record {
  id = "chk-1-digest-match";
  kind = CheckKind.digest_match;
  args = args "abc" 1;
}

abbrev count_check : Check
count_check = record {
  id = "chk-2-artifact-present";
  kind = CheckKind.artifact_present;
  args = args "abc" 1;
}

abbrev human_check : Check
human_check = record {
  id = "chk-3-human-judgment";
  kind = CheckKind.human_judgment;
  args = args "abc" 1;
}

abbrev spec : Spec
spec = record {
  job_id = "escrow-1";
  basis = Basis.machine;
  checks = digest_check ∷ count_check ∷ [];
}

abbrev evidence : Option String → Evidence
evidence digest = record {
  artifact_sha256 = digest;
  artifact_count = Amount.integer (pos 1);
  calls = none;
  replay_state = ReplayState.other;
  publisher_approved = none;
}

-- A digest for the tests: the text itself.
abbrev sha256_hex : String → String
sha256_hex s = s

-- A job of 400 cents that holds them all.
escrow : Ledger
escrow =
    (hold "escrow-1" (Amount.integer (pos 400))
      (open_job "escrow-1" (Amount.integer (pos 400)) (create_budget_ledger "USDC")).1).1

all_open : Unit {0}
unfolding escrow hold open_job create_budget_ledger holdable require_job set_job new_job
    is_positive_int cents exceeds lookup insert aggregate evaluate_checks evaluate_kind
    digest_verdict count_verdict build_acceptance_spec build_checks is_listed check_ids
    normalise_from check_id decimal is_judgment target_of disposition
all_open = tt

escrow-Reach : Reach sha256_hex "USDC" escrow
unfolding escrow
escrow-Reach =
    Reach.next (Reach.next Reach.start (Step.opens "escrow-1" (Amount.integer (pos 400))))
      (Step.holds "escrow-1" (Amount.integer (pos 400)))

verdicts :
    (verdict spec (some (evidence (some "abc"))) none ≡ AcceptanceState.accepted)
    × (verdict spec (some (evidence (some "zzz"))) none ≡ AcceptanceState.rejected)
    × (verdict spec (some (evidence none)) none ≡ AcceptanceState.unknown)
unfolding all_open
verdicts = (refl, refl, refl)

aggregate_verdict_example :
    ((aggregate (evaluate_checks spec.checks (some (evidence none)) none)
        ≡ AcceptanceState.accepted)
      ↔ All (λ c. verdict_of (some (evidence none)) none c ≡ Verdict.pass) spec.checks)
    × ((aggregate (evaluate_checks spec.checks (some (evidence none)) none)
          ≡ AcceptanceState.rejected)
        ↔ Any (λ c. verdict_of (some (evidence none)) none c ≡ Verdict.fail) spec.checks)
aggregate_verdict_example = aggregate_verdict (some (evidence none)) none spec.checks

abbrev raw_checks : List RawCheck
raw_checks = record { id = absent; kind = CheckKind.digest_match; args = args "abc" 1 } ∷ []

abbrev raw_spec : Spec
raw_spec = record { job_id = "escrow-1"; basis = Basis.machine; checks = digest_check ∷ [] }

abbrev locked : Job
locked = record (new_job "escrow-1" "USDC" 400) { held_cents = 400; state = JobState.held }

evaluate_acceptance-Settles_example :
    (l' : Ledger) × (j' : Job) × ((evaluate_acceptance
        (some spec)
        (some (evidence (some "abc")))
        (some escrow)).1
      ≡ some l')
    × (lookup "escrow-1" l'.jobs ≡ some j')
    × Settles (verdict spec (some (evidence (some "abc"))) (some escrow)) locked j'
unfolding all_open
evaluate_acceptance-Settles_example =
    evaluate_acceptance-Settles spec (some (evidence (some "abc"))) escrow locked (λ e. cc) refl
      refl (omega arith)
