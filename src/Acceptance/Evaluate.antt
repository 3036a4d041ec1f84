-- ===== src/Acceptance/Evaluate.antt =====
-- evaluateCheck and evaluateAcceptance of packages/acceptance/index.mjs.
use coreguard.Prelude.{
  ℕ, ◌+◌, String, Bool, true, false, ◌||◌, ◌==◌, Option, none, some, List, [], ◌∷◌, any, includes,
  if◌then◌else◌, leb, ltb, length, pos,
}
use coreguard.Budget.{
  Amount, Ledger, Target, Snapshot, snapshot, disposition, Answer, Disposed, Refusal, ok, refused,
  JobState,
}
use coreguard.Budget
use coreguard.Acceptance.Build.{CheckKind, CheckArgs, Check, Basis, Spec}

-- CHECK_VERDICTS and ACCEPTANCE_STATES
pub data Verdict : Type 0 where
  pass fail unknown : Verdict

pub data AcceptanceState : Type 0 where
  accepted rejected unknown : AcceptanceState

pub data ReplayState : Type 0 where
  matched mismatched other : ReplayState

-- The evidence that the caller supplies: `none` and `not_integer` are values of another type.
pub record Evidence : Type 0 where
  pub artifact_sha256 : Option String
  pub artifact_count : Amount
  pub calls : Option (List String)
  pub replay_state : ReplayState
  pub publisher_approved : Option Bool

-- Evidence that is null reads as one with nothing in it.
abbrev pub no_evidence : Evidence
no_evidence = record {
  artifact_sha256 = none;
  artifact_count = Amount.not_integer;
  calls = none;
  replay_state = ReplayState.other;
  publisher_approved = none;
}

-- DIGEST_MATCH
unfoldable pub digest_verdict : Option String → Option String → Verdict
digest_verdict none got = Verdict.unknown
digest_verdict (some want) none = Verdict.unknown
digest_verdict (some want) (some got) =
    if want == "" || got == ""
    then Verdict.unknown
    else if want == got
    then Verdict.pass
    else Verdict.fail

-- ARTIFACT_PRESENT
unfoldable pub count_verdict : Amount → Amount → Verdict
count_verdict (Amount.integer (pos want)) (Amount.integer (pos got)) =
    if leb want got then Verdict.pass else Verdict.fail
count_verdict _ _ = Verdict.unknown

-- NO_FORBIDDEN_CALLS
unfoldable pub calls_verdict : Option (List String) → Option (List String) → Verdict
calls_verdict none calls = Verdict.unknown
calls_verdict (some forbidden) none = Verdict.unknown
calls_verdict (some forbidden) (some calls) =
    if any (includes forbidden) calls then Verdict.fail else Verdict.pass

-- BUDGET_WITHIN_CEILING
unfoldable pub budget_verdict : String → Option Ledger → Verdict
budget_verdict job_id none = Verdict.unknown
budget_verdict job_id (some l) = elim (snapshot job_id l) [
  | none ↦ Verdict.unknown
  | some s ↦ if ltb s.ceiling_cents s.committed_cents then Verdict.fail else Verdict.pass
]

-- REPLAY_MATCH
unfoldable pub replay_verdict : ReplayState → Verdict
replay_verdict ReplayState.matched = Verdict.pass
replay_verdict ReplayState.mismatched = Verdict.fail
replay_verdict ReplayState.other = Verdict.unknown

-- PUBLISHER_APPROVAL
unfoldable pub approval_verdict : Option Bool → Verdict
approval_verdict (some true) = Verdict.pass
approval_verdict (some false) = Verdict.fail
approval_verdict none = Verdict.unknown

-- evaluateCheck
unfoldable pub evaluate_kind : CheckKind → CheckArgs → Evidence → Option Ledger → Verdict
evaluate_kind CheckKind.digest_match args e l = digest_verdict args.digest e.artifact_sha256
evaluate_kind CheckKind.artifact_present args e l = count_verdict args.count e.artifact_count
evaluate_kind CheckKind.no_forbidden_calls args e l = calls_verdict args.forbidden e.calls
evaluate_kind CheckKind.budget_within_ceiling args e l = budget_verdict args.job_id l
evaluate_kind CheckKind.replay_match args e l = replay_verdict e.replay_state
evaluate_kind CheckKind.publisher_approval args e l = approval_verdict e.publisher_approved
evaluate_kind CheckKind.human_judgment args e l = Verdict.unknown
evaluate_kind CheckKind.unlisted args e l = Verdict.unknown

pub record CheckResult : Type 0 where
  pub id : String
  pub kind : CheckKind
  pub verdict : Verdict

abbrev pub or_no_evidence : Option Evidence → Evidence
or_no_evidence none = no_evidence
or_no_evidence (some e) = e

unfoldable pub evaluate_checks : List Check → Option Evidence → Option Ledger → List CheckResult
evaluate_checks [] e l = []
evaluate_checks (c ∷ cs) e l =
    record { id = c.id; kind = c.kind; verdict = evaluate_kind c.kind c.args (or_no_evidence e) l }
    ∷ evaluate_checks cs e l

abbrev pub is_pass : Verdict → Bool
is_pass Verdict.pass = true
is_pass _ = false

abbrev pub is_fail : Verdict → Bool
is_fail Verdict.fail = true
is_fail _ = false

abbrev pub is_unknown : Verdict → Bool
is_unknown Verdict.unknown = true
is_unknown _ = false

-- Any FAIL is REJECTED, any UNKNOWN is UNKNOWN, and the rest is ACCEPTED.
unfoldable pub aggregate : List CheckResult → AcceptanceState
aggregate rs =
    if any (λ r. is_fail r.verdict) rs
    then AcceptanceState.rejected
    else if any (λ r. is_unknown r.verdict) rs
    then AcceptanceState.unknown
    else AcceptanceState.accepted

unfoldable pub target_of : AcceptanceState → Target
target_of AcceptanceState.accepted = Target.released
target_of AcceptanceState.rejected = Target.refunded
target_of AcceptanceState.unknown = Target.held

unfoldable pub reason_of : AcceptanceState → String
reason_of AcceptanceState.accepted = "acceptance verdict ACCEPTED"
reason_of AcceptanceState.rejected = "acceptance verdict REJECTED"
reason_of AcceptanceState.unknown = "acceptance verdict UNKNOWN"

unfoldable pub count_verdicts : (Verdict → Bool) → List CheckResult → ℕ
count_verdicts p [] = 0
count_verdicts p (r ∷ rs) = (if p r.verdict then 1 else 0) + count_verdicts p rs

pub record Counts : Type 0 where
  pub pass : ℕ
  pub fail : ℕ
  pub unknown : ℕ
  pub total : ℕ

unfoldable pub counts_of : List CheckResult → Counts
unfolding count_verdicts
counts_of rs = record {
  pass = count_verdicts is_pass rs;
  fail = count_verdicts is_fail rs;
  unknown = count_verdicts is_unknown rs;
  total = length rs;
}

-- What came of handing the disposition to the ledger.
pub data Applied : Type 0 where
  not_applied : Applied
  applied : Target → ℕ → Applied
  not_accepted : Applied

unfoldable pub applied_of : Answer Disposed → Applied
applied_of (ok d) = Applied.applied d.state d.held_cents
applied_of _ = Applied.not_accepted

pub record Acceptance : Type 0 where
  pub state : AcceptanceState
  pub disposition : Target
  pub applied : Applied
  pub basis : Basis
  pub job_id : String
  pub checks : List CheckResult
  pub counts : Counts

pub data Evaluation : Type 0 where
  no_spec : Evaluation
  evaluated : Acceptance → Evaluation

-- The disposition on the ledger, where there are a ledger and a job id.
unfoldable pub apply_disposition :
    AcceptanceState → String → Option Ledger → Applied × Option Ledger
apply_disposition state job_id none = (Applied.not_applied, none)
apply_disposition state job_id (some l) =
    if job_id == ""
    then (Applied.not_applied, some l)
    else let (a, l') =
        Budget.disposition job_id (target_of state) none (some (reason_of state)) l in
      (applied_of a, some l')

-- evaluateAcceptance: a spec that is null or has no checks is no spec.
unfoldable pub evaluate_spec : Spec → Option Evidence → Option Ledger → Evaluation × Option Ledger
evaluate_spec spec evidence l =
    let results = evaluate_checks spec.checks evidence l in
    let state = aggregate results in
    let (a, l') = apply_disposition state spec.job_id l in
    (
      Evaluation.evaluated (record {
        state = state;
        disposition = target_of state;
        applied = a;
        basis = spec.basis;
        job_id = spec.job_id;
        checks = results;
        counts = counts_of results;
      }),
      l',
    )

unfoldable pub evaluate_acceptance :
    Option Spec → Option Evidence → Option Ledger → Evaluation × Option Ledger
unfolding evaluate_spec
evaluate_acceptance none evidence l = (Evaluation.no_spec, l)
evaluate_acceptance (some spec) evidence l = elim spec.checks [
  | [] ↦ (Evaluation.no_spec, l)
  | c ∷ cs ↦ evaluate_spec spec evidence l
]
