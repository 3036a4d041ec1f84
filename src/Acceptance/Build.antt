-- ===== src/Acceptance/Build.antt =====
-- buildAcceptanceSpec of packages/acceptance/index.mjs.
use Prim.Native.String
use coreguard.Prelude.{
  ℕ, suc, ◌+◌, String, Bool, true, false, not, ◌==◌, Option, none, some, List, [], ◌∷◌, any,
  includes, if◌then◌else◌,
}
use coreguard.Budget.{Amount, decimal}

-- CHECK_KINDS; `unlisted` is any other value, a missing check included.
pub data CheckKind : Type 0 where
  digest_match artifact_present no_forbidden_calls budget_within_ceiling replay_match
        publisher_approval human_judgment unlisted :
      CheckKind

-- The arguments that a check may carry: `none` and `not_integer` are values of another type.
pub record CheckArgs : Type 0 where
  pub digest : Option String
  pub count : Amount
  pub forbidden : Option (List String)
  pub job_id : String

-- The `id` of a check as it is handed in.
pub data CheckId : Type 0 where
  absent not_text : CheckId
  text : String → CheckId

pub record RawCheck : Type 0 where
  pub id : CheckId
  pub kind : CheckKind
  pub args : CheckArgs

pub record Check : Type 0 where
  pub id : String
  pub kind : CheckKind
  pub args : CheckArgs

pub data Basis : Type 0 where
  machine judgment unlisted : Basis

pub record Spec : Type 0 where
  pub job_id : String
  pub basis : Basis
  pub checks : List Check

pub data SpecError : Type 0 where
  no_checks unknown_check_kind invalid_check_id duplicate_check_id invalid_basis : SpecError

-- A spec, an error as a value, or the TypeError on a bad job id.
pub data Built : Type 0 where
  built : Spec → Built
  failed : SpecError → Built
  threw : Built

unfoldable pub is_listed : CheckKind → Bool
is_listed CheckKind.unlisted = false
is_listed _ = true

-- JUDGMENT_KINDS
unfoldable pub is_judgment : CheckKind → Bool
is_judgment CheckKind.publisher_approval = true
is_judgment CheckKind.human_judgment = true
is_judgment _ = false

-- `kind.toLowerCase().replace(/_/g, "-")`
unfoldable pub kind_slug : CheckKind → String
kind_slug CheckKind.digest_match = "digest-match"
kind_slug CheckKind.artifact_present = "artifact-present"
kind_slug CheckKind.no_forbidden_calls = "no-forbidden-calls"
kind_slug CheckKind.budget_within_ceiling = "budget-within-ceiling"
kind_slug CheckKind.replay_match = "replay-match"
kind_slug CheckKind.publisher_approval = "publisher-approval"
kind_slug CheckKind.human_judgment = "human-judgment"
kind_slug CheckKind.unlisted = ""

-- checkId
unfoldable pub check_id : ℕ → CheckKind → String
unfolding kind_slug
check_id index kind =
    String.◌++◌ "chk-" (String.◌++◌ (decimal (index + 1)) (String.◌++◌ "-" (kind_slug kind)))

-- The loop over the declared ids, with the set of those seen.
unfoldable pub check_ids : List String → List RawCheck → Option SpecError
check_ids seen [] = none
check_ids seen (c ∷ cs) = elim c.id [
  | absent ↦ check_ids seen cs
  | not_text ↦ some SpecError.invalid_check_id
  | text id ↦
      let rest = check_ids (id ∷ seen) cs in
      if id == ""
      then some SpecError.invalid_check_id
      else if includes seen id
      then some SpecError.duplicate_check_id
      else rest
]

abbrev pub id_or : CheckId → String → String
id_or absent id = id
id_or not_text id = id
id_or (text s) id = if s == "" then id else s

-- The checks with their ids filled in, from an index on.
unfoldable pub normalise_from : ℕ → List RawCheck → List Check
normalise_from i [] = []
normalise_from i (c ∷ cs) =
    record { id = id_or c.id (check_id i c.kind); kind = c.kind; args = c.args }
    ∷ normalise_from (suc i) cs

-- `basis || (some judgment kind ? "JUDGMENT" : "MACHINE")`
unfoldable pub raw_basis : Option Basis → List RawCheck → Basis
unfolding is_judgment
raw_basis none cs = if any (λ c. is_judgment c.kind) cs then Basis.judgment else Basis.machine
raw_basis (some b) cs = b

unfoldable pub with_basis : String → List RawCheck → Basis → Built
unfolding normalise_from
with_basis job_id cs Basis.unlisted = failed SpecError.invalid_basis
with_basis job_id cs b = built (record { job_id = job_id; basis = b; checks = normalise_from 0 cs })

unfoldable pub build_checks : String → List RawCheck → Option Basis → Built
unfolding with_basis raw_basis is_listed
build_checks job_id cs basis =
    if any (λ c. not (is_listed c.kind)) cs
    then failed SpecError.unknown_check_kind
    else elim (check_ids [] cs) [
      | some e ↦ failed e
      | none ↦ with_basis job_id cs (raw_basis basis cs)
    ]

unfoldable pub build_listed : String → Option (List RawCheck) → Option Basis → Built
build_listed job_id none basis = failed SpecError.no_checks
build_listed job_id (some []) basis = failed SpecError.no_checks
build_listed job_id (some (c ∷ cs)) basis = build_checks job_id (c ∷ cs) basis

-- buildAcceptanceSpec: `checks` is `none` where it is no array.
unfoldable pub build_acceptance_spec : String → Option (List RawCheck) → Option Basis → Built
unfolding build_listed
build_acceptance_spec job_id checks basis =
    if job_id == "" then threw else build_listed job_id checks basis
