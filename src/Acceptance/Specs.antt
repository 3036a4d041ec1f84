-- ===== src/Acceptance/Specs.antt =====
-- What buildAcceptanceSpec of packages/acceptance/index.mjs lets through.
use coreguard.Prelude.{
  ℕ, suc, ◌<◌, String, ◌≡◌, refl, subst, ◌≢◌, true, false, not, ◌==◌, Option, none, some, List, [],
  ◌∷◌, arith, any, length, All,
}
use coreguard.Acceptance.{
  CheckKind, CheckArgs, absent, text, RawCheck, Spec, Basis, build_acceptance_spec, build_listed,
  build_checks, with_basis, built, is_listed, check_ids, raw_basis, normalise_from, check_id,
}

-- At least one check, each of a kind that can be evaluated, as many as were handed in, on a
-- declared basis.
pub record IsSpec (raw : List RawCheck) (spec : Spec) : Type 0 where
  pub some_check : 0 < length spec.checks
  pub same_length : length spec.checks ≡ length raw
  pub listed : All (λ c. is_listed c.kind ≡ true) spec.checks
  pub based : spec.basis ≢ Basis.unlisted

length-normalise_from : (i : ℕ) (cs : List RawCheck) → length (normalise_from i cs) ≡ length cs
unfolding normalise_from
length-normalise_from i [] = refl
length-normalise_from i (c ∷ cs) = omega (arith, length-normalise_from (suc i) cs)

normalise_from-listed :
    (i : ℕ) (cs : List RawCheck)
    → any (λ c. not (is_listed c.kind)) cs ≡ false
    → All (λ c. is_listed c.kind ≡ true) (normalise_from i cs)
unfolding normalise_from
normalise_from-listed i [] h = tt
normalise_from-listed i (c ∷ cs) h = ground (arith, normalise_from-listed (suc i) cs)

built-injective : (s t : Spec) → built s ≡ built t → s ≡ t
built-injective s t e = cc

with_basis-IsSpec :
    (job_id : String) (c : RawCheck) (cs : List RawCheck) (b : Basis) (spec : Spec)
    → any (λ c. not (is_listed c.kind)) (c ∷ cs) ≡ false
    → with_basis job_id (c ∷ cs) b ≡ built spec
    → IsSpec (c ∷ cs) spec
unfolding with_basis
with_basis-IsSpec job_id c cs Basis.unlisted spec h e = cc
with_basis-IsSpec job_id c cs b spec h e =
    subst (IsSpec (c ∷ cs)) (built-injective _ spec e) (record {
      some_check = omega (arith, length-normalise_from 0 (c ∷ cs));
      same_length = length-normalise_from 0 (c ∷ cs);
      listed = normalise_from-listed 0 (c ∷ cs) h;
      based = λ b. cc;
    })

-- A spec that is built has at least one check, as many as were handed in, each of a listed kind,
-- and a basis that is MACHINE or JUDGMENT.
pub build_acceptance_spec-IsSpec :
    (job_id : String) (raw : List RawCheck) (basis : Option Basis) (spec : Spec)
    → build_acceptance_spec job_id (some raw) basis ≡ built spec
    → IsSpec raw spec
unfolding build_acceptance_spec build_listed build_checks
build_acceptance_spec-IsSpec job_id [] basis spec e = ground arith
build_acceptance_spec-IsSpec job_id (c ∷ cs) basis spec e =
    ground (arith, with_basis-IsSpec job_id c cs (raw_basis basis (c ∷ cs)) spec)

-- For a named job and two listed kinds, the first check with an id that spells the default id of
-- the second, which has none, the spec is built and both of its checks have that id.
pub build-repeats_id :
    (job_id : String) (k k' : CheckKind) (args args' : CheckArgs)
    → (job_id == "") ≡ false
    → is_listed k ≡ true
    → is_listed k' ≡ true
    → (check_id 1 k' == "") ≡ false
    → (spec : Spec) × (build_acceptance_spec job_id
          (some (
            record { id = text (check_id 1 k'); kind = k; args = args }
            ∷ record { id = absent; kind = k'; args = args' }
            ∷ []))
          none
        ≡ built spec)
      × (spec.checks
          ≡ record { id = check_id 1 k'; kind = k; args = args }
            ∷ record { id = check_id 1 k'; kind = k'; args = args' }
            ∷ [])
unfolding build_acceptance_spec build_listed build_checks check_ids normalise_from with_basis
    raw_basis
build-repeats_id job_id k k' args args' named listed listed' filled = (
  record {
    job_id = job_id;
    basis = raw_basis none (
        record { id = text (check_id 1 k'); kind = k; args = args }
        ∷ record { id = absent; kind = k'; args = args' }
        ∷ []);
    checks =
        record { id = check_id 1 k'; kind = k; args = args }
        ∷ record { id = check_id 1 k'; kind = k'; args = args' }
        ∷ [];
  },
  ground arith,
  refl,
)
