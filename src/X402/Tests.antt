-- ===== src/X402/Tests.antt =====
-- The theorems about packages/x402/index.mjs at concrete inputs.
use coreguard.Prelude.{
  ℕ, zero, suc, ◌≡◌, ◌≢◌, refl, sym, ap, String, List, [], ◌∷◌, true, none, some, arith, codes, pos,
  lookup, insert,
}
use coreguard.Budget.{
  Amount, create_budget_ledger, new_job, set_job, is_positive_int, cents, exceeds, job_available,
  available_to,
}
use coreguard.Budget.Outcomes.{Fits}
use coreguard.X402.{
  Challenge, Harness, BudgetOf, RunMode, answered, State, SignAnswer, settled_by, fresh_state, sign,
  settle, sign_challenge, verify_challenge_signature, challenge_json, count_settled, cost_of,
}
use coreguard.X402.Signatures.{IsDigest, verify-sign}
use coreguard.X402.Signing.{signed_state, sign-empty_secret}
use coreguard.X402.Payments.{Paid, settle-sign, settle_unsigned}
use coreguard.Canonical.{
  Fields, canonicalize, canonical_fields, quote, escape_units, escape_unit, lower_0x, starts_0x,
  number_text, integer_text, to_decimal, decimal_on, max_safe, sort_pairs, insert_pair, text_before,
  pair_text, join,
}
use coreguard.Canonical.Normal.{normal}

-- A digest for the tests: the text in unary.
unary_unit : ℕ → String → String
unary_unit zero rest = String.◌∷◌ "," rest
unary_unit (suc n) rest = String.◌∷◌ "x" (unary_unit n rest)

unary : List ℕ → String
unfolding unary_unit
unary [] = "."
unary (c ∷ cs) = unary_unit c (unary cs)

unary_unit-injective :
    (m n : ℕ) (s t : String)
    → codes (unary_unit m s) ≡ codes (unary_unit n t)
    → (m ≡ n) × (codes s ≡ codes t)
unfolding unary_unit codes
unary_unit-injective zero zero s t e = ground arith
unary_unit-injective zero (suc n) s t e = ground arith
unary_unit-injective (suc m) zero s t e = ground arith
unary_unit-injective (suc m) (suc n) s t e = ground (arith, unary_unit-injective m n s t)

unary_unit-dot : (n : ℕ) (s : String) → codes (unary_unit n s) ≢ codes "."
unfolding unary_unit codes
unary_unit-dot zero s e = ground arith
unary_unit-dot (suc n) s e = ground arith

codes-unary-injective : (s t : List ℕ) → codes (unary s) ≡ codes (unary t) → s ≡ t
unfolding unary
codes-unary-injective [] [] e = refl
codes-unary-injective [] (n ∷ t) e = absurd (unary_unit-dot n (unary t) (sym e))
codes-unary-injective (m ∷ s) [] e = absurd (unary_unit-dot m (unary s) e)
codes-unary-injective (m ∷ s) (n ∷ t) e =
    ground (arith, unary_unit-injective m n (unary s) (unary t) e, codes-unary-injective s t)

unary-ne : (s : List ℕ) → codes (unary s) ≢ codes ""
unfolding unary codes
unary-ne [] e = ground arith
unary-ne (zero ∷ s) e = ground arith
unary-ne (suc n ∷ s) e = ground arith

unary-IsDigest : IsDigest (λ key s. unary s)
unary-IsDigest = record {
  injective = λ key s t e. codes-unary-injective s t (ap codes e);
  nonempty = λ key s e. unary-ne s (ap codes e);
}

abbrev challenge : Challenge
challenge = record { id = "c-1"; amount_cents = Amount.integer (pos 50); others = Fields.end }

abbrev harness_of : RunMode → String → Harness
harness_of m secret = record {
  sha256_hex = λ s. s;
  hmac = λ key s. unary s;
  secret = some secret;
  settler = some (λ c e. answered (some "tx-9"));
  mode = m;
  budget = some (record { job_id = "job-x"; scope_id = none });
}

abbrev budget : BudgetOf
budget = record { job_id = "job-x"; scope_id = none }

-- A job of 100 cents.
abbrev start : State
start = fresh_state (set_job "job-x" (new_job "job-x" "USDC" 100) (create_budget_ledger "USDC"))

abbrev signature : String
signature = unary (codes "{\"amountCents\":50,\"id\":\"c-1\"}")

all_open : Unit {0}
unfolding codes lookup insert set_job create_budget_ledger new_job fresh_state is_positive_int cents
    exceeds available_to job_available sign_challenge challenge_json canonicalize canonical_fields
    quote escape_units escape_unit lower_0x starts_0x number_text integer_text to_decimal decimal_on
    max_safe sort_pairs insert_pair text_before pair_text join
all_open = tt

signs : sign_challenge (λ key s. unary s) "key" challenge ≡ some signature
unfolding all_open
signs = refl

absent : lookup "c-1" start.reservations ≡ none
unfolding all_open
absent = refl

fits : Fits (cost_of budget challenge) start.ledger (new_job "job-x" "USDC" 100) none
unfolding all_open
fits = record { found = refl; names = tt; positive = refl; within = refl }

verify-sign_example :
    (verify_challenge_signature (λ key s. unary s) "key" challenge (some signature) ≡ some true)
    × (verify_challenge_signature (λ key s. unary s) "key" challenge (some signature) ≡ some true
        → normal (challenge_json challenge) ≡ normal (challenge_json challenge))
verify-sign_example =
    verify-sign (λ key s. unary s) "key" challenge challenge signature signature unary-IsDigest
      signs signs

sign-empty_secret_example : sign (harness_of RunMode.live "") (some challenge) start ≡ (
  SignAnswer.threw,
  signed_state
      (harness_of RunMode.live "")
      budget
      challenge
      (new_job "job-x" "USDC" 100)
      none
      start,
)
sign-empty_secret_example =
    sign-empty_secret (harness_of RunMode.live "") budget challenge start
      (new_job "job-x" "USDC" 100) none refl refl absent fits

settle-sign_example : Paid "job-x" (new_job "job-x" "USDC" 100) (cents (Amount.integer (pos 50))) (
    settle
      (harness_of RunMode.live "key")
      (some challenge)
      none
      (sign (harness_of RunMode.live "key") (some challenge) start).1)
settle-sign_example =
    settle-sign (harness_of RunMode.live "key") "key" signature budget challenge start
      (new_job "job-x" "USDC" 100) none refl refl signs absent fits none

settle_unsigned_example :
    settle (harness_of RunMode.live "key") (some challenge) none start
    ≡ (settled_by "tx-9" (Amount.integer (pos 50)), count_settled (Amount.integer (pos 50)) start)
settle_unsigned_example =
    settle_unsigned (harness_of RunMode.live "key") challenge start "tx-9" refl absent refl
      (λ e. cc)
