-- ===== src/Execution/Tests.antt =====
-- The theorems about packages/execution/index.js at concrete inputs.
use coreguard.Prelude.{
  ℕ, zero, suc, [], ◌∷◌, ◌++◌, true, false, Option, none, some, ◌≡◌, ◌≢◌, refl, sym, String, arith,
  map, lower, codes, pos, digits, digits_from, digit_in, digit_value, trim, trim_start, backwards,
  is_space, same_codes,
}
use coreguard.Canonical.{
  Json, Fields, Value, Number, canonicalize, canonical_fields, domain_hash, canonical_uint_string,
  in_range, of_number, of_trimmed, hex_uint, dec_uint, to_decimal, decimal_on, uint256_max,
  max_safe, sort_pairs, insert_pair, text_before, pair_text, join, quote, escape_units, escape_unit,
  unicode_escape, lower_0x, starts_0x, number_text, integer_text, canonical_items,
}
use coreguard.Canonical.Normal.{normal}
use coreguard.Execution.{
  Text, Call, returned, Provider, Ref, SignerKind, Claim, Conformance, Verification,
  ExecutionStatus, CheckName, ExecutionResult, CheckLabel, checked, simulation_not_run,
  extract_execution_evidence, extract_from, chain_id_got, tx_got, raw_tx_of, receipt_got,
  raw_receipt_of, candidate_number, candidate_hash, pin_of, block_got, trace_got, trace_of, tx_of,
  receipt_of, normalize_logs, normalize_log, hex_quantity_to_dec, quantity, of_hex, starts_0x_any,
  canonical_chain_id, to_lower_hex, function_selector, find_chain, find_tx, find_block,
  find_receipt, check_chain, target_result, selector_result, both_results, check_target,
  check_value, check_caller, check_decision, check_ref, aggregate_checks, first_checks,
  bind_decided, bind_valued, bind_execution_evidence, missing_required, verify_bound,
  verify_execution_evidence, Attestation, AttestationInput, AttestationLabel, attestation_body,
  summary_json, check_items, build_execution_attestation, verify_execution_attestation,
  attestation_kind, attestation_domain, is_some, or_else_text,
}
use coreguard.Execution.Bound.{Bound, HasTrace, verify_execution_evidence-Bound}
use coreguard.Execution.Tamper.{IsDigest, verify-build}

-- A digest for the tests: the text in unary, in lower case letters.
unit_of : ℕ → Text → Text
unit_of zero rest = b',' ∷ rest
unit_of (suc n) rest = b'x' ∷ unit_of n rest

unary : Text → Text
unary [] = []
unary (c ∷ cs) = unit_of c (unary cs)

unit_of-injective : (m n : ℕ) (s t : Text) → unit_of m s ≡ unit_of n t → (m ≡ n) × (s ≡ t)
unfolding unit_of
unit_of-injective zero zero s t e = ground arith
unit_of-injective zero (suc n) s t e = ground arith
unit_of-injective (suc m) zero s t e = ground arith
unit_of-injective (suc m) (suc n) s t e = ground (arith, unit_of-injective m n s t)

unit_of-nil : (n : ℕ) (s : Text) → unit_of n s ≢ []
unfolding unit_of
unit_of-nil zero s e = ground arith
unit_of-nil (suc n) s e = ground arith

unary-injective : (s t : Text) → unary s ≡ unary t → s ≡ t
unfolding unary
unary-injective [] [] e = refl
unary-injective [] (n ∷ t) e = absurd (unit_of-nil n (unary t) (sym e))
unary-injective (m ∷ s) [] e = absurd (unit_of-nil m (unary s) e)
unary-injective (m ∷ s) (n ∷ t) e =
    ground (arith, unit_of-injective m n (unary s) (unary t) e, unary-injective s t)

lower-unit_of : (n : ℕ) (s : Text) → map lower s ≡ s → map lower (unit_of n s) ≡ unit_of n s
unfolding unit_of lower
lower-unit_of zero s h = ground (arith, h)
lower-unit_of (suc n) s h = ground (arith, lower-unit_of n s h)

lower-unary : (s : Text) → map lower (unary s) ≡ unary s
unfolding unary
lower-unary [] = refl
lower-unary (c ∷ s) = lower-unit_of c (unary s) (lower-unary s)

unary-IsDigest : IsDigest unary
unary-IsDigest = record { collision_free = unary-injective; in_lower_case = lower-unary }

-- Opens the definitions, so that a run computes.
all_open : Unit {0}
unfolding codes lower digits digits_from digit_in digit_value trim trim_start backwards is_space
    same_codes canonicalize canonical_fields canonical_items domain_hash canonical_uint_string
    in_range of_number of_trimmed hex_uint dec_uint to_decimal decimal_on uint256_max max_safe
    sort_pairs insert_pair text_before pair_text join quote escape_units escape_unit unicode_escape
    lower_0x starts_0x number_text integer_text extract_execution_evidence extract_from chain_id_got
    tx_got raw_tx_of receipt_got raw_receipt_of candidate_number candidate_hash pin_of block_got
    trace_got trace_of tx_of receipt_of normalize_logs normalize_log hex_quantity_to_dec quantity
    of_hex starts_0x_any canonical_chain_id to_lower_hex function_selector find_chain find_tx
    find_block find_receipt check_chain target_result selector_result both_results check_target
    check_value check_caller check_decision check_ref aggregate_checks first_checks bind_decided
    bind_valued bind_execution_evidence missing_required verify_bound verify_execution_evidence
    attestation_body summary_json check_items build_execution_attestation
    verify_execution_attestation
all_open = tt

abbrev some_text : String → Option Text
some_text s = some (codes s)

abbrev some_number : ℕ → Option Value
some_number n = some (Value.number (Number.integer (pos n)))

abbrev provider : Provider
provider = record {
  eth_chain_id = some (returned (some (Value.text (codes "0x45a"))));
  get_transaction_by_hash = some (λ h. returned (
      some (record {
        hash = some h;
        from = some_text "0xAA";
        to = some_text "0xBB";
        value = some_number 7;
        input = some_text "0x12345678ff";
        nonce = some_number 0;
        block_number = some_number 9;
        block_hash = some_text "0xcc";
      })));
  get_transaction_receipt = some (λ h. returned (
      some (record {
        transaction_hash = some h;
        status = some_number 1;
        gas_used = some_number 21000;
        transaction_index = some_number 0;
        block_number = some_number 9;
        block_hash = some_text "0xcc";
        logs = none;
      })));
  get_block_by_number =
      some (λ n h. returned (some (record { number = none; number_is_null = false; hash = h })));
  supports_trace = false;
  get_trace = none;
  trace_hash = λ t r h. Call.failed;
}

abbrev ref : Ref
ref = record { tx_hash = some_text "0xABC"; block_number = none; block_hash = none }

abbrev claim : Claim
claim = record {
  intent = record {
    chain_id = some_text "1114";
    target = some_text "0xbb";
    selector = some_text "0x12345678";
    amount = some_text "7";
    signer = some_text "0xaa";
  };
  signer_kind = SignerKind.eoa;
  frozen_decision = some (record { decision_ref = none; body = Json.object Fields.end });
  decision_ref = some_text "0xCGEP/1:FW-DECISION{}";
  value_predicate = some (λ value amount. returned true);
}

abbrev verdict : Verification
verdict = record {
  status = ExecutionStatus.verified;
  checks =
      checked CheckName.exec_1 ExecutionResult.pass CheckLabel.chain_pin
      ∷ checked CheckName.exec_2 ExecutionResult.pass CheckLabel.target_selector_pin
      ∷ checked CheckName.exec_3 ExecutionResult.pass CheckLabel.value_pin
      ∷ checked CheckName.exec_4 ExecutionResult.pass CheckLabel.recovered_caller
      ∷ checked CheckName.exec_5 ExecutionResult.pass CheckLabel.decision_ref_pin
      ∷ simulation_not_run
      ∷ [];
}

verified :
    verify_execution_evidence (λ s. s) (some provider) ref claim Conformance.receipt_level
    ≡ some verdict
unfolding all_open
verified = refl

verify_execution_evidence-Bound_example :
    Bound (λ s. s) claim (extract_execution_evidence (some provider) ref).items
    × (is_some (find_block (extract_execution_evidence (some provider) ref).items) ≡ true)
    × (is_some (find_receipt (extract_execution_evidence (some provider) ref).items) ≡ true)
    × HasTrace Conformance.receipt_level (extract_execution_evidence (some provider) ref).trace
verify_execution_evidence-Bound_example =
    verify_execution_evidence-Bound (λ s. s) (some provider) ref claim Conformance.receipt_level
      verdict verified refl

abbrev input : AttestationInput
input = record {
  chain_id = none;
  intent_ref = none;
  manifest_id = none;
  binding_ref = none;
  decision_ref = none;
  execution_evidence_ref = none;
  evidence_hash = none;
  receipt_id = none;
  verification = none;
  conformance_path = none;
  at_time = none;
  verifier = none;
}

abbrev built : Attestation
built = record {
  kind = some attestation_kind;
  body = Json.object (attestation_body input);
  attestation_ref = some (
      b'0'
      ∷ b'x'
      ∷ unary (
          attestation_domain
          ++ or_else_text (canonicalize (Json.object (attestation_body input))) []));
}

builds : build_execution_attestation unary input ≡ some built
unfolding all_open
builds = refl

verify-build_example :
    (verify_execution_attestation unary (some built) ≡ AttestationLabel.intact)
    × (verify_execution_attestation unary (some (record built { body = Json.null }))
          ≡ AttestationLabel.intact
        → normal Json.null ≡ normal built.body)
verify-build_example = verify-build unary input built Json.null unary-IsDigest builds
