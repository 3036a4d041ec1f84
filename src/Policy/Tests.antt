-- ===== src/Policy/Tests.antt =====
-- The theorems about packages/policy/index.js at a concrete policy.
use coreguard.Canonical.{uint256_max, hex_uint, dec_uint}
use coreguard.Prelude.{
  false, String, ◌≡◌, refl, true, none, some, [], ◌∷◌, All, pos, negsuc, big_int, trim, trim_start,
  backwards, is_space, integer_literal, digits, digits_from, digit_in, digit_value, codes,
  includes_text, same_text, same_codes, lower, leb_int,
}
use coreguard.Policy.{
  RuleType, RuleResult, Params, Context, Policy, Evaluated, evaluate_policy, evaluate_rules,
  evaluate_rule, evaluate_type, in_limits, allowlist, denylist, security_int, security_uint,
  bound_of, int_of, ctx,
}
use coreguard.Policy.Laws.{Enforced, evaluate_policy-Enforced}

all_open : big_int " -0012 " ≡ some (negsuc 11)
unfolding big_int trim trim_start backwards is_space integer_literal digits digits_from digit_in
    digit_value codes includes_text same_text same_codes lower leb_int evaluate_policy
    evaluate_rules evaluate_rule evaluate_type in_limits allowlist denylist security_int
    security_uint uint256_max hex_uint dec_uint bound_of int_of ctx
all_open = refl

leading_zero : security_uint "007" ≡ none
unfolding all_open
leading_zero = refl

hex_spelling : security_int "0x100" ≡ some (pos 256)
unfolding all_open
hex_spelling = refl

abbrev no_params : Params
no_params = record {
  max = none;
  min = none;
  targets = none;
  addresses = none;
  selectors = none;
  max_gas = none;
  max_gas_is_null = false;
  deadline = none;
  bps = none;
  floor_bps = none;
}

abbrev limits : Policy
limits = record {
  policy_id = "p1";
  rules =
      record {
        rule_id = "r1";
        type = RuleType.value_limit;
        severity = "HIGH";
        params = record no_params { max = some "100" };
      }
      ∷ record {
        rule_id = "r2";
        type = RuleType.recipient_denylist;
        severity = "HIGH";
        params = record no_params { addresses = some ("0xAB" ∷ []) };
      }
      ∷ [];
}

abbrev payment : String → Context
payment recipient = record {
  value = some "0x40";
  target = none;
  selector = none;
  recipient = some recipient;
  gas_used = none;
  slippage_bps = none;
  price_bps = none;
  block_timestamp = none;
}

abbrev passed : Evaluated
passed = record {
  policy_id = "p1";
  satisfied = true;
  rules =
      record { rule_id = "r1"; result = RuleResult.pass; severity = "HIGH" }
      ∷ record { rule_id = "r2"; result = RuleResult.pass; severity = "HIGH" }
      ∷ [];
}

denied_any_case :
    evaluate_type RuleType.recipient_denylist
      (record no_params { addresses = some ("0xAB" ∷ []) })
      (payment "0xaB")
    ≡ some RuleResult.fail
unfolding all_open
denied_any_case = refl

evaluate_policy-Enforced_example :
    All (λ rule. Enforced rule.type rule.params (payment "0xcd")) limits.rules
unfolding all_open
evaluate_policy-Enforced_example = evaluate_policy-Enforced limits (payment "0xcd") passed refl refl
