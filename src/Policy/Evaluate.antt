-- ===== src/Policy/Evaluate.antt =====
-- evaluateRule and evaluatePolicy of packages/policy/index.js; none where the source throws. The
-- `observed` and `expected` texts of an outcome are left out.
use coreguard.Prelude.{
  ◌∷◌, [], String, Bool, true, false, not, ◌==◌, Option, none, some, List, all, if◌then◌else◌, ℤ,
  big_int, leb_int, includes_text,
}
use coreguard.Policy.Rules.{
  RuleType, Params, Rule, Context, Policy, RuleResult, Outcome, security_uint,
}

-- `hasParam(params, key)`: there, and not empty.
unfoldable pub has_param : Option String → Bool
has_param none = false
has_param (some s) = not (s == "")

-- `ctx(key, fallback)`
unfoldable pub ctx : Option String → String → String
ctx none fallback = fallback
ctx (some s) fallback = if s == "" then fallback else s

abbrev pub then_int : Option String → Option ℤ
then_int none = none
then_int (some s) = big_int s

-- `BigInt(securityUint(name, s))`
unfoldable pub security_int : String → Option ℤ
security_int s = then_int (security_uint s)

-- `BigInt(v)` where `v` can be missing: `BigInt(undefined)` throws, and `BigInt("")` is zero.
unfoldable pub int_of : Option String → Option ℤ
int_of v = then_int v

-- A bound that is optional: none when it is missing, and the outer none when it throws.
unfoldable pub bound_of : Option String → Option (Option ℤ)
bound_of none = some none
bound_of (some s) =
    if s == "" then some none else elim (security_int s) [ none ↦ none | some n ↦ some (some n) ]

abbrev pub verdict : Bool → RuleResult
verdict true = RuleResult.pass
verdict false = RuleResult.fail

-- `a > b` fails.
abbrev pub at_most : Option ℤ → Option ℤ → Option RuleResult
at_most (some a) (some b) = some (verdict (leb_int a b))
at_most _ _ = none

abbrev pub above_max : ℤ → Option ℤ → Bool
above_max value none = false
above_max value (some max) = not (leb_int value max)

abbrev pub below_min : ℤ → Option ℤ → Bool
below_min value none = false
below_min value (some min) = not (leb_int min value)

unfoldable pub in_limits : Option ℤ → Option (Option ℤ) → Option (Option ℤ) → Option RuleResult
in_limits (some value) (some max) (some min) =
    if above_max value max
    then some RuleResult.fail
    else if below_min value min
    then some RuleResult.fail
    else some RuleResult.pass
in_limits _ _ _ = none

unfoldable pub allowlist : Option (List String) → String → Option RuleResult
allowlist none s = none
allowlist (some allowed) s = some (verdict (includes_text allowed s))

unfoldable pub denylist : Option (List String) → String → Option RuleResult
denylist none s = none
denylist (some denied) s = some (verdict (not (includes_text denied s)))

-- `context.key || fallback`, whose fallback the empty text takes too.
abbrev pub or_default : Option String → String → String
or_default = ctx

-- `params.floorBps ? BigInt(params.floorBps) : null`, then `priceBps < floorBps`.
unfoldable pub oracle_floor : Option String → Option ℤ → Option RuleResult
oracle_floor floor none = none
oracle_floor none (some price) = some RuleResult.pass
oracle_floor (some floor) (some price) =
    if floor == ""
    then some RuleResult.pass
    else elim (big_int floor) [ none ↦ none | some f ↦ some (verdict (leb_int f price)) ]

unfoldable pub evaluate_type : RuleType → Params → Context → Option RuleResult
evaluate_type RuleType.value_limit p c =
    in_limits (security_int (ctx c.value "0")) (bound_of p.max) (bound_of p.min)
evaluate_type RuleType.target_allowlist p c = allowlist p.targets (ctx c.target "")
evaluate_type RuleType.target_denylist p c = denylist p.targets (ctx c.target "")
evaluate_type RuleType.recipient_allowlist p c = allowlist p.addresses (ctx c.recipient "")
evaluate_type RuleType.recipient_denylist p c = denylist p.addresses (ctx c.recipient "")
evaluate_type RuleType.selector_allowlist p c = allowlist p.selectors (ctx c.selector "")
evaluate_type RuleType.selector_denylist p c = denylist p.selectors (ctx c.selector "")
evaluate_type RuleType.max_gas p c = at_most (big_int (ctx c.gas_used "0")) (int_of p.max_gas)
evaluate_type RuleType.deadline p c = at_most (int_of c.block_timestamp) (int_of p.deadline)
evaluate_type RuleType.slippage_bps p c =
    at_most (big_int (or_default c.slippage_bps "0")) (int_of p.bps)
evaluate_type RuleType.oracle_bound p c =
    oracle_floor p.floor_bps (big_int (or_default c.price_bps "10000"))
evaluate_type RuleType.require_review p c = some RuleResult.fail
evaluate_type RuleType.unlisted p c = some RuleResult.fail

unfoldable pub evaluate_rule : Rule → Context → Option Outcome
evaluate_rule rule context = elim (evaluate_type rule.type rule.params context) [
  | none ↦ none
  | some result ↦
      some (record { rule_id = rule.rule_id; result = result; severity = rule.severity })
]

-- `policy.rules.map(...)`, which throws where a rule does.
unfoldable pub evaluate_rules : List Rule → Context → Option (List Outcome)
evaluate_rules [] context = some []
evaluate_rules (r ∷ rs) context = elim (evaluate_rule r context) [
  | none ↦ none
  | some o ↦ elim (evaluate_rules rs context) [ none ↦ none | some os ↦ some (o ∷ os) ]
]

abbrev pub is_passed : RuleResult → Bool
is_passed RuleResult.pass = true
is_passed RuleResult.fail = false

pub record Evaluated : Type 0 where
  pub policy_id : String
  pub satisfied : Bool
  pub rules : List Outcome

unfoldable pub evaluate_policy : Policy → Context → Option Evaluated
evaluate_policy policy context = elim (evaluate_rules policy.rules context) [
  | none ↦ none
  | some results ↦ some (record {
    policy_id = policy.policy_id;
    satisfied = all (λ (o : Outcome). is_passed o.result) results;
    rules = results;
  })
]
