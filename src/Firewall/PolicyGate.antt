-- ===== src/Firewall/PolicyGate.antt =====
-- evaluatePolicyForDecision of packages/firewall/policy.js. The hash of a policy is a parameter;
-- labels, reasons and the outcomes of the rules are left out.
use coreguard.Prelude.{
  ◌∷◌, [], String, Bool, true, false, not, ◌||◌, ◌==◌, Option, none, some, List, any, includes,
  if◌then◌else◌, includes_text, is_lower_of,
}
use coreguard.Policy.{RuleType, Rule, Context, Evaluated, evaluate_policy}
use coreguard.Firewall.Simulate.{Intent, Simulation, or_empty}
use coreguard.Firewall.Bind.{is_address}

-- A policy with the actors that it may name.
pub record CommittedPolicy : Type 0 where
  pub policy_id : String
  pub owner : Option String
  pub publisher : Option String
  pub attestor : Option String
  pub rules : Option (List Rule)

pub data PolicyStatus : Type 0 where
  satisfied violated fail not_run : PolicyStatus

pub record PolicyCheck : Type 0 where
  pub status : PolicyStatus
  pub policy_id : Option String
  pub policy_hash : Option String
  pub review_obligation : Bool

pub record PolicyInputs : Type 0 where
  pub policy : Option CommittedPolicy
  pub expected_policy_hash : Option String
  pub active_policy_ids : Option (List String)
  pub anchors : Option (List String)

-- The first of the actors that is an address.
unfoldable pub first_address : List String → Option String
first_address [] = none
first_address (a ∷ rest) = if is_address a then some a else first_address rest

unfoldable pub actor_of : CommittedPolicy → Option String
actor_of p = first_address (or_empty p.owner ∷ or_empty p.publisher ∷ or_empty p.attestor ∷ [])

abbrev pub is_nil : Option (List String) → Bool
is_nil none = true
is_nil (some []) = true
is_nil (some (x ∷ xs)) = false

abbrev pub list_of : Option (List String) → List String
list_of none = []
list_of (some xs) = xs

-- No anchors, or the policy's actor among them.
unfoldable pub is_trusted : Option (List String) → CommittedPolicy → Bool
is_trusted anchors p =
    is_nil anchors
    || (elim (actor_of p) [ none ↦ false | some a ↦ includes_text (list_of anchors) a ])

-- A hash that was declared is the one that is computed again.
unfoldable pub is_expected : Option String → String → Bool
is_expected expected hash = (or_empty expected == "") || is_lower_of hash (or_empty expected)

abbrev or_else : Option String → Option String → Option String
or_else none b = b
or_else (some a) b = some a

unfoldable pub context_of : Intent → Option Simulation → Option String → Context
context_of intent none timestamp = record {
  value = intent.amount;
  target = intent.target;
  selector = intent.selector;
  recipient = intent.recipient;
  gas_used = none;
  slippage_bps = none;
  price_bps = none;
  block_timestamp = timestamp;
}
context_of intent (some sim) timestamp = record {
  value = intent.amount;
  target = intent.target;
  selector = intent.selector;
  recipient = intent.recipient;
  gas_used = sim.gas_used;
  slippage_bps = sim.slippage_bps;
  price_bps = sim.price_bps;
  block_timestamp = or_else sim.block_timestamp timestamp;
}

abbrev pub is_review : RuleType → Bool
is_review RuleType.require_review = true
is_review _ = false

unfoldable pub enforceable : List Rule → List Rule
enforceable [] = []
enforceable (r ∷ rs) = if is_review r.type then enforceable rs else r ∷ enforceable rs

unfoldable pub has_review : List Rule → Bool
has_review rs = any (λ (r : Rule). is_review r.type) rs

abbrev pub status_of : Option Evaluated → PolicyStatus
status_of none = PolicyStatus.not_run
status_of (some r) = if r.satisfied then PolicyStatus.satisfied else PolicyStatus.violated

unfoldable pub evaluate_rules_for_decision :
    CommittedPolicy → List Rule → Intent → Option Simulation → Option String → PolicyStatus
evaluate_rules_for_decision p rules intent sim timestamp = status_of (
    evaluate_policy (record { policy_id = p.policy_id; rules = enforceable rules })
      (context_of intent sim timestamp))

-- The checks before the rules: an early answer, or none.
unfoldable pub refuse_policy : PolicyInputs → CommittedPolicy → String → Option PolicyStatus
refuse_policy i p hash =
    if not (is_expected i.expected_policy_hash hash)
    then some PolicyStatus.fail
    else if is_nil i.active_policy_ids
    then some PolicyStatus.not_run
    else if not (includes (list_of i.active_policy_ids) p.policy_id)
    then some PolicyStatus.fail
    else if not (is_trusted i.anchors p)
    then some PolicyStatus.fail
    else none

abbrev pub no_policy : Option String → PolicyCheck
no_policy policy_id = record {
  status = PolicyStatus.not_run;
  policy_id = policy_id;
  policy_hash = none;
  review_obligation = false;
}

unfoldable pub evaluate_policy_for_decision :
    (CommittedPolicy → String)
    → PolicyInputs
    → Intent
    → Option Simulation
    → Option String
    → PolicyCheck
evaluate_policy_for_decision hash_policy i intent sim timestamp = elim i.policy [
  | none ↦ no_policy none
  | some p ↦ elim p.rules [
    | none ↦ no_policy none
    | some rules ↦ elim (refuse_policy i p (hash_policy p)) [
      | some status ↦ record {
        status = status;
        policy_id = some p.policy_id;
        policy_hash = some (hash_policy p);
        review_obligation = false;
      }
      | none ↦ record {
        status = evaluate_rules_for_decision p rules intent sim timestamp;
        policy_id = some p.policy_id;
        policy_hash = some (hash_policy p);
        review_obligation = has_review rules;
      }
    ]
  ]
]
