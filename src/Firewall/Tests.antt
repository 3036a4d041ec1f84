-- ===== src/Firewall/Tests.antt =====
-- The theorems about packages/firewall at a concrete transfer.
use coreguard.Canonical.{uint256_max, hex_uint, dec_uint}
use coreguard.Prelude.{
  String, ◌≡◌, refl, ◌↔◌, true, false, Option, none, some, List, [], ◌∷◌, pos, eqb_int, big_int,
  trim, trim_start, backwards, is_space, integer_literal, digits, digits_from, digit_in,
  digit_value, codes, includes_text, same_text, same_codes, lower, upper, is_upper_of, is_lower_of,
  is_hex, is_hex_after_0x, leb_int,
}
use coreguard.Policy.{
  RuleType, Params, Rule, evaluate_policy, evaluate_rules, evaluate_rule, evaluate_type, in_limits,
  denylist, security_int, security_uint, bound_of, ctx,
}
use coreguard.Firewall.{
  Intent, Simulation, Declaration, Evm, CommittedPolicy, Inputs, Services, Decided, Decision,
  ReviewArgs, ResolutionRecord, decide_firewall, decided, is_guarded, decision_of, sim_violates,
  terms_of, record_of, binding_of, probe_of, policy_of, simulation_of, timestamp_of,
  evaluate_declaration_binding, is_bound, same_intent, is_address, signature_envelope_ok, is_eip712,
  is_hex64, is_zeros, is_contract, same_manifest, evaluate_authority_probe, probe_status, probe_eoa,
  recovered, is_no_state, or_null, evaluate_policy_for_decision, refuse_policy, is_expected,
  is_trusted, evaluate_rules_for_decision, enforceable, has_review, context_of, evaluate_simulation,
  check_all, check_name, require_field, compare_eq, check_action, action_of, is_transfer,
  check_amount, compare_big, test_int, check_gas, max_gas_of, check_time, is_absent, resolve_review,
  resolve_on, redecide, admit, is_authorized, same_binding, same_ref, resolution_record, Field,
  DeclaredScope, Observed, ConformanceState, Mismatch, is_deny, annotate_conformance,
  compare_observed, contradiction_scan, chain_differs, field_differs, amount_differs,
}
use coreguard.Firewall.Consistency.{Agrees, evaluate_simulation-Agrees}
use coreguard.Firewall.Decisions.{Clear, decide_firewall-Clear}
use coreguard.Firewall.Conformity.{Conforms, annotate_conformance_iff}
use coreguard.Firewall.Reviews.{Admissible, resolve_review-Admissible}

all_open : big_int "0x40" ≡ some (pos 64)
unfolding big_int trim trim_start backwards is_space integer_literal digits digits_from digit_in
    digit_value codes includes_text same_text same_codes lower upper is_upper_of is_lower_of is_hex
    is_hex_after_0x leb_int eqb_int evaluate_policy evaluate_rules evaluate_rule evaluate_type
    in_limits denylist security_int security_uint uint256_max hex_uint dec_uint bound_of ctx
    decide_firewall decided is_guarded decision_of sim_violates terms_of record_of binding_of
    probe_of policy_of simulation_of timestamp_of evaluate_declaration_binding is_bound same_intent
    is_address signature_envelope_ok is_eip712 is_hex64 is_zeros is_contract same_manifest
    evaluate_authority_probe probe_status probe_eoa recovered is_no_state or_null
    evaluate_policy_for_decision refuse_policy is_expected is_trusted evaluate_rules_for_decision
    enforceable has_review context_of evaluate_simulation check_all check_name require_field
    compare_eq check_action action_of is_transfer check_amount compare_big test_int check_gas
    max_gas_of check_time is_absent resolve_review resolve_on redecide admit is_authorized
    same_binding same_ref resolution_record
all_open = refl

abbrev address : String
address = "0x1111111111111111111111111111111111111111"

abbrev word : String
word = "1111111111111111111111111111111111111111111111111111111111111111"

abbrev services : Services
services = record {
  hashes = record {
    canonicalize = λ i. "{}";
    hash_intent = λ i. "intent";
    declaration_id = λ d. some "manifest";
    binding_ref = λ a b c. "binding";
  };
  hash_policy = λ p. "policy";
  hash_record = λ r. "record";
}

abbrev evm : Evm
evm = record {
  recovers = true;
  recover_signer = λ m c g. g.signer;
  checks_contracts = false;
  is_valid_signature_calldata = λ m c b. none;
  is_erc1271_magic = λ d. false;
}

abbrev transfer : Intent
transfer = record {
  action = some "TRANSFER";
  target = none;
  selector = none;
  recipient = some "0xcd";
  amount = some "64";
  asset = none;
  valid_after = none;
  valid_until = none;
  chain_id = some "1116";
  nonce = some "1";
  signer = some address;
}

abbrev signed : Declaration
signed = record {
  version = some "CGEP/1";
  kind = some "INTENT_DECLARATION";
  chain_id = some "1116";
  nonce = some "1";
  signer_binding = record { kind = some "EOA"; address = some address };
  intent = some transfer;
  manifest_id = some "manifest";
  signature = some (record {
    signer = some address;
    scheme = some "EIP-712";
    r = some word;
    s = some word;
    v = some 27;
    bytes = none;
  });
}

abbrev no_params : Params
no_params = record {
  max = none;
  min = none;
  targets = none;
  addresses = none;
  selectors = none;
  max_gas = none;
  max_gas_is_null = false;
  deadline = none;
  bps = none;
  floor_bps = none;
}

abbrev rules : List Rule
rules =
    record {
      rule_id = "r1";
      type = RuleType.value_limit;
      severity = "HIGH";
      params = record no_params { max = some "100" };
    }
    ∷ []

abbrev committed : List Rule → CommittedPolicy
committed rs = record {
  policy_id = "p1";
  owner = none;
  publisher = none;
  attestor = none;
  rules = some rs;
}

abbrev modelled : Simulation
modelled = record {
  target = none;
  selector = none;
  recipient = some "0xCD";
  amount = some "0x40";
  received = none;
  min_out = none;
  gas_used = none;
  block_timestamp = none;
  slippage_bps = none;
  price_bps = none;
  unmodelable = false;
  other_keys = [];
}

abbrev inputs : List Rule → Option Simulation → Inputs
inputs rs sim = record {
  intent = some transfer;
  declaration = some signed;
  policy = record {
    policy = some (committed rs);
    expected_policy_hash = none;
    active_policy_ids = some ("p1" ∷ []);
    anchors = none;
  };
  simulation = sim;
  authority_at_state = some "100";
  block_timestamp = some "1000";
  writer = none;
  review_configured = true;
  evm = some evm;
  contract_auth = none;
  post_execution = [];
}

abbrev outcome : Inputs → Decided
outcome i =
    decided services i (binding_of services i) (probe_of i (binding_of services i))
      (policy_of services i) (simulation_of i)

allowed : (outcome (inputs rules (some modelled))).decision ≡ Decision.allow
unfolding all_open
allowed = refl

evaluate_simulation-Agrees_example : Agrees modelled transfer rules
unfolding all_open
evaluate_simulation-Agrees_example = evaluate_simulation-Agrees modelled transfer (some rules) refl

decide_firewall-Clear_example :
    ((outcome (inputs rules (some modelled))).decision ≡ Decision.allow)
    ↔ Clear (outcome (inputs rules (some modelled))).predicate
unfolding all_open
decide_firewall-Clear_example =
    decide_firewall-Clear services (inputs rules (some modelled))
      (outcome (inputs rules (some modelled))) refl

abbrev review : ReviewArgs
review = record {
  parent_record = some (record {
    frozen = true;
    body = (outcome (inputs rules (some (record modelled { amount = none })))).body;
    decision_ref = some "record";
  });
  writer = address;
  review_path = some (record { configured = true; writers = some (address ∷ []) });
  resolved_simulation = some modelled;
  reason = none;
  inputs = inputs rules none;
}

abbrev resolution : ResolutionRecord
resolution = record {
  ref = some "record";
  from = Decision.require_review;
  to = Decision.allow;
  at = some "1000";
  writer = address;
  reason = "review resolved the outstanding obligation";
}

resolve_review-Admissible_example :
    Admissible services review resolution (outcome (inputs rules (some modelled)))
unfolding all_open
resolve_review-Admissible_example =
    resolve_review-Admissible services review resolution (outcome (inputs rules (some modelled)))
      refl

abbrev paid : DeclaredScope
paid = record {
  chain_id = Field.text "1116";
  recipient = Field.text "0xAB";
  amount = Field.text "5";
  target = Field.null;
  selector = Field.null;
}

abbrev seen : Observed
seen = record {
  ref_chain_id = some (Field.text "1116");
  recipient = Field.text "0xab";
  amount = Field.text "5";
  target = Field.text "0x01";
  selector = Field.undefined;
}

abbrev no_mismatch : List Mismatch
no_mismatch = []

paid_conforms :
    annotate_conformance true Decision.allow paid seen ≡ some (ConformanceState.conform, [])
unfolding annotate_conformance compare_observed contradiction_scan chain_differs field_differs
    amount_differs same_text same_codes lower codes
paid_conforms = refl

annotate_conformance_iff_example :
    ((ConformanceState.conform ≡ ConformanceState.conform)
      ↔ ((is_deny Decision.allow ≡ false) × Conforms paid seen))
    × ((ConformanceState.conform ≡ ConformanceState.conform) ↔ (no_mismatch ≡ []))
annotate_conformance_iff_example =
    annotate_conformance_iff Decision.allow paid seen ConformanceState.conform [] paid_conforms
