-- ===== src/Firewall/Decide.antt =====
-- decideFirewall of packages/firewall/decision.js. Reasons, labels and error texts are left out; the
-- hash of a record is a parameter.
use coreguard.Prelude.{
  ◌∷◌, [], String, Bool, true, false, not, ◌&&◌, ◌||◌, ◌==◌, Option, none, some, List,
  if◌then◌else◌,
}
use coreguard.Policy.{Rule}
use coreguard.Firewall.Simulate.{Intent, Simulation, Flags, evaluate_simulation, or_empty}
use coreguard.Firewall.Bind.{
  Status, ok, not_run, Declaration, Binding, Hashes, evaluate_declaration_binding,
}
use coreguard.Firewall.Authority.{Evm, ContractAuth, Probe, evaluate_authority_probe}
use coreguard.Firewall.PolicyGate.{
  PolicyStatus, PolicyCheck, PolicyInputs, CommittedPolicy, evaluate_policy_for_decision, no_policy,
}

pub data Decision : Type 0 where
  allow deny require_review : Decision

-- `post_execution` are the keys of POST_EXECUTION_INPUTS that the inputs have.
pub record Inputs : Type 0 where
  pub intent : Option Intent
  pub declaration : Option Declaration
  pub policy : PolicyInputs
  pub simulation : Option Simulation
  pub authority_at_state : Option String
  pub block_timestamp : Option String
  pub writer : Option String
  pub review_configured : Bool
  pub evm : Option Evm
  pub contract_auth : Option ContractAuth
  pub post_execution : List String

pub record Terms : Type 0 where
  pub declaration_bound : Bool
  pub authority_probe_ok : Bool
  pub policy_satisfied : Bool
  pub simconsistent : Bool
  pub review_obligation : Bool

pub record RecordBody : Type 0 where
  pub decision : Decision
  pub writer : String
  pub chain_id : String
  pub nonce : String
  pub decision_block : Option String
  pub block_timestamp : Option String
  pub policy : PolicyCheck
  pub authority_inputs : Probe
  pub binding : Binding
  pub sim_summary : Option Simulation
  pub sim_consistent : Bool
  pub unmodelable : Bool
  pub review_obligation : Bool
  pub review_path_configured : Bool

pub record Decided : Type 0 where
  pub decision : Decision
  pub body : RecordBody
  pub decision_ref : String
  pub predicate : Terms

pub record Services : Type 0 where
  pub hashes : Hashes
  pub hash_policy : CommittedPolicy → String
  pub hash_record : RecordBody → String

-- guardNoPostExecutionInputs and guardPostExecutionInSimulation: whether they throw.
unfoldable pub is_guarded : Inputs → Bool
is_guarded i = has_keys i.post_execution || sim_guarded i.simulation
  where
    has_keys : List String → Bool
    has_keys [] = false
    has_keys (k ∷ ks) = true

    sim_guarded : Option Simulation → Bool
    sim_guarded none = false
    sim_guarded (some sim) = sim.unmodelable || has_keys sim.other_keys

abbrev pub not_evaluated : Probe
not_evaluated = record { status = not_run; path = some "UNKNOWN"; at_state = none }

abbrev pub is_ok : Status → Bool
is_ok ok = true
is_ok _ = false

abbrev pub is_satisfied : PolicyStatus → Bool
is_satisfied PolicyStatus.satisfied = true
is_satisfied _ = false

abbrev probe_id : Option String → Bool
probe_id none = false
probe_id (some id) = not (id == "")

unfoldable pub probe_of : Inputs → Binding → Probe
probe_of i b = elim i.declaration [
  | none ↦ not_evaluated
  | some d ↦
      if is_ok b.status && probe_id b.manifest_id
      then evaluate_authority_probe i.evm i.contract_auth d (or_empty b.manifest_id) b.chain_id
          i.authority_at_state
      else not_evaluated
]

-- `ts`, with the empty text for none.
unfoldable pub timestamp_of : Inputs → String
timestamp_of i = elim i.simulation [
  | none ↦ or_empty i.block_timestamp
  | some sim ↦ elim sim.block_timestamp [ none ↦ or_empty i.block_timestamp | some t ↦ t ]
]

abbrev pub filled : String → Option String
filled s = if s == "" then none else some s

abbrev or_policy : Option String → Option String → Option String
or_policy none b = b
or_policy (some a) b = if a == "" then b else some a

abbrev policy_id_of : Option CommittedPolicy → Option String
policy_id_of none = none
policy_id_of (some p) = some p.policy_id

abbrev rules_in : Option CommittedPolicy → Option (List Rule)
rules_in none = none
rules_in (some p) = p.rules

unfoldable pub policy_of : Services → Inputs → PolicyCheck
policy_of sv i = elim i.intent [
  | none ↦ no_policy (policy_id_of i.policy.policy)
  | some intent ↦
      evaluate_policy_for_decision sv.hash_policy i.policy intent i.simulation
        (filled (timestamp_of i))
]

unfoldable pub simulation_of : Inputs → Flags
simulation_of i = elim i.intent [
  | none ↦ record { consistent = false; unmodelable = false }
  | some intent ↦ evaluate_simulation i.simulation intent (rules_in i.policy.policy)
]

unfoldable pub terms_of : Binding → Probe → PolicyCheck → Flags → Terms
terms_of b probe policy sim = record {
  declaration_bound = is_ok b.status;
  authority_probe_ok = is_ok probe.status;
  policy_satisfied = is_satisfied policy.status;
  simconsistent = sim.consistent && not sim.unmodelable;
  review_obligation = policy.review_obligation || sim.unmodelable;
}

-- `sim.unmodelable === true ? false : sim.consistent !== true`
unfoldable pub sim_violates : Flags → Bool
sim_violates sim = if sim.unmodelable then false else not sim.consistent

unfoldable pub decision_of : Binding → Probe → PolicyCheck → Flags → Bool → Decision
decision_of b probe policy sim review_configured =
    if not (is_ok b.status)
      || not (is_ok probe.status)
      || not (is_satisfied policy.status)
      || sim_violates sim
    then deny
    else if policy.review_obligation || sim.unmodelable
    then (if review_configured then require_review else deny)
    else allow

abbrev writer_of : Option String → String
writer_of none = "UNKNOWN"
writer_of (some w) = if w == "" then "UNKNOWN" else w

abbrev text_of : (Declaration → Option String) → Option Declaration → String
text_of f none = ""
text_of f (some d) = or_empty (f d)

unfoldable pub record_of : Inputs → Binding → Probe → PolicyCheck → Flags → RecordBody
record_of i b probe policy sim = record {
  decision = decision_of b probe policy sim i.review_configured;
  writer = writer_of i.writer;
  chain_id = text_of (λ d. d.chain_id) i.declaration;
  nonce = text_of (λ d. d.nonce) i.declaration;
  decision_block = i.authority_at_state;
  block_timestamp = filled (timestamp_of i);
  policy = record policy { policy_id = or_policy policy.policy_id (policy_id_of i.policy.policy) };
  authority_inputs = probe;
  binding = b;
  sim_summary = i.simulation;
  sim_consistent = not sim.unmodelable && sim.consistent;
  unmodelable = sim.unmodelable;
  review_obligation = policy.review_obligation || sim.unmodelable;
  review_path_configured = i.review_configured;
}

unfoldable pub binding_of : Services → Inputs → Binding
binding_of sv i = evaluate_declaration_binding sv.hashes i.intent i.declaration

unfoldable pub decided : Services → Inputs → Binding → Probe → PolicyCheck → Flags → Decided
decided sv i b probe policy sim = record {
  decision = decision_of b probe policy sim i.review_configured;
  body = record_of i b probe policy sim;
  decision_ref = sv.hash_record (record_of i b probe policy sim);
  predicate = terms_of b probe policy sim;
}

-- None where a guard throws.
unfoldable pub decide_firewall : Services → Inputs → Option Decided
decide_firewall sv i =
    if is_guarded i
    then none
    else some (
        decided sv i (binding_of sv i) (probe_of i (binding_of sv i)) (policy_of sv i)
          (simulation_of i))
