-- ===== src/Policy/Rules.antt =====
-- The data of packages/policy/index.js, and securityUint of packages/canonical/uint.js. What a rule or
-- a context holds under a key is a text or nothing.
use coreguard.Canonical.{uint256_max, hex_uint, dec_uint, starts_with_zero}
use coreguard.Prelude.{
  Bool, String, ◌&&◌, ◌==◌, Option, none, some, List, ltb, if◌then◌else◌, codes, length,
}

pub data RuleType : Type 0 where
  value_limit target_allowlist target_denylist recipient_allowlist recipient_denylist
        selector_allowlist selector_denylist max_gas deadline slippage_bps oracle_bound
        require_review unlisted :
      RuleType

-- `max_gas` is none for a `maxGas` that is undefined or null; the firewall tells the two apart.
pub record Params : Type 0 where
  pub max : Option String
  pub min : Option String
  pub targets : Option (List String)
  pub addresses : Option (List String)
  pub selectors : Option (List String)
  pub max_gas : Option String
  pub max_gas_is_null : Bool
  pub deadline : Option String
  pub bps : Option String
  pub floor_bps : Option String

pub record Rule : Type 0 where
  pub rule_id : String
  pub type : RuleType
  pub severity : String
  pub params : Params

pub record Context : Type 0 where
  pub value : Option String
  pub target : Option String
  pub selector : Option String
  pub recipient : Option String
  pub gas_used : Option String
  pub slippage_bps : Option String
  pub price_bps : Option String
  pub block_timestamp : Option String

pub record Policy : Type 0 where
  pub policy_id : String
  pub rules : List Rule

pub data RuleResult : Type 0 where
  pass fail : RuleResult

pub record Outcome : Type 0 where
  pub rule_id : String
  pub result : RuleResult
  pub severity : String

-- `securityUint(name, s)` on a text: the text itself, or none where it throws.
unfoldable pub security_uint : String → Option String
security_uint s = if s == "" then none else elim (hex_uint (codes s)) [
  | some v ↦ if ltb uint256_max v then none else some s
  | none ↦ elim (dec_uint (codes s)) [
    | some v ↦
        if ltb 1 (length (codes s)) && starts_with_zero (codes s)
        then none
        else if ltb uint256_max v
        then none
        else some s
    | none ↦ none
  ]
]
