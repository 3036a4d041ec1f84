-- ===== src/Firewall/Simulate.antt =====
-- evaluateSimulation of packages/firewall/simulation.js. A field is a text or missing; the list of
-- comparisons and the reason, which only report, are left out.
use coreguard.Prelude.{
  ◌∷◌, [], String, Bool, true, false, not, ◌&&◌, ◌==◌, Option, none, some, List, any, if◌then◌else◌,
  ℤ, big_int, leb_int, eqb_int, same_text, is_upper_of,
}
use coreguard.Policy.{RuleType, Rule}

pub record Intent : Type 0 where
  pub action : Option String
  pub target : Option String
  pub selector : Option String
  pub recipient : Option String
  pub amount : Option String
  pub asset : Option String
  pub valid_after : Option String
  pub valid_until : Option String
  pub chain_id : Option String
  pub nonce : Option String
  pub signer : Option String

-- `unmodelable` says whether that key holds `true`; `other_keys` are the keys beside the fields.
pub record Simulation : Type 0 where
  pub target : Option String
  pub selector : Option String
  pub recipient : Option String
  pub amount : Option String
  pub received : Option String
  pub min_out : Option String
  pub gas_used : Option String
  pub block_timestamp : Option String
  pub slippage_bps : Option String
  pub price_bps : Option String
  pub unmodelable : Bool
  pub other_keys : List String

-- The two variables that the checks set.
pub record Flags : Type 0 where
  pub consistent : Bool
  pub unmodelable : Bool

-- `value === undefined || value === null || value === ""`
unfoldable pub is_absent : Option String → Bool
is_absent none = true
is_absent (some s) = s == ""

abbrev pub or_empty : Option String → String
or_empty none = ""
or_empty (some s) = s

abbrev pub Check : Type 0
Check = Flags → Flags

abbrev pub cannot_model : Check
cannot_model f = record f { unmodelable = true }

abbrev pub expect : Bool → Check
expect ok f = record f { consistent = f.consistent && ok }

abbrev pub when : Bool → Check → Check
when b k f = if b then k f else f

infixr 4 ◌then_check◌
abbrev pub ◌then_check◌ : Check → Check → Check
◌then_check◌ k l f = l (k f)

unfoldable pub require_field : Option String → Check
require_field value = when (is_absent value) cannot_model

unfoldable pub compare_eq : Option String → Option String → Check
compare_eq declared observed =
    if is_absent observed
    then cannot_model
    else expect (same_text (or_empty observed) (or_empty declared))

unfoldable pub test_int : (ℤ → ℤ → Bool) → Option ℤ → Option ℤ → Bool
test_int op (some a) (some b) = op a b
test_int op _ _ = false

unfoldable pub compare_big : (ℤ → ℤ → Bool) → Option String → Option String → Check
compare_big op declared observed =
    if is_absent observed
    then cannot_model
    else expect (test_int op (big_int (or_empty observed)) (big_int (or_empty declared)))

-- A declared name is required of the model and compared with it.
unfoldable pub check_name : Option String → Option String → Check
check_name declared observed =
    when (not (is_absent declared)) (require_field observed then_check compare_eq declared observed)

abbrev pub is_int : Option ℤ → Bool
is_int none = false
is_int (some n) = true

unfoldable pub check_received : Option String → Check
check_received received =
    require_field received
    then_check when (not (is_absent received)) (expect (is_int (big_int (or_empty received))))

-- `intent.amount !== undefined && intent.amount !== null`
unfoldable pub check_amount : Option String → Option String → Check
check_amount none observed f = f
check_amount (some amount) observed f =
    (require_field observed then_check compare_big eqb_int (some amount) observed) f

unfoldable pub action_of : Intent → String
action_of intent = elim intent.action [ none ↦ "CUSTOM" | some a ↦ if a == "" then "CUSTOM" else a ]

unfoldable pub is_transfer : String → Bool
is_transfer action =
    any (λ (t : String). is_upper_of t action)
      ("TRANSFER" ∷ "DEPOSIT" ∷ "WITHDRAW" ∷ "WITHDRAWAL" ∷ [])

unfoldable pub check_action : Intent → Simulation → Check
check_action intent sim =
    if is_upper_of "SWAP" (action_of intent)
    then check_received sim.received
    else if is_transfer (action_of intent)
    then check_amount intent.amount sim.amount
    else when (not (is_upper_of "CUSTOM" (action_of intent))) cannot_model

abbrev pub ceiling_or_null : Bool → Option String → Option String
ceiling_or_null true later = some "null"
ceiling_or_null false later = later

-- The ceiling of the first MAX_GAS rule that has one, as the text that `bigOrNull` makes of it: null is a
-- ceiling, and no number.
unfoldable pub max_gas_of : List Rule → Option String
max_gas_of [] = none
max_gas_of (r ∷ rs) = elim r.type [
  | RuleType.max_gas ↦ elim r.params.max_gas [
    | none ↦ ceiling_or_null r.params.max_gas_is_null (max_gas_of rs)
    | some g ↦ some g
  ]
  | _ ↦ max_gas_of rs
]

unfoldable pub check_gas : Option String → Option String → Check
check_gas none used f = f
check_gas (some max_gas) used f =
    (require_field used then_check compare_big leb_int (some max_gas) used) f

-- `bigOrNull(ts) >= bigOrNull(bound)` where `ts` is a number. A bound that is no number is null,
-- which JavaScript compares as zero.
abbrev pub or_zero : Option ℤ → ℤ
or_zero none = ℤ.pos 0
or_zero (some n) = n

unfoldable pub after : Option ℤ → Option ℤ → Bool
after none bound = false
after (some t) bound = leb_int (or_zero bound) t

unfoldable pub before : Option ℤ → Option ℤ → Bool
before none bound = false
before (some t) bound = leb_int t (or_zero bound)

unfoldable pub check_time : (Option ℤ → Option ℤ → Bool) → Option String → Option String → Check
check_time op none ts f = f
check_time op (some bound) ts f =
    if is_absent ts then cannot_model f else expect (op (big_int (or_empty ts)) (big_int bound)) f

abbrev pub rules_of : Option (List Rule) → List Rule
rules_of none = []
rules_of (some rs) = rs

unfoldable pub check_all : Simulation → Intent → Option (List Rule) → Check
check_all sim intent rules =
    check_name intent.target sim.target
    then_check check_name intent.selector sim.selector
    then_check check_name intent.recipient sim.recipient
    then_check check_action intent sim
    then_check check_gas (max_gas_of (rules_of rules)) sim.gas_used
    then_check check_time after intent.valid_after sim.block_timestamp
    then_check check_time before intent.valid_until sim.block_timestamp

abbrev pub settled : Flags → Flags
settled f = record { consistent = f.consistent && not f.unmodelable; unmodelable = f.unmodelable }

unfoldable pub evaluate_simulation : Option Simulation → Intent → Option (List Rule) → Flags
evaluate_simulation none intent rules = record { consistent = false; unmodelable = true }
evaluate_simulation (some sim) intent rules =
    if sim.unmodelable
    then record { consistent = false; unmodelable = true }
    else settled (check_all sim intent rules (record { consistent = true; unmodelable = false }))
