-- ===== src/Firewall/Consistency.antt =====
-- What a consistent simulation of packages/firewall/simulation.js agrees on with the intent.
use coreguard.Prelude.{
  String, Bool, true, false, Option, none, some, List, ◌≡◌, refl, ◌⊎◌, inl, inr, arith, Bool-cases,
  ℤ, big_int, leb_int, eqb_int, same_text, is_upper_of,
}
use coreguard.Policy.{Rule}
use coreguard.Firewall.{
  Intent, Simulation, Flags, is_absent, or_empty, require_field, compare_eq, compare_big, test_int,
  check_name, check_received, check_amount, action_of, is_transfer, check_action, max_gas_of,
  check_gas, check_time, after, before, rules_of, check_all, evaluate_simulation,
}

-- Nothing found that differs, and nothing that cannot be modelled.
abbrev pub Good : Flags → Type 0
Good f = (f.consistent ≡ true) × (f.unmodelable ≡ false)

-- A name that the intent declares is there in the model, and is the same but for case.
abbrev pub SameName : Option String → Option String → Type 0
SameName declared observed =
    (is_absent declared ≡ true)
    ⊎ ((is_absent observed ≡ false) × (same_text (or_empty observed) (or_empty declared) ≡ true))

-- The two are numbers in the relation.
abbrev pub Holds : (ℤ → ℤ → Bool) → Option String → Option String → Type 0
Holds op declared observed =
    (is_absent observed ≡ false)
    × (test_int op (big_int (or_empty observed)) (big_int (or_empty declared)) ≡ true)

abbrev pub SameAmount : Intent → Simulation → Type 0
SameAmount intent sim =
    (is_upper_of "SWAP" (action_of intent) ≡ true)
    ⊎ (is_transfer (action_of intent) ≡ false)
    ⊎ (intent.amount ≡ none)
    ⊎ Holds eqb_int intent.amount sim.amount

abbrev pub WithinGas : Option String → Option String → Type 0
WithinGas ceiling used = (ceiling ≡ none) ⊎ Holds leb_int ceiling used

abbrev pub InTime : (Option ℤ → Option ℤ → Bool) → Option String → Option String → Type 0
InTime op bound ts =
    (bound ≡ none)
    ⊎ ((is_absent ts ≡ false) × (op (big_int (or_empty ts)) (big_int (or_empty bound)) ≡ true))

pub record Agrees (sim : Simulation) (intent : Intent) (rules : List Rule) : Type 0 where
  pub target : SameName intent.target sim.target
  pub selector : SameName intent.selector sim.selector
  pub recipient : SameName intent.recipient sim.recipient
  pub amount : SameAmount intent sim
  pub gas : WithinGas (max_gas_of rules) sim.gas_used
  pub valid_after : InTime after intent.valid_after sim.block_timestamp
  pub valid_until : InTime before intent.valid_until sim.block_timestamp

check_name-SameName :
    (declared observed : Option String) (f : Flags)
    → Good (check_name declared observed f)
    → Good f × SameName declared observed
unfolding check_name require_field compare_eq
check_name-SameName declared observed f h = elim (Bool-cases (is_absent declared)) [
  | inl absent ↦ ((ground arith, ground arith), inl absent)
  | inr declares ↦ ((ground arith, ground arith), inr (ground arith, ground arith))
]

check_amount-Holds :
    (amount observed : Option String) (f : Flags)
    → Good (check_amount amount observed f)
    → Good f × ((amount ≡ none) ⊎ Holds eqb_int amount observed)
unfolding check_amount require_field compare_big
check_amount-Holds none observed f h = (h, inl refl)
check_amount-Holds (some a) observed f h =
    ((ground arith, ground arith), inr (ground arith, ground arith))

check_gas-WithinGas :
    (ceiling used : Option String) (f : Flags)
    → Good (check_gas ceiling used f)
    → Good f × WithinGas ceiling used
unfolding check_gas require_field compare_big
check_gas-WithinGas none used f h = (h, inl refl)
check_gas-WithinGas (some g) used f h =
    ((ground arith, ground arith), inr (ground arith, ground arith))

check_time-InTime :
    (op : Option ℤ → Option ℤ → Bool) (bound ts : Option String) (f : Flags)
    → Good (check_time op bound ts f)
    → Good f × InTime op bound ts
unfolding check_time
check_time-InTime op none ts f h = (h, inl refl)
check_time-InTime op (some b) ts f h =
    ((ground arith, ground arith), inr (ground arith, ground arith))

check_received-Good :
    (received : Option String) (f : Flags) → Good (check_received received f) → Good f
unfolding check_received require_field
check_received-Good received f h = (ground arith, ground arith)

check_action-SameAmount :
    (intent : Intent) (sim : Simulation) (f : Flags)
    → Good (check_action intent sim f)
    → Good f × SameAmount intent sim
unfolding check_action
check_action-SameAmount intent sim f h = elim (Bool-cases (is_upper_of "SWAP" (action_of intent))) [
  | inl swap ↦ (check_received-Good sim.received f (ground arith), inl swap)
  | inr other ↦ elim (Bool-cases (is_transfer (action_of intent))) [
    | inl transfer ↦
        let r = check_amount-Holds intent.amount sim.amount f (ground arith) in (r.0, inr (inr r.1))
    | inr custom ↦ ((ground arith, ground arith), inr (inl custom))
  ]
]

check_all-Agrees :
    (sim : Simulation) (intent : Intent) (rules : Option (List Rule)) (f : Flags)
    → Good (check_all sim intent rules f)
    → Agrees sim intent (rules_of rules)
unfolding check_all
check_all-Agrees sim intent rules f h =
    let until = check_time-InTime before intent.valid_until sim.block_timestamp _ h in
    let from = check_time-InTime after intent.valid_after sim.block_timestamp _ until.0 in
    let gas = check_gas-WithinGas (max_gas_of (rules_of rules)) sim.gas_used _ from.0 in
    let action = check_action-SameAmount intent sim _ gas.0 in
    let recipient = check_name-SameName intent.recipient sim.recipient _ action.0 in
    let selector = check_name-SameName intent.selector sim.selector _ recipient.0 in
    let target = check_name-SameName intent.target sim.target f selector.0 in
    record {
      target = target.1;
      selector = selector.1;
      recipient = recipient.1;
      amount = action.1;
      gas = gas.1;
      valid_after = from.1;
      valid_until = until.1;
    }

-- A simulation that is consistent agrees with the intent: the names that the intent declares are the
-- same but for case, the amount of a transfer is the same number, the gas is within the policy's
-- first MAX_GAS ceiling, and the time is within the window that the intent declares.
pub evaluate_simulation-Agrees :
    (sim : Simulation) (intent : Intent) (rules : Option (List Rule))
    → (evaluate_simulation (some sim) intent rules).consistent ≡ true
    → Agrees sim intent (rules_of rules)
unfolding evaluate_simulation
evaluate_simulation-Agrees sim intent rules h =
    check_all-Agrees sim intent rules (record { consistent = true; unmodelable = false })
      (ground arith, ground arith)
