-- ===== src/Replay/Tests.antt =====
-- The theorems about packages/replay/index.js at concrete traces.
use coreguard.Prelude.{
  ℕ, [], ◌∷◌, some, none, ◌≡◌, ◌≤◌, refl, codes, digits, digits_from, digit_in, same_codes, lower,
  trim, trim_start, backwards, digit_value, is_space,
}
use coreguard.Canonical.{
  Value, uint_to_big_int, big_of, canonical_uint_string, of_trimmed, hex_uint, dec_uint, in_range,
  uint256_max, to_decimal, decimal_on,
}
use coreguard.Replay.{
  RawFrame, Frame, Trace, ReplayError, selector_of, big_or_null, depth_of, differ, differ_selectors,
  root_checks, root_errors, number_errors, depth_errors, gas_above, frame_at, frame_step,
  frame_errors, trace_errors, plan_trace_replay,
}
use coreguard.Replay.Trees.{IsTree, plan_trace_replay-IsTree, plan_trace_replay-child_gas}

abbrev root : RawFrame
root = record {
  depth = none;
  from = codes "0xAA";
  to = codes "0xbb";
  calldata = codes "0x";
  gas_used = Value.text (codes "0");
  value = Value.text (codes "5");
}

abbrev child : RawFrame
child = record root { depth = some (Value.text (codes "1")); gas_used = Value.text (codes "70") }

abbrev trace : Trace
trace = record {
  calls = Frame.frame root ∷ Frame.frame child ∷ [];
  from = codes "0xaa";
  to = codes "0xbb";
  calldata = codes "0x";
  gas_used = Value.text (codes "70");
  gas_limit = Value.other;
}

all_open : Unit {0}
unfolding codes digits digits_from digit_in digit_value trim trim_start backwards is_space lower
    same_codes uint256_max to_decimal decimal_on canonical_uint_string uint_to_big_int big_of
    in_range of_trimmed hex_uint dec_uint big_or_null depth_of selector_of differ differ_selectors
    root_checks root_errors number_errors depth_errors gas_above frame_at frame_step frame_errors
    trace_errors plan_trace_replay
all_open = tt

-- A frame that is two deeper than the one before it.
abbrev jumping : Trace
jumping = record trace {
  calls =
      Frame.frame root ∷ Frame.frame (record child { depth = some (Value.text (codes "2")) }) ∷ [];
}

jump_found : plan_trace_replay (some jumping) ≡ ReplayError.depth_jump 1 ∷ []
unfolding all_open
jump_found = refl

plan_trace_replay-child_gas_example : plan_trace_replay (some trace) ≡ []
unfolding all_open
plan_trace_replay-child_gas_example =
    plan_trace_replay-child_gas trace root child 70 refl refl refl refl refl refl refl refl refl
      refl

plan_trace_replay-IsTree_example :
    (tx : ℕ) × (big_or_null trace.gas_used ≡ some tx)
    × ((limit : ℕ) → big_or_null trace.gas_limit ≡ some limit → tx ≤ limit)
    × IsTree trace tx none trace.calls
plan_trace_replay-IsTree_example =
    plan_trace_replay-IsTree trace plan_trace_replay-child_gas_example
