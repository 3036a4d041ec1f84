-- ===== src/Replay/Plan.antt =====
-- planTraceReplay of packages/replay/index.js: the errors that it collects over the frames of a
-- trace. Its two tests for a number below zero are left out, since uintToBigInt gives none, and so is
-- its test for a number that is no integer, which uintToBigInt refuses. A text is its list of UTF-16
-- code units.
use coreguard.Prelude.{
  ℕ, suc, ◌+◌, List, [], ◌∷◌, ◌++◌, Bool, true, false, Option, none, some, not, ltb, leb, nat_beq,
  same_codes, lower, map, length, take, if◌then◌else◌,
}
use coreguard.Canonical.{Value, Converted, uint_to_big_int}

abbrev pub Text : Type 0
Text = List ℕ

-- A field that is not there is Value.other; a text that is falsy is empty.
pub record RawFrame : Type 0 where
  pub depth : Option Value
  pub from : Text
  pub to : Text
  pub calldata : Text
  pub gas_used : Value
  pub value : Value

-- An element of `calls`.
pub data Frame : Type 0 where
  frame : RawFrame → Frame
  no_object : Frame

-- `calls` is empty where it is no array.
pub record Trace : Type 0 where
  pub calls : List Frame
  pub from : Text
  pub to : Text
  pub calldata : Text
  pub gas_used : Value
  pub gas_limit : Value

-- What an entry of `errors` says, with the index of its frame.
pub data ReplayError : Type 0 where
  trace_missing tx_gas_used gas_limit_exceeded : ReplayError
  not_object bad_depth no_root depth_jump bad_gas_used bad_value root_from root_to root_selector
        gas_above_tx :
      ℕ → ReplayError

-- selectorOf
unfoldable pub selector_of : Text → Option Text
selector_of cd = if leb 10 (length cd) then some (take 10 (map lower cd)) else none

-- toBigIntOrNull
unfoldable pub big_or_null : Value → Option ℕ
big_or_null v = elim (uint_to_big_int v) [ Converted.ok n ↦ some n | Converted.threw e ↦ none ]

-- `uintToBigInt(frame.depth ?? "0")`
unfoldable pub depth_of : Option Value → Option ℕ
depth_of none = some 0
depth_of (some v) = big_or_null v

abbrev pub error_if : Bool → ReplayError → List ReplayError
error_if true e = e ∷ []
error_if false e = []

-- The frame's depth, beside that of the last frame that had one.
unfoldable pub depth_errors : Option ℕ → ℕ → ℕ → List ReplayError
depth_errors none i d = error_if (not (nat_beq d 0)) (ReplayError.no_root i)
depth_errors (some prev) i d = error_if (ltb (prev + 1) d) (ReplayError.depth_jump i)

abbrev pub is_none : {A : Type 0} → Option A → Bool
is_none none = true
is_none (some a) = false

-- `a && b && a !== b`, for two texts, and for two selectors.
unfoldable pub differ : Text → Text → Bool
differ [] b = false
differ (c ∷ a) [] = false
differ (c ∷ a) (d ∷ b) = not (same_codes (c ∷ a) (d ∷ b))

unfoldable pub differ_selectors : Option Text → Option Text → Bool
differ_selectors (some a) (some b) = not (same_codes a b)
differ_selectors _ _ = false

unfoldable pub root_checks : Trace → ℕ → RawFrame → List ReplayError
root_checks t i f =
    error_if (differ (map lower f.from) (map lower t.from)) (ReplayError.root_from i)
    ++ error_if (differ (map lower f.to) (map lower t.to)) (ReplayError.root_to i)
    ++ error_if (differ_selectors (selector_of t.calldata) (selector_of f.calldata))
        (ReplayError.root_selector i)

unfoldable pub root_errors : Trace → ℕ → ℕ → RawFrame → List ReplayError
root_errors t i d f = if nat_beq d 0 then root_checks t i f else []

-- `fGas > txGas`, where both are there.
unfoldable pub gas_above : Option ℕ → Option ℕ → Bool
gas_above (some g) (some tx) = ltb tx g
gas_above _ _ = false

unfoldable pub number_errors : Trace → ℕ → RawFrame → List ReplayError
number_errors t i f =
    error_if (is_none (big_or_null f.gas_used)) (ReplayError.bad_gas_used i)
    ++ error_if (is_none (big_or_null f.value)) (ReplayError.bad_value i)

-- What the loop does with one frame: `prevDepth` after it, and its errors.
unfoldable pub frame_at : Trace → ℕ → Option ℕ → RawFrame → Option ℕ → Option ℕ × List ReplayError
frame_at t i prev f none = (prev, ReplayError.bad_depth i ∷ [])
frame_at t i prev f (some d) = (
  some d,
  depth_errors prev i d
      ++ number_errors t i f
      ++ root_errors t i d f
      ++ error_if (gas_above (big_or_null f.gas_used) (big_or_null t.gas_used))
          (ReplayError.gas_above_tx i),
)

unfoldable pub frame_step : Trace → ℕ → Option ℕ → Frame → Option ℕ × List ReplayError
frame_step t i prev no_object = (prev, ReplayError.not_object i ∷ [])
frame_step t i prev (frame f) = frame_at t i prev f (depth_of f.depth)

-- The loop over the frames, from the index `i`.
unfoldable pub frame_errors : Trace → ℕ → Option ℕ → List Frame → List ReplayError
frame_errors t i prev [] = []
frame_errors t i prev (f ∷ fs) =
    (frame_step t i prev f).1 ++ frame_errors t (suc i) (frame_step t i prev f).0 fs

unfoldable pub trace_errors : Trace → List ReplayError
trace_errors t =
    error_if (is_none (big_or_null t.gas_used)) ReplayError.tx_gas_used
    ++ error_if (gas_above (big_or_null t.gas_used) (big_or_null t.gas_limit))
        ReplayError.gas_limit_exceeded

-- planTraceReplay: `errors`. The trace is none where it is no object.
unfoldable pub plan_trace_replay : Option Trace → List ReplayError
plan_trace_replay none = ReplayError.trace_missing ∷ []
plan_trace_replay (some t) = trace_errors t ++ frame_errors t 0 none t.calls
