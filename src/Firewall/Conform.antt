-- ===== src/Firewall/Conform.antt =====
-- packages/firewall/conformance.js: what an execution showed, compared with the scope of a frozen
-- decision. The record that annotateConformance freezes, and its digest, are left out.
use coreguard.Prelude.{
  String, Bool, true, false, not, ◌&&◌, ◌==◌, Option, none, some, List, [], ◌∷◌, ◌++◌, same_text,
  if◌then◌else◌,
}
use coreguard.Firewall.Decide.{Decision}

-- A field of the scope, or of what was observed: `undefined`, null, or a text.
pub data Field : Type 0 where
  undefined null : Field
  text : String → Field

-- `binding.executionScope`, with every field `undefined` where there is none.
pub record DeclaredScope : Type 0 where
  pub chain_id : Field
  pub recipient : Field
  pub amount : Field
  pub target : Field
  pub selector : Field

-- `observed`, with the chain of its `executionRef`, if it has one.
pub record Observed : Type 0 where
  pub ref_chain_id : Option Field
  pub recipient : Field
  pub amount : Field
  pub target : Field
  pub selector : Field

pub data Mismatch : Type 0 where
  deny_verdict_contradiction chain_id recipient amount target selector : Mismatch

pub data Claimed : Type 0 where
  verified conform unlisted : Claimed

-- `String(a)`, and `String(a || "")`.
abbrev pub string_of : Field → String
string_of Field.undefined = "undefined"
string_of Field.null = "null"
string_of (Field.text s) = s

abbrev pub string_or_empty : Field → String
string_or_empty (Field.text s) = s
string_or_empty _ = ""

abbrev pub is_null : Field → Bool
is_null Field.null = true
is_null _ = false

abbrev pub is_undefined : Field → Bool
is_undefined Field.undefined = true
is_undefined _ = false

abbrev pub is_truthy_field : Field → Bool
is_truthy_field (Field.text s) = not (s == "")
is_truthy_field _ = false

abbrev pub is_deny : Decision → Bool
is_deny Decision.deny = true
is_deny _ = false

-- contradictionScan, for a record that is there.
unfoldable pub contradiction_scan : Decision → Claimed → Bool
contradiction_scan d Claimed.unlisted = false
contradiction_scan d _ = is_deny d

abbrev pub mismatch_if : Bool → Mismatch → List Mismatch
mismatch_if true m = m ∷ []
mismatch_if false m = []

unfoldable pub chain_differs : Option Field → Field → Bool
chain_differs none declared = false
chain_differs (some found) declared =
    is_truthy_field declared && not (same_text (string_of found) (string_or_empty declared))

-- `observed !== undefined && declared !== null && !eqLower(observed, declared)`
unfoldable pub field_differs : Field → Field → Bool
field_differs found declared =
    not (is_undefined found)
    && not (is_null declared)
    && not (same_text (string_or_empty found) (string_or_empty declared))

-- The same on amounts, which are turned into texts first.
unfoldable pub amount_differs : Field → Field → Bool
amount_differs found declared =
    not (is_undefined found)
    && not (is_null declared)
    && not (same_text (string_of found) (string_of declared))

-- compareObserved
unfoldable pub compare_observed : DeclaredScope → Observed → List Mismatch
compare_observed scope o =
    mismatch_if (chain_differs o.ref_chain_id scope.chain_id) Mismatch.chain_id
    ++ mismatch_if (field_differs o.recipient scope.recipient) Mismatch.recipient
    ++ mismatch_if (amount_differs o.amount scope.amount) Mismatch.amount
    ++ mismatch_if (field_differs o.target scope.target) Mismatch.target
    ++ mismatch_if (field_differs o.selector scope.selector) Mismatch.selector

pub data ConformanceState : Type 0 where
  conform diverged : ConformanceState

abbrev pub conformance_of : List Mismatch → ConformanceState
conformance_of [] = ConformanceState.conform
conformance_of (m ∷ ms) = ConformanceState.diverged

-- annotateConformance: none is its TypeError, for a decision record that is not frozen.
unfoldable pub annotate_conformance :
    Bool → Decision → DeclaredScope → Observed → Option (ConformanceState × List Mismatch)
annotate_conformance frozen d scope o =
    let ms =
      mismatch_if (contradiction_scan d Claimed.conform) Mismatch.deny_verdict_contradiction
      ++ compare_observed scope o in
    if frozen then some (conformance_of ms, ms) else none
