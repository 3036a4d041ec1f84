-- ===== src/Firewall/Resolve.antt =====
-- resolveReview of packages/firewall/resolution.js.
use coreguard.Prelude.{
  [], String, Bool, true, false, not, ◌&&◌, ◌==◌, Option, none, some, List, any, if◌then◌else◌,
  same_text,
}
use coreguard.Firewall.Simulate.{Simulation}
use coreguard.Firewall.Bind.{Binding, is_address}
use coreguard.Firewall.Decide.{
  Decision, allow, require_review, Inputs, RecordBody, Decided, Services, decide_firewall,
}

-- The record to resolve; `frozen` is what `Object.isFrozen` says of it.
pub record Parent : Type 0 where
  pub frozen : Bool
  pub body : RecordBody
  pub decision_ref : Option String

pub record ReviewPath : Type 0 where
  pub configured : Bool
  pub writers : Option (List String)

pub record ReviewArgs : Type 0 where
  pub parent_record : Option Parent
  pub writer : String
  pub review_path : Option ReviewPath
  pub resolved_simulation : Option Simulation
  pub reason : Option String
  pub inputs : Inputs

pub data ReviewError : Type 0 where
  not_frozen not_for_review no_review_path not_authorized no_simulation redecision_failed
        not_same_binding not_allowed :
      ReviewError

pub record ResolutionRecord : Type 0 where
  pub ref : Option String
  pub from : Decision
  pub to : Decision
  pub at : Option String
  pub writer : String
  pub reason : String

pub data Resolved : Type 0 where
  refused : ReviewError → Resolved
  admitted : ResolutionRecord → Decided → Resolved

abbrev pub is_review_decision : Decision → Bool
is_review_decision require_review = true
is_review_decision _ = false

abbrev pub is_allow : Decision → Bool
is_allow allow = true
is_allow _ = false

abbrev pub writers_of : Option (List String) → List String
writers_of none = []
writers_of (some ws) = ws

unfoldable pub is_authorized : Option (List String) → String → Bool
is_authorized writers writer =
    any (λ (w : String). is_address w && same_text w writer) (writers_of writers)

unfoldable pub same_ref : Option String → Option String → Bool
same_ref none none = true
same_ref (some a) (some b) = a == b
same_ref _ _ = false

unfoldable pub same_binding : Binding → Binding → Bool
same_binding a b =
    same_ref a.intent_ref b.intent_ref
    && same_ref a.manifest_id b.manifest_id
    && same_ref a.binding_ref b.binding_ref

abbrev reason_or_default : Option String → String
reason_or_default none = "review resolved the outstanding obligation"
reason_or_default (some r) = if r == "" then "review resolved the outstanding obligation" else r

unfoldable pub resolution_record : Parent → ReviewArgs → Decided → ResolutionRecord
resolution_record p a d = record {
  ref = p.decision_ref;
  from = require_review;
  to = d.decision;
  at = d.body.block_timestamp;
  writer = a.writer;
  reason = reason_or_default a.reason;
}

unfoldable pub admit : Parent → ReviewArgs → Option Decided → Resolved
admit p a none = refused redecision_failed
admit p a (some d) =
    if not (same_binding d.body.binding p.body.binding)
    then refused not_same_binding
    else if not (is_allow d.decision)
    then refused not_allowed
    else admitted (resolution_record p a d) d

unfoldable pub redecide : Services → Parent → ReviewArgs → Resolved
redecide sv p a = elim a.resolved_simulation [
  | none ↦ refused no_simulation
  | some sim ↦ admit p a (decide_firewall sv (record a.inputs { simulation = some sim }))
]

unfoldable pub resolve_on : Services → Parent → ReviewArgs → Resolved
resolve_on sv p a = elim a.review_path [
  | none ↦ refused no_review_path
  | some path ↦
      if not path.configured
      then refused no_review_path
      else if not (is_authorized path.writers a.writer)
      then refused not_authorized
      else redecide sv p a
]

unfoldable pub resolve_review : Services → ReviewArgs → Resolved
resolve_review sv a = elim a.parent_record [
  | none ↦ refused not_frozen
  | some p ↦
      if not p.frozen
      then refused not_frozen
      else if not (is_review_decision p.body.decision)
      then refused not_for_review
      else resolve_on sv p a
]
