-- ===== src/Consensus/Fold.antt =====
-- toConsensusVerdict, combineConsensus and runConsensus of packages/consensus/index.js. Evidence is
-- its JSON text, which is all that the source compares.
use coreguard.Prelude.{
  ℕ, zero, suc, String, Bool, true, false, not, ◌||◌, ◌&&◌, ◌==◌, Option, none, some, List, [], ◌∷◌,
  any, all, includes, if◌then◌else◌,
}

-- What is read of an engine's envelope.
pub record Envelope : Type 0 where
  pub verdict : Option String
  pub token : Option String
  pub recomputed : Option String
  pub evidence : Option String

-- ENGINE_VERDICT_TOKENS
abbrev pub engine_verdict_tokens : List String
engine_verdict_tokens = "VERIFIED" ∷ "INVALID" ∷ "INCONCLUSIVE" ∷ "UNVERIFIED" ∷ []

-- The own keys of CONSENSUS_TOKEN, and what it inherits as any object does: an index by one of these
-- is truthy.
abbrev pub consensus_token_keys : List String
consensus_token_keys =
    "0" ∷ "1" ∷ "2" ∷ "3" ∷ "constructor" ∷ "hasOwnProperty" ∷ "isPrototypeOf"
    ∷ "propertyIsEnumerable" ∷ "toLocaleString" ∷ "toString" ∷ "valueOf" ∷ "__proto__"
    ∷ "__defineGetter__" ∷ "__defineSetter__" ∷ "__lookupGetter__" ∷ "__lookupSetter__" ∷ []

-- CONSENSUS_VERDICTS at a token; no number at any other key.
unfoldable pub consensus_verdict : String → Option ℕ
consensus_verdict token =
    if token == "INVALID"
    then some 0
    else if token == "INCONCLUSIVE"
    then some 1
    else if token == "UNVERIFIED"
    then some 2
    else if token == "VERIFIED"
    then some 3
    else none

-- CONSENSUS_LABEL at a token. A key of no token stands for itself, and one that every object
-- inherits for what is inherited.
pub data Label : Type 0 where
  contradiction disagreement not_proven three_path_consensus inherited : Label
  token_itself : String → Label

unfoldable pub consensus_label : String → Label
consensus_label token =
    if token == "INVALID"
    then contradiction
    else if token == "INCONCLUSIVE"
    then disagreement
    else if token == "UNVERIFIED"
    then not_proven
    else if token == "VERIFIED"
    then three_path_consensus
    else if token == "0" || token == "1" || token == "2" || token == "3"
    then token_itself token
    else inherited

pub record PathVerdict : Type 0 where
  pub path : String
  pub verdict : Option ℕ
  pub token : String
  pub label : Label
  pub envelope : Option Envelope
  pub ok : Bool

abbrev or_text : Option String → String → String
or_text none t = t
or_text (some s) t = s

-- `envelope?.verdict ?? envelope?.token ?? ""`
unfoldable pub token_of : Option Envelope → String
token_of none = ""
token_of (some e) = or_text e.verdict (or_text e.token "")

abbrev pub unverified : String → Option Envelope → PathVerdict
unverified path_id envelope = record {
  path = path_id;
  verdict = some 2;
  token = "UNVERIFIED";
  label = not_proven;
  envelope = envelope;
  ok = false;
}

abbrev is_three : Option ℕ → Bool
is_three (some (suc (suc (suc zero)))) = true
is_three _ = false

-- `!CONSENSUS_TOKEN[token] && !Object.values(ENGINE_VERDICT_TOKENS).includes(token)`
unfoldable pub is_unknown_token : String → Bool
is_unknown_token token =
    not (includes consensus_token_keys token) && not (includes engine_verdict_tokens token)

unfoldable pub to_consensus_verdict : Option Envelope → String → PathVerdict
to_consensus_verdict envelope path_id =
    if is_unknown_token (token_of envelope) then unverified path_id envelope else record {
      path = path_id;
      verdict = consensus_verdict (token_of envelope);
      token = token_of envelope;
      label = consensus_label (token_of envelope);
      envelope = envelope;
      ok = is_three (consensus_verdict (token_of envelope));
    }

-- `v.envelope?.recomputed ?? v.envelope?.evidence ?? null`
unfoldable pub evidence_of : Option Envelope → Option String
evidence_of none = none
evidence_of (some e) = elim e.recomputed [ none ↦ e.evidence | some r ↦ some r ]

-- `combined` and `token` of the answer, which are equal.
pub data Outcome : Type 0 where
  invalid inconclusive verified : Outcome

pub data Reason : Type 0 where
  path_invalid : String → Reason
  not_every_path : List PathVerdict → Reason
  no_path not_identical all_verified : Reason

pub record Combined : Type 0 where
  pub combined : Outcome
  pub verdict : ℕ
  pub label : Label
  pub reason : Reason

-- `verdicts.filter((v) => v && typeof v === "object")`
unfoldable pub present_of : List (Option PathVerdict) → List PathVerdict
present_of [] = []
present_of (none ∷ vs) = present_of vs
present_of (some v ∷ vs) = v ∷ present_of vs

-- `present.find((v) => v.token === "INVALID")`
unfoldable pub find_invalid : List PathVerdict → Option PathVerdict
find_invalid [] = none
find_invalid (v ∷ vs) = if v.token == "INVALID" then some v else find_invalid vs

-- `e !== null && JSON.stringify(e) === JSON.stringify(evidences[0])`
unfoldable pub same_evidence : Option String → Option String → Bool
same_evidence (some e) (some first) = e == first
same_evidence _ _ = false

unfoldable pub byte_identical : List PathVerdict → Bool
byte_identical [] = false
byte_identical (v ∷ vs) =
    all (λ (w : PathVerdict). same_evidence (evidence_of w.envelope) (evidence_of v.envelope))
      (v ∷ vs)

abbrev is_empty : {A : Type 0} → List A → Bool
is_empty [] = true
is_empty (x ∷ xs) = false

abbrev pub inconclusive_answer : Reason → Combined
inconclusive_answer reason = record {
  combined = inconclusive;
  verdict = 1;
  label = disagreement;
  reason = reason;
}

unfoldable pub combine_present : List PathVerdict → Combined
combine_present present = elim (find_invalid present) [
  | some v ↦ record {
    combined = invalid;
    verdict = 0;
    label = contradiction;
    reason = path_invalid v.path;
  }
  | none ↦
      if is_empty present
      then inconclusive_answer no_path
      else if any (λ (v : PathVerdict). not (v.token == "VERIFIED")) present
      then inconclusive_answer (not_every_path present)
      else if not (byte_identical present)
      then inconclusive_answer not_identical
      else record {
        combined = verified;
        verdict = 3;
        label = three_path_consensus;
        reason = all_verified;
      }
]

unfoldable pub combine_consensus : List (Option PathVerdict) → Combined
combine_consensus verdicts = combine_present (present_of verdicts)

-- How a call of an engine ends.
pub data Run : Type 0 where
  returned : Option Envelope → Run
  threw : Run

-- An engine that is handed in.
pub record Engine {ℓ} (Args : Type ℓ) : Type ℓ where
  pub id : String
  pub run : Args → Run

unfoldable pub path_verdict : String → Run → PathVerdict
path_verdict id (returned envelope) = to_consensus_verdict envelope id
path_verdict id threw = unverified id none

pub record Consensus : Type 0 where
  pub combined : Combined
  pub paths : List (String × String)

unfoldable pub objects : List PathVerdict → List (Option PathVerdict)
objects [] = []
objects (v ∷ vs) = some v ∷ objects vs

unfoldable pub path_tokens : List PathVerdict → List (String × String)
path_tokens [] = []
path_tokens (v ∷ vs) = (v.path, v.token) ∷ path_tokens vs

module _ {ℓ} {Args : Type ℓ} where
  unfoldable pub envelopes_of : Args → List (Engine Args) → List PathVerdict
  envelopes_of args [] = []
  envelopes_of args (p ∷ ps) = path_verdict p.id (p.run args) ∷ envelopes_of args ps

  unfoldable pub run_consensus : Args → List (Engine Args) → Consensus
  run_consensus args paths = record {
    combined = combine_consensus (objects (envelopes_of args paths));
    paths = path_tokens (envelopes_of args paths);
  }
