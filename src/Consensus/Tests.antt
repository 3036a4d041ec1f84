-- ===== src/Consensus/Tests.antt =====
-- The theorems about packages/consensus/index.js at concrete runs.
use coreguard.Prelude.{String, ◌≡◌, refl, ◌≢◌, Option, none, some, List, [], ◌∷◌, All}
use coreguard.Consensus.{
  Envelope, PathVerdict, Outcome, Engine, returned, to_consensus_verdict, combine_consensus,
  present_of, run_consensus, is_unknown_token, token_of, consensus_verdict, consensus_label,
  find_invalid, combine_present, byte_identical, same_evidence, evidence_of, envelopes_of, objects,
  path_verdict,
}
use coreguard.Consensus.Verdicts.{Attests, run_consensus-Attests}

abbrev says : String → String → Envelope
says verdict recomputed = record {
  verdict = some verdict;
  token = none;
  recomputed = some recomputed;
  evidence = none;
}

abbrev three : String → List (Engine String)
three last =
    record { id = "A"; run = λ args. returned (some (says "VERIFIED" args)) }
    ∷ record { id = "B"; run = λ args. returned (some (says "VERIFIED" args)) }
    ∷ record { id = "C"; run = λ args. returned (some (says last args)) }
    ∷ []

two_to_one : (run_consensus "{}" (three "INVALID")).combined.combined ≡ Outcome.invalid
unfolding run_consensus combine_consensus combine_present envelopes_of objects present_of
    path_verdict to_consensus_verdict is_unknown_token token_of find_invalid consensus_verdict
    consensus_label
two_to_one = refl

abbrev split : List (Option PathVerdict)
split =
    some (to_consensus_verdict (some (says "VERIFIED" "{}")) "A")
    ∷ none
    ∷ some (to_consensus_verdict (some (says "INVALID" "{}")) "B")
    ∷ []

run_consensus-Attests_example :
    (three "VERIFIED" ≢ []) × (e : String) × All (Attests "{}" e) (three "VERIFIED")
unfolding run_consensus combine_consensus combine_present envelopes_of objects present_of
    path_verdict to_consensus_verdict is_unknown_token token_of find_invalid byte_identical
    same_evidence evidence_of
run_consensus-Attests_example = run_consensus-Attests "{}" (three "VERIFIED") refl
