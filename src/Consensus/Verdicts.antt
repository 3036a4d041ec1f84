-- ===== src/Consensus/Verdicts.antt =====
-- When the fold of packages/consensus/index.js is VERIFIED or INVALID, and that no majority makes it so.
use coreguard.Prelude.{
  String, ◌≡◌, refl, sym, ◌∙◌, ap, ◌⊎◌, inl, inr, ◌↔◌, ◌≢◌, true, false, not, ◌==◌, Option, none,
  some, List, [], ◌∷◌, any, all, All, arith, eq_iff, ==_self, Bool-cases, Option-cases, Any,
}
use coreguard.Consensus.{
  Run, Envelope, PathVerdict, Outcome, Engine, is_unknown_token, returned, threw, token_of,
  evidence_of, to_consensus_verdict, combine_consensus, combine_present, present_of, find_invalid,
  same_evidence, byte_identical, path_verdict, envelopes_of, objects, run_consensus, unverified,
}

-- Every path says VERIFIED, with the evidence `e`.
abbrev pub Agree : String → List PathVerdict → Type 0
Agree e vs = All (λ v. (v.token ≡ "VERIFIED") × (evidence_of v.envelope ≡ some e)) vs

find_invalid-Any :
    (vs : List PathVerdict)
    → ((find_invalid vs ≡ none) × (Any (λ v. v.token ≡ "INVALID") vs → ⊥))
      ⊎ ((v : PathVerdict) × (find_invalid vs ≡ some v) × Any (λ v. v.token ≡ "INVALID") vs)
unfolding find_invalid
find_invalid-Any [] = inl (refl, λ h. h)
find_invalid-Any (v ∷ vs) = elim (Bool-cases (v.token == "INVALID")) [
  | inl is ↦ inr (v, ground arith, inl ((eq_iff v.token "INVALID").0 is))
  | inr other ↦ elim (find_invalid-Any vs) [
    | inl (missing, h) ↦ inl (
      ground arith,
      λ a. elim a [ inl e ↦ cc ((eq_iff v.token "INVALID").1 e, other) | inr t ↦ h t ],
    )
    | inr (w, found, h) ↦ inr (w, ground arith, inr h)
  ]
]

fold_tests_sound :
    (e : String) (vs : List PathVerdict)
    → any (λ (v : PathVerdict). not (v.token == "VERIFIED")) vs ≡ false
    → all (λ (w : PathVerdict). same_evidence (evidence_of w.envelope) (some e)) vs ≡ true
    → Agree e vs
unfolding same_evidence
fold_tests_sound e [] h k = tt
fold_tests_sound e (v ∷ vs) h k = elim (Option-cases (evidence_of v.envelope)) [
  | inl missing ↦ ground arith
  | inr (f, found) ↦ (
    (ground (arith, eq_iff v.token "VERIFIED"), ground (arith, eq_iff f e)),
    fold_tests_sound e vs (ground arith) (ground arith),
  )
]

verified-not_invalid : (t : String) → t ≡ "VERIFIED" → (t == "INVALID") ≡ false
verified-not_invalid t e = ap (λ s. s == "INVALID") e

fold_tests_complete :
    (e : String) (vs : List PathVerdict)
    → Agree e vs
    → (any (λ (v : PathVerdict). not (v.token == "VERIFIED")) vs ≡ false)
      × (all (λ (w : PathVerdict). same_evidence (evidence_of w.envelope) (some e)) vs ≡ true)
      × (find_invalid vs ≡ none)
unfolding same_evidence find_invalid
fold_tests_complete e [] h = (refl, refl, refl)
fold_tests_complete e (v ∷ vs) h =
    let rest = fold_tests_complete e vs h.1 in
    (
      ground (arith, rest.0, h.0.0, eq_iff v.token "VERIFIED"),
      ground (arith, rest.1, h.0.1, ==_self e),
      ground (arith, rest.2, verified-not_invalid v.token h.0.0),
    )

present_verified :
    (vs : List PathVerdict)
    → (combine_present vs).combined ≡ Outcome.verified
    → (vs ≢ []) × (e : String) × Agree e vs
unfolding combine_present byte_identical same_evidence
present_verified [] h = ground arith
present_verified (v ∷ vs) h = elim (Option-cases (evidence_of v.envelope)) [
  | inl missing ↦ ground arith
  | inr (e, found) ↦ (λ n. cc, e, fold_tests_sound e (v ∷ vs) (ground arith) (ground arith))
]

verified_present :
    (vs : List PathVerdict) (e : String)
    → vs ≢ []
    → Agree e vs
    → (combine_present vs).combined ≡ Outcome.verified
unfolding combine_present byte_identical same_evidence
verified_present [] e n h = absurd (n refl)
verified_present (v ∷ vs) e n h =
    let t = fold_tests_complete e (v ∷ vs) h in ground (arith, t.0, t.1, t.2, h.0.1)

-- `combineConsensus` is VERIFIED exactly when some path is there and every path says VERIFIED, all
-- with one and the same evidence.
pub combine_verified :
    (verdicts : List (Option PathVerdict))
    → ((combine_consensus verdicts).combined ≡ Outcome.verified)
      ↔ ((present_of verdicts ≢ []) × (e : String) × Agree e (present_of verdicts))
unfolding combine_consensus
combine_verified verdicts = (
  present_verified (present_of verdicts),
  λ (n, e, h). verified_present (present_of verdicts) e n h,
)

-- What a run of one engine must have been for its path to be VERIFIED with the evidence `e`.
abbrev pub Attests {ℓ} : {Args : Type ℓ} → Args → String → Engine Args → Type 0
Attests args e p =
    (v : Envelope) × (p.run args ≡ returned (some v))
    × (token_of (some v) ≡ "VERIFIED")
    × (evidence_of (some v) ≡ some e)

present-objects : (vs : List PathVerdict) → present_of (objects vs) ≡ vs
unfolding present_of objects
present-objects [] = refl
present-objects (v ∷ vs) = ap (λ ws. v ∷ ws) (present-objects vs)

no_evidence : (e : String) → evidence_of none ≢ some e
unfolding evidence_of
no_evidence e h = cc

unverified-ne : (id : String) (o : Option Envelope) → (unverified id o).token ≢ "VERIFIED"
unverified-ne id o e = cc

verdict_token :
    (o : Option Envelope) (id : String)
    → (to_consensus_verdict o id).token ≡ "VERIFIED"
    → token_of o ≡ "VERIFIED"
unfolding to_consensus_verdict
verdict_token o id h = elim (Bool-cases (is_unknown_token (token_of o))) [
  | inl refused ↦ absurd (unverified-ne id o (ground arith))
  | inr listed ↦ ground arith
]

verdict_envelope : (o : Option Envelope) (id : String) → (to_consensus_verdict o id).envelope ≡ o
unfolding to_consensus_verdict
verdict_envelope o id = ground arith

run-Attests :
    (id e : String) (r : Run)
    → (path_verdict id r).token ≡ "VERIFIED"
    → evidence_of (path_verdict id r).envelope ≡ some e
    → (v : Envelope) × (r ≡ returned (some v))
      × (token_of (some v) ≡ "VERIFIED")
      × (evidence_of (some v) ≡ some e)
unfolding path_verdict
run-Attests id e threw h k = absurd (ground (arith, no_evidence e))
run-Attests id e (returned none) h k =
    absurd (no_evidence e (sym (ap evidence_of (verdict_envelope none id)) ∙ k))
run-Attests id e (returned (some v)) h k =
    (v, refl, verdict_token (some v) id h, sym (ap evidence_of (verdict_envelope (some v) id)) ∙ k)

module _ {ℓ} {Args : Type ℓ} where
  envelopes-Attests :
      (args : Args) (e : String) (ps : List (Engine Args))
      → Agree e (envelopes_of args ps)
      → All (Attests args e) ps
  unfolding envelopes_of
  envelopes-Attests args e [] h = tt
  envelopes-Attests args e (p ∷ ps) h =
      (run-Attests p.id e (p.run args) h.0.0 h.0.1, envelopes-Attests args e ps h.1)

  -- `runConsensus` is VERIFIED only when there is an engine, none throws, and each returns an
  -- envelope that says VERIFIED, all with one and the same evidence.
  pub run_consensus-Attests :
      (args : Args) (ps : List (Engine Args))
      → (run_consensus args ps).combined.combined ≡ Outcome.verified
      → (ps ≢ []) × (e : String) × All (Attests args e) ps
  unfolding run_consensus combine_consensus envelopes_of
  run_consensus-Attests args ps h =
      let (some_path, e, agree) =
        present_verified (envelopes_of args ps)
          (ground (arith, present-objects (envelopes_of args ps))) in
      (λ n. some_path (ap (envelopes_of args) n), e, envelopes-Attests args e ps agree)
