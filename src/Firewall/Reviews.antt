-- ===== src/Firewall/Reviews.antt =====
-- What resolveReview of packages/firewall/resolution.js admits.
use coreguard.Prelude.{true, some, ◌≡◌, arith, Option-cases, inl, inr}
use coreguard.Firewall.{
  Decision, Decided, Services, Simulation, Parent, ReviewPath, ReviewArgs, ResolutionRecord,
  admitted, resolve_review, resolve_on, redecide, admit, is_authorized, same_binding,
  decide_firewall, resolution_record,
}

-- What must have been the case for a review to be admitted.
pub record Admissible (sv : Services) (a : ReviewArgs) (r : ResolutionRecord) (d : Decided)
    : Type 0 where
  pub parent : Parent
  pub path : ReviewPath
  pub simulation : Simulation
  pub is_parent : a.parent_record ≡ some parent
  pub frozen : parent.frozen ≡ true
  pub for_review : parent.body.decision ≡ Decision.require_review
  pub is_path : a.review_path ≡ some path
  pub configured : path.configured ≡ true
  pub authorized : is_authorized path.writers a.writer ≡ true
  pub is_simulation : a.resolved_simulation ≡ some simulation
  pub redecided : decide_firewall sv (record a.inputs { simulation = some simulation }) ≡ some d
  pub allowed : d.decision ≡ Decision.allow
  pub same : same_binding d.body.binding parent.body.binding ≡ true
  pub linked : r.ref ≡ parent.decision_ref
  pub from_review : r.from ≡ Decision.require_review
  pub to_allow : r.to ≡ Decision.allow
  pub by_writer : r.writer ≡ a.writer
  pub at_block : r.at ≡ d.body.block_timestamp

-- A review that is admitted resolves a frozen REQUIRE_REVIEW record, by a writer of a configured
-- path; its second decision on the completed simulation is ALLOW on the same binding; and its own
-- record refers to the decision that is resolved, goes from REQUIRE_REVIEW to ALLOW, and names the
-- writer and the block time of the second decision.
pub resolve_review-Admissible :
    (sv : Services) (a : ReviewArgs) (r : ResolutionRecord) (d : Decided)
    → resolve_review sv a ≡ admitted r d
    → Admissible sv a r d
unfolding resolve_review resolve_on redecide admit resolution_record
resolve_review-Admissible sv a r d h = elim (Option-cases a.parent_record) [
  | inl missing ↦ ground arith
  | inr (p, ep) ↦ elim (Option-cases a.review_path) [
    | inl missing ↦ ground arith
    | inr (path, eq) ↦ elim (Option-cases a.resolved_simulation) [
      | inl missing ↦ ground arith
      | inr (sim, es) ↦
          elim (Option-cases (decide_firewall sv (record a.inputs { simulation = some sim }))) [
            | inl throws ↦ ground arith
            | inr (e, ed) ↦ record {
              parent = p;
              path = path;
              simulation = sim;
              is_parent = ep;
              frozen = ground arith;
              for_review = ground arith;
              is_path = eq;
              configured = ground arith;
              authorized = ground arith;
              is_simulation = es;
              redecided = ground arith;
              allowed = ground arith;
              same = ground arith;
              linked = ground arith;
              from_review = ground arith;
              to_allow = ground arith;
              by_writer = ground arith;
              at_block = ground arith;
            }
          ]
    ]
  ]
]
