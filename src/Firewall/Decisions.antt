-- ===== src/Firewall/Decisions.antt =====
-- When decideFirewall of packages/firewall/decision.js allows, denies and asks for review.
use coreguard.Prelude.{Bool, true, false, some, ◌≡◌, ◌↔◌, inl, inr, arith, Bool-cases}
use coreguard.Firewall.{
  Decision, Inputs, Decided, Services, Terms, Binding, Probe, PolicyCheck, Flags, decision_of,
  decided, decide_firewall, is_guarded, binding_of, probe_of, policy_of, simulation_of, terms_of,
  sim_violates,
}

-- The predicate of the record: everything holds, and nothing is left to review.
abbrev pub Clear : Terms → Type 0
Clear t =
    (t.declaration_bound ≡ true)
    × (t.authority_probe_ok ≡ true)
    × (t.policy_satisfied ≡ true)
    × (t.simconsistent ≡ true)
    × (t.review_obligation ≡ false)

allow-Clear :
    (b : Binding) (p : Probe) (c : PolicyCheck) (s : Flags) (configured : Bool)
    → (decision_of b p c s configured ≡ Decision.allow) ↔ Clear (terms_of b p c s)
unfolding decision_of terms_of sim_violates
allow-Clear b p c s configured = (λ h. ground arith, λ h. ground arith)

-- Where its guards do not throw, decideFirewall allows exactly when its predicate is clear: the
-- declaration is bound, the probe is OK, the policy is satisfied, the simulation is consistent
-- and there is no review obligation.
pub decide_firewall-Clear :
    (sv : Services) (i : Inputs) (d : Decided)
    → decide_firewall sv i ≡ some d
    → (d.decision ≡ Decision.allow) ↔ Clear d.predicate
unfolding decide_firewall decided
decide_firewall-Clear sv i d h = elim (Bool-cases (is_guarded i)) [
  | inl throws ↦ ground arith
  | inr runs ↦
      let b = binding_of sv i in
      let parts =
        allow-Clear b (probe_of i b) (policy_of sv i) (simulation_of i) i.review_configured in
      (λ a. ground (arith, parts), λ c. ground (arith, parts))
]
