-- ===== src/Policy/Laws.antt =====
-- What a SATISFIED policy of packages/policy/index.js has enforced.
use coreguard.Prelude.{
  ◌∷◌, [], String, Bool, true, false, ◌==◌, Option, none, some, List, all, All, ℤ, big_int, leb_int,
  includes_text, ◌≡◌, refl, ◌⊎◌, inl, inr, Option-cases, Bool-cases, arith,
}
use coreguard.Policy.{
  RuleType, Params, Rule, Context, Policy, RuleResult, Outcome, Evaluated, has_param, ctx,
  security_int, int_of, bound_of, in_limits, allowlist, denylist, oracle_floor, evaluate_type,
  evaluate_rule, evaluate_rules, evaluate_policy, at_most, is_passed, above_max, below_min,
}

-- The value is on the right side of a bound, if there is one.
abbrev pub AtMost : ℤ → Option String → Type 0
AtMost v max =
    (has_param max ≡ false)
    ⊎ ((s : String) × (b : ℤ) × (max ≡ some s) × (security_int s ≡ some b) × (leb_int v b ≡ true))

abbrev pub AtLeast : ℤ → Option String → Type 0
AtLeast v min =
    (has_param min ≡ false)
    ⊎ ((s : String) × (b : ℤ) × (min ≡ some s) × (security_int s ≡ some b) × (leb_int b v ≡ true))

abbrev pub Listed : Option (List String) → Bool → String → Type 0
Listed list listed s = (ts : List String) × (list ≡ some ts) × (includes_text ts s ≡ listed)

abbrev pub Below : Option ℤ → Option ℤ → Type 0
Below a b = (m n : ℤ) × (a ≡ some m) × (b ≡ some n) × (leb_int m n ≡ true)

-- What each type of rule asks of the context.
abbrev pub Enforced : RuleType → Params → Context → Type 0
Enforced RuleType.value_limit p c =
    (v : ℤ) × (security_int (ctx c.value "0") ≡ some v) × AtMost v p.max × AtLeast v p.min
Enforced RuleType.target_allowlist p c = Listed p.targets true (ctx c.target "")
Enforced RuleType.target_denylist p c = Listed p.targets false (ctx c.target "")
Enforced RuleType.recipient_allowlist p c = Listed p.addresses true (ctx c.recipient "")
Enforced RuleType.recipient_denylist p c = Listed p.addresses false (ctx c.recipient "")
Enforced RuleType.selector_allowlist p c = Listed p.selectors true (ctx c.selector "")
Enforced RuleType.selector_denylist p c = Listed p.selectors false (ctx c.selector "")
Enforced RuleType.max_gas p c = Below (big_int (ctx c.gas_used "0")) (int_of p.max_gas)
Enforced RuleType.deadline p c = Below (int_of c.block_timestamp) (int_of p.deadline)
Enforced RuleType.slippage_bps p c = Below (big_int (ctx c.slippage_bps "0")) (int_of p.bps)
Enforced RuleType.oracle_bound p c =
    (has_param p.floor_bps ≡ false) ⊎ Below (int_of p.floor_bps) (big_int (ctx c.price_bps "10000"))
Enforced RuleType.require_review p c = ⊥
Enforced RuleType.unlisted p c = ⊥

at_most-Below : (a b : Option ℤ) → at_most a b ≡ some RuleResult.pass → Below a b
at_most-Below none b h = ground arith
at_most-Below (some m) none h = ground arith
at_most-Below (some m) (some n) h = (m, n, refl, refl, ground arith)

allowlist-Listed :
    (l : Option (List String)) (s : String) → allowlist l s ≡ some RuleResult.pass → Listed l true s
unfolding allowlist
allowlist-Listed none s h = ground arith
allowlist-Listed (some ts) s h = (ts, refl, ground arith)

denylist-Listed :
    (l : Option (List String)) (s : String) → denylist l s ≡ some RuleResult.pass → Listed l false s
unfolding denylist
denylist-Listed none s h = ground arith
denylist-Listed (some ts) s h = (ts, refl, ground arith)

oracle_floor-Below :
    (floor : Option String) (price : Option ℤ)
    → oracle_floor floor price ≡ some RuleResult.pass
    → (has_param floor ≡ false) ⊎ Below (int_of floor) price
unfolding oracle_floor has_param int_of
oracle_floor-Below floor none h = ground arith
oracle_floor-Below none (some p) h = inl refl
oracle_floor-Below (some s) (some p) h = elim (Bool-cases (s == "")) [
  | inl empty ↦ inl (ground arith)
  | inr filled ↦ elim (Option-cases (big_int s)) [
    | inl throws ↦ ground arith
    | inr (f, e) ↦ inr (f, p, e, refl, ground arith)
  ]
]

-- A bound that was read either is missing or is a number.
bound_of-cases :
    (o : Option String) (b : Option ℤ)
    → bound_of o ≡ some b
    → ((has_param o ≡ false) × (b ≡ none))
      ⊎ ((s : String) × (n : ℤ) × (o ≡ some s) × (security_int s ≡ some n) × (b ≡ some n))
unfolding bound_of has_param
bound_of-cases none b h = inl (refl, ground arith)
bound_of-cases (some s) b h = elim (Bool-cases (s == "")) [
  | inl empty ↦ inl (ground arith, ground arith)
  | inr filled ↦ elim (Option-cases (security_int s)) [
    | inl throws ↦ ground arith
    | inr (n, e) ↦ inr (s, n, refl, e, ground arith)
  ]
]

bound_of-AtMost :
    (v : ℤ) (o : Option String) (b : Option ℤ)
    → bound_of o ≡ some b
    → above_max v b ≡ false
    → AtMost v o
bound_of-AtMost v o b e h = elim (bound_of-cases o b e) [
  | inl (missing, _) ↦ inl missing
  | inr (s, n, es, en, eb) ↦ inr (s, n, es, en, ground arith)
]

bound_of-AtLeast :
    (v : ℤ) (o : Option String) (b : Option ℤ)
    → bound_of o ≡ some b
    → below_min v b ≡ false
    → AtLeast v o
bound_of-AtLeast v o b e h = elim (bound_of-cases o b e) [
  | inl (missing, _) ↦ inl missing
  | inr (s, n, es, en, eb) ↦ inr (s, n, es, en, ground arith)
]

in_limits-passed :
    (value : Option ℤ) (max min : Option (Option ℤ))
    → in_limits value max min ≡ some RuleResult.pass
    → (v : ℤ) × (a b : Option ℤ) × (value ≡ some v)
      × (max ≡ some a)
      × (min ≡ some b)
      × (above_max v a ≡ false)
      × (below_min v b ≡ false)
unfolding in_limits
in_limits-passed none max min h = ground arith
in_limits-passed (some v) none min h = ground arith
in_limits-passed (some v) (some a) none h = ground arith
in_limits-passed (some v) (some a) (some b) h =
    (v, a, b, refl, refl, refl, ground arith, ground arith)

in_limits-Enforced :
    (p : Params) (c : Context)
    → evaluate_type RuleType.value_limit p c ≡ some RuleResult.pass
    → Enforced RuleType.value_limit p c
unfolding evaluate_type
in_limits-Enforced p c h =
    let (v, a, b, ev, ea, eb, below, above) =
      in_limits-passed (security_int (ctx c.value "0")) (bound_of p.max) (bound_of p.min) h in
    (v, ev, bound_of-AtMost v p.max a ea below, bound_of-AtLeast v p.min b eb above)

passed-Enforced :
    (t : RuleType) (p : Params) (c : Context)
    → evaluate_type t p c ≡ some RuleResult.pass
    → Enforced t p c
unfolding evaluate_type
passed-Enforced RuleType.value_limit p c h = in_limits-Enforced p c h
passed-Enforced RuleType.target_allowlist p c h = allowlist-Listed p.targets (ctx c.target "") h
passed-Enforced RuleType.target_denylist p c h = denylist-Listed p.targets (ctx c.target "") h
passed-Enforced RuleType.recipient_allowlist p c h =
    allowlist-Listed p.addresses (ctx c.recipient "") h
passed-Enforced RuleType.recipient_denylist p c h =
    denylist-Listed p.addresses (ctx c.recipient "") h
passed-Enforced RuleType.selector_allowlist p c h =
    allowlist-Listed p.selectors (ctx c.selector "") h
passed-Enforced RuleType.selector_denylist p c h = denylist-Listed p.selectors (ctx c.selector "") h
passed-Enforced RuleType.max_gas p c h =
    at_most-Below (big_int (ctx c.gas_used "0")) (int_of p.max_gas) h
passed-Enforced RuleType.deadline p c h =
    at_most-Below (int_of c.block_timestamp) (int_of p.deadline) h
passed-Enforced RuleType.slippage_bps p c h =
    at_most-Below (big_int (ctx c.slippage_bps "0")) (int_of p.bps) h
passed-Enforced RuleType.oracle_bound p c h =
    oracle_floor-Below p.floor_bps (big_int (ctx c.price_bps "10000")) h
passed-Enforced RuleType.require_review p c h = ground arith
passed-Enforced RuleType.unlisted p c h = ground arith

rules-Enforced :
    (rs : List Rule) (c : Context) (os : List Outcome)
    → evaluate_rules rs c ≡ some os
    → all (λ (o : Outcome). is_passed o.result) os ≡ true
    → All (λ r. Enforced r.type r.params c) rs
unfolding evaluate_rules evaluate_rule
rules-Enforced [] c os h k = tt
rules-Enforced (r ∷ rs) c os h k = elim (Option-cases (evaluate_type r.type r.params c)) [
  | inl throws ↦ ground arith
  | inr (res, e) ↦ elim (Option-cases (evaluate_rules rs c)) [
    | inl throws ↦ ground arith
    | inr (rest, er) ↦ (
      passed-Enforced r.type r.params c (ground arith),
      rules-Enforced rs c rest er (ground arith),
    )
  ]
]

-- A policy that is evaluated and SATISFIED has enforced every rule it holds: each value within
-- its bounds, each name on its allowlist or off its denylist, and no rule of a type that is not
-- known.
pub evaluate_policy-Enforced :
    (policy : Policy) (c : Context) (r : Evaluated)
    → evaluate_policy policy c ≡ some r
    → r.satisfied ≡ true
    → All (λ rule. Enforced rule.type rule.params c) policy.rules
unfolding evaluate_policy
evaluate_policy-Enforced policy c r h k = elim (Option-cases (evaluate_rules policy.rules c)) [
  | inl throws ↦ ground arith
  | inr (os, e) ↦ rules-Enforced policy.rules c os e (ground arith)
]
