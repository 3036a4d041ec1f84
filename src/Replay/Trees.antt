-- ===== src/Replay/Trees.antt =====
-- What a trace looks like that packages/replay/index.js finds valid.
use coreguard.Prelude.{
  ℕ, suc, ◌+◌, ◌≤◌, List, [], ◌∷◌, ◌++◌, Bool, true, false, Option, none, some, ◌≡◌, refl, subst,
  inl, inr, arith, Option-cases, not, ltb, nat_beq, map, lower,
}
use coreguard.Replay.{
  RawFrame, Frame, Trace, ReplayError, selector_of, big_or_null, depth_of, error_if, depth_errors,
  is_none, differ, differ_selectors, root_checks, root_errors, gas_above, number_errors, frame_at,
  frame_step, frame_errors, trace_errors, plan_trace_replay,
}

-- The depths of a list of frames: the first is at depth 0, each later one at most one deeper than the
-- frame before it, and no frame has used more gas than the transaction.
abbrev pub Follows : Option ℕ → ℕ → Type 0
Follows none d = d ≡ 0
Follows (some prev) d = d ≤ prev + 1

pub record Coherent (t : Trace) (f : RawFrame) (d gas : ℕ) : Type 0 where
  pub depth : depth_of f.depth ≡ some d
  pub gas_used : big_or_null f.gas_used ≡ some gas
  pub value : is_none (big_or_null f.value) ≡ false
  pub root :
      d ≡ 0
      → (differ (map lower f.from) (map lower t.from) ≡ false)
        × (differ (map lower f.to) (map lower t.to) ≡ false)
        × (differ_selectors (selector_of t.calldata) (selector_of f.calldata) ≡ false)

abbrev pub IsTree : Trace → ℕ → Option ℕ → List Frame → Type 0
IsTree t tx prev [] = Unit
IsTree t tx prev (Frame.no_object ∷ fs) = ⊥
IsTree t tx prev (Frame.frame f ∷ fs) =
    (d gas : ℕ) × Coherent t f d gas × Follows prev d × (gas ≤ tx) × IsTree t tx (some d) fs

append-nil_parts : {A : Type 0} (xs ys : List A) → xs ++ ys ≡ [] → (xs ≡ []) × (ys ≡ [])
append-nil_parts [] ys e = (refl, e)
append-nil_parts (x ∷ xs) ys e = cc

error_if-nil : (b : Bool) (e : ReplayError) → error_if b e ≡ [] → b ≡ false
error_if-nil true e h = cc
error_if-nil false e h = refl

module _ (t : Trace) (i : ℕ) (f : RawFrame) where
  depth_errors-Follows : (prev : Option ℕ) (d : ℕ) → depth_errors prev i d ≡ [] → Follows prev d
  unfolding depth_errors
  depth_errors-Follows none d h =
      ground (arith, error_if-nil (not (nat_beq d 0)) (ReplayError.no_root i) h)
  depth_errors-Follows (some prev) d h =
      ground (arith, error_if-nil (ltb (prev + 1) d) (ReplayError.depth_jump i) h)

  abbrev pub SameRoot : Type 0
  SameRoot =
      (differ (map lower f.from) (map lower t.from) ≡ false)
      × (differ (map lower f.to) (map lower t.to) ≡ false)
      × (differ_selectors (selector_of t.calldata) (selector_of f.calldata) ≡ false)

  root_checks-nil : root_checks t i f ≡ [] → SameRoot
  unfolding root_checks
  root_checks-nil h =
      let from_error =
        error_if (differ (map lower f.from) (map lower t.from)) (ReplayError.root_from i) in
      let to_error = error_if (differ (map lower f.to) (map lower t.to)) (ReplayError.root_to i) in
      let (front, selector) = append-nil_parts (from_error ++ to_error) _ h in
      let (from, to) = append-nil_parts from_error to_error front in
      (error_if-nil _ _ from, error_if-nil _ _ to, error_if-nil _ _ selector)

  root_errors-nil : (d : ℕ) → root_errors t i d f ≡ [] → d ≡ 0 → SameRoot
  unfolding root_errors
  root_errors-nil d h e = root_checks-nil (ground (arith, h, e))

  frame_at-nil :
      (prev : Option ℕ) (d tx : ℕ)
      → depth_of f.depth ≡ some d
      → big_or_null t.gas_used ≡ some tx
      → (frame_at t i prev f (some d)).1 ≡ []
      → (gas : ℕ) × Coherent t f d gas × Follows prev d × (gas ≤ tx)
  unfolding frame_at number_errors gas_above
  frame_at-nil prev d tx ed et h =
      let (front, above) =
        append-nil_parts (depth_errors prev i d ++ number_errors t i f ++ root_errors t i d f) _
          h in
      let (early, root) = append-nil_parts (depth_errors prev i d ++ number_errors t i f) _ front in
      let (depth, numbers) = append-nil_parts (depth_errors prev i d) _ early in
      let (gas, value) =
        append-nil_parts (error_if (is_none (big_or_null f.gas_used)) (ReplayError.bad_gas_used i))
          _ numbers in
      elim (Option-cases (big_or_null f.gas_used)) [
        | inl missing ↦ absurd (ground (arith, missing, error_if-nil _ _ gas))
        | inr (g, eg) ↦ (
          g,
          record {
            depth = ed;
            gas_used = eg;
            value = error_if-nil _ _ value;
            root = root_errors-nil d root;
          },
          depth_errors-Follows prev d depth,
          ground (arith, eg, et, error_if-nil _ _ above),
        )
      ]

  frame_step-nil :
      (prev : Option ℕ) (tx : ℕ)
      → big_or_null t.gas_used ≡ some tx
      → (frame_step t i prev (Frame.frame f)).1 ≡ []
      → (d gas : ℕ) × Coherent t f d gas
        × Follows prev d
        × (gas ≤ tx)
        × ((frame_step t i prev (Frame.frame f)).0 ≡ some d)
  unfolding frame_step frame_at
  frame_step-nil prev tx et h = elim (Option-cases (depth_of f.depth)) [
    | inl missing ↦ absurd (ground (arith, h, missing))
    | inr (d, ed) ↦
        let (gas, c, follows, bound) = frame_at-nil prev d tx ed et (rw ed at h) in
        (d, gas, c, follows, bound, ground (arith, ed))
  ]

frame_errors-IsTree :
    (t : Trace) (i tx : ℕ) (prev : Option ℕ) (fs : List Frame)
    → big_or_null t.gas_used ≡ some tx
    → frame_errors t i prev fs ≡ []
    → IsTree t tx prev fs
unfolding frame_errors
frame_errors-IsTree t i tx prev [] et h = tt
frame_errors-IsTree t i tx prev (Frame.no_object ∷ fs) et h = unfold frame_step in cc
frame_errors-IsTree t i tx prev (Frame.frame f ∷ fs) et h =
    let (now, later) = append-nil_parts (frame_step t i prev (Frame.frame f)).1 _ h in
    let (d, gas, c, follows, bound, e) = frame_step-nil t i f prev tx et now in
    (
      d,
      gas,
      c,
      follows,
      bound,
      frame_errors-IsTree t (suc i) tx (some d) fs et
          (subst (λ p. frame_errors t (suc i) p fs ≡ []) e later),
    )

-- A trace without an error is a tree: its gas is a canonical number, and at most its gas limit where
-- that is one; every element of its calls is a frame with a canonical depth, value and gas, which is at
-- most the transaction's; the first frame is at depth 0, and each later one is at most one deeper than
-- the frame before it; and a frame at depth 0 has the sender, the target and the selector of the trace,
-- where both have one.
pub plan_trace_replay-IsTree :
    (t : Trace)
    → plan_trace_replay (some t) ≡ []
    → (tx : ℕ) × (big_or_null t.gas_used ≡ some tx)
      × ((limit : ℕ) → big_or_null t.gas_limit ≡ some limit → tx ≤ limit)
      × IsTree t tx none t.calls
unfolding plan_trace_replay trace_errors gas_above
plan_trace_replay-IsTree t h =
    let (whole, frames) = append-nil_parts (trace_errors t) _ h in
    let (missing, above) =
      append-nil_parts (error_if (is_none (big_or_null t.gas_used)) ReplayError.tx_gas_used) _
        whole in
    elim (Option-cases (big_or_null t.gas_used)) [
      | inl none_there ↦ absurd (ground (arith, none_there, error_if-nil _ _ missing))
      | inr (tx, et) ↦ (
        tx,
        et,
        λ limit el. ground (arith, et, el, error_if-nil _ _ above),
        frame_errors-IsTree t 0 tx none t.calls et frames,
      )
    ]

-- A trace of two frames is valid where the first is a root that used no gas and the second, one deeper,
-- used all of the transaction's gas, if the root agrees with the trace, the values of both are
-- canonical, and the gas limit is not.
pub plan_trace_replay-child_gas :
    (t : Trace) (root child : RawFrame) (gas : ℕ)
    → t.calls ≡ Frame.frame root ∷ Frame.frame child ∷ []
    → big_or_null t.gas_used ≡ some gas
    → big_or_null t.gas_limit ≡ none
    → depth_of root.depth ≡ some 0
    → depth_of child.depth ≡ some 1
    → big_or_null root.gas_used ≡ some 0
    → big_or_null child.gas_used ≡ some gas
    → is_none (big_or_null root.value) ≡ false
    → is_none (big_or_null child.value) ≡ false
    → root_checks t 0 root ≡ []
    → plan_trace_replay (some t) ≡ []
unfolding plan_trace_replay trace_errors gas_above frame_errors frame_step frame_at depth_errors
    number_errors root_errors
plan_trace_replay-child_gas t root child gas calls et el dr dc gr gc vr vc rc =
    ground (arith, calls, et, el, dr, dc, gr, gc, vr, vc, rc)
