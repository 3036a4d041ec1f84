-- ===== src/Mandate/Fold.antt =====
-- foldMandate of packages/mandate/index.js: a mandate's chain of references is VERIFIED, INVALID or
-- NOT_PROVEN. A text is its list of code points, so that the bytes of two texts in a row are those
-- of the texts appended; the digest of node:crypto, in hexadecimal, is a parameter on such lists.
use coreguard.Prelude.{
  ℕ, List, [], ◌∷◌, ◌++◌, Bool, true, false, Option, none, some, ◌&&◌, ◌||◌, not, ltb, nat_beq,
  same_codes, if◌then◌else◌, codes,
}

abbrev pub Text : Type 0
Text = List ℕ

-- What stands where the source compares a time: a number, or a value that is neither below nor above
-- any number (`undefined`, NaN or a text that is no numeral).
pub data Moment : Type 0 where
  at : ℕ → Moment
  incomparable : Moment

-- A field that the source asks to be a text is none where it is anything else; `signers` is empty
-- where it is no array; `not_before` and `not_after` are none where they are no number; `now` is
-- none where it is null; `course` is empty where it is no array.
pub record Mandate : Type 0 where
  pub intent_ref : Option Text
  pub authorization_ref : Option Text
  pub execution_ref : Option Text
  pub attestation_ref : Option Text
  pub policy_ref : Option Text
  pub scope : Option Text
  pub execution_scope : Option Text
  pub not_before : Option ℕ
  pub not_after : Option ℕ
  pub course : List Moment
  pub now : Option Moment
  pub signers : List Text
  pub signed_by : Option Text
  pub has_delegate : Bool
  pub delegate_to : Option Text
  pub grant_for : Option Text

-- The reason of a refusal, by the paragraph that its text names.
pub data FoldReason : Type 0 where
  no_mandate missing_layer missing_policy missing_scope scope_mismatch not_in_force no_signers
        signer_mismatch invalid_delegation intent_mismatch execution_mismatch :
      FoldReason

-- MANDATE_TOKEN, with what each answer carries.
pub data Folded : Type 0 where
  verified : (policy_seam auth_exec exec_att : Text) → Folded
  invalid : FoldReason → Folded
  not_proven : FoldReason → Folded

-- `typeof v === "string" && v.length > 0`
abbrev pub is_filled : Option Text → Bool
is_filled (some (c ∷ cs)) = true
is_filled _ = false

abbrev pub given_text : Option Text → Text
given_text none = []
given_text (some s) = s

-- `String(v)` of a field that may be missing.
abbrev pub written : Option Text → Text
written none = codes "undefined"
written (some s) = s

-- `s.startsWith(p)`
unfoldable pub starts_with_text : Text → Text → Bool
starts_with_text s [] = true
starts_with_text [] (c ∷ p) = false
starts_with_text (d ∷ s) (c ∷ p) = nat_beq d c && starts_with_text s p

-- `m < n` and `n < m` for a number `n`.
abbrev pub is_before : Moment → ℕ → Bool
is_before (Moment.at m) n = ltb m n
is_before Moment.incomparable n = false

abbrev pub is_after : Moment → Option ℕ → Bool
is_after (Moment.at m) (some n) = ltb n m
is_after _ _ = false

abbrev pub or_epoch : Option ℕ → ℕ
or_epoch none = 0
or_epoch (some n) = n

-- The end of the chain: the last of `course`, or `now ?? 0`.
abbrev pub chained_at : List Moment → Option Moment → Moment
chained_at [] none = Moment.at 0
chained_at [] (some t) = t
chained_at (t ∷ []) now = t
chained_at (t ∷ u ∷ ts) now = chained_at (u ∷ ts) now

unfoldable pub is_in_force : Mandate → Bool
is_in_force m =
    let end = chained_at m.course m.now in
    not (is_before end (or_epoch m.not_before)) && not (is_after end m.not_after)

-- delegateValid
unfoldable pub delegate_valid : Mandate → Bool
delegate_valid m = m.has_delegate && is_filled m.delegate_to

-- Every layer is there.
unfoldable pub has_layers : Mandate → Bool
has_layers m =
    is_filled m.intent_ref
    && is_filled m.authorization_ref
    && is_filled m.execution_ref
    && is_filled m.attestation_ref

abbrev pub is_empty_list : List Text → Bool
is_empty_list [] = true
is_empty_list (s ∷ ss) = false

module _ (sha256_hex : Text → Text) where
  -- `seam(v)` and `bind(a, b)`: the second is tagged with NODE.
  abbrev pub seam : Text → Text
  seam v = sha256_hex v

  abbrev pub bind : Text → Text → Text
  bind a b = sha256_hex (1 ∷ a ++ b)

  -- `a.some((s) => seam(s) === seam(by))`
  unfoldable pub signed_among : Text → List Text → Bool
  signed_among by [] = false
  signed_among by (s ∷ ss) = same_codes (seam s) (seam by) || signed_among by ss

  abbrev pub is_signed : Option Text → List Text → Bool
  is_signed none ss = false
  is_signed (some by) ss = signed_among by ss

  -- The execution's scope, where one is named, is the mandate's or starts with it.
  unfoldable pub is_in_scope : Option Text → Text → Bool
  is_in_scope none scope = true
  is_in_scope (some es) scope =
      not (is_filled (some es)) || same_codes (seam es) (seam scope) || starts_with_text es scope

  -- The seams of the chain.
  unfoldable pub fold_chain : Mandate → Folded
  fold_chain m =
      if not (
        same_codes (bind (given_text m.intent_ref) (given_text m.authorization_ref))
          (bind (written m.grant_for) (given_text m.authorization_ref)))
      then Folded.invalid FoldReason.intent_mismatch
      else if not (
          same_codes (bind (given_text m.authorization_ref) (given_text m.execution_ref))
            (bind (given_text m.execution_ref) (given_text m.attestation_ref)))
      then Folded.invalid FoldReason.execution_mismatch
      else Folded.verified (bind (given_text m.policy_ref) (given_text m.scope))
          (bind (given_text m.authorization_ref) (given_text m.execution_ref))
          (bind (given_text m.execution_ref) (given_text m.attestation_ref))

  -- foldMandate; none is null or no object (for `undefined` the default is a mandate without fields).
  unfoldable pub fold_mandate : Option Mandate → Folded
  fold_mandate none = Folded.not_proven FoldReason.no_mandate
  fold_mandate (some m) =
      if not (has_layers m)
      then Folded.not_proven FoldReason.missing_layer
      else if not (is_filled m.policy_ref)
      then Folded.not_proven FoldReason.missing_policy
      else if not (is_filled m.scope)
      then Folded.not_proven FoldReason.missing_scope
      else if not (is_in_scope m.execution_scope (given_text m.scope))
      then Folded.invalid FoldReason.scope_mismatch
      else if not (is_in_force m)
      then Folded.invalid FoldReason.not_in_force
      else if is_empty_list m.signers
      then Folded.not_proven FoldReason.no_signers
      else if not (is_signed m.signed_by m.signers)
      then Folded.invalid FoldReason.signer_mismatch
      else if not (delegate_valid m)
      then Folded.invalid FoldReason.invalid_delegation
      else fold_chain m
