-- ===== src/Budget/Keys.antt =====
-- scopeKey of packages/budget/ledger.mjs: when a key tells whose scope it is, and when it does not.
use Prim.Native.Char.{Char, code}
use Prim.Native.String.{[], ◌∷◌, ◌++◌}
use text.Mathlib.TextLemmas.{nil-append, cons-append, append_assoc}
use coreguard.Prelude.{
  ℕ, String, ◌≡◌, refl, sym, ap, ◌∙◌, Bool, true, false, nat_beq, if◌then◌else◌, arith,
}
use coreguard.Budget.{scope_key}

-- No character of the id is a colon.
abbrev pub colon_free : String → Bool
colon_free [] = true
colon_free (c ∷ s) = if nat_beq (code c) b':' then false else colon_free s

abbrev head_code : String → ℕ
head_code [] = 0
head_code (c ∷ s) = code c

abbrev rest_of : String → String
rest_of [] = []
rest_of (c ∷ s) = s

abbrev head_or : Char → String → Char
head_or d [] = d
head_or d (c ∷ s) = c

-- Up to its first colon a text is determined.
first_field :
    (a b t u : String) (colon : Char)
    → code colon ≡ b':'
    → colon_free a ≡ true
    → colon_free b ≡ true
    → a ++ (colon ∷ t) ≡ b ++ (colon ∷ u)
    → a ≡ b
first_field [] [] t u colon k p q e = refl
first_field [] (d ∷ b) t u colon k p q e =
    let h : code colon ≡ code d = ap head_code (sym (nil-append _) ∙ e ∙ cons-append d b _) in
    ground arith
first_field (c ∷ a) [] t u colon k p q e =
    let h : code c ≡ code colon = ap head_code (sym (cons-append c a _) ∙ e ∙ nil-append _) in
    ground arith
first_field (c ∷ a) (d ∷ b) t u colon k p q e =
    let e' : c ∷ (a ++ (colon ∷ t)) ≡ d ∷ (b ++ (colon ∷ u)) =
      sym (cons-append c a _) ∙ e ∙ cons-append d b _ in
    let hs : c ≡ d = ap (head_or c) e' in
    let ts : a ≡ b = first_field a b t u colon k (ground arith) (ground arith) (ap rest_of e') in cc

-- Ids without a colon: the key names the job.
pub scope_key-job_id :
    (a b s t : String)
    → colon_free a ≡ true
    → colon_free b ≡ true
    → scope_key a s ≡ scope_key b t
    → a ≡ b
unfolding scope_key
scope_key-job_id a b s t p q e =
    first_field a b ((":" ∷ []) ++ s) ((":" ∷ []) ++ t) ":" refl p q
      (ap (◌++◌ a) (sym (cons-append ":" ":" s)) ∙ e ∙ ap (◌++◌ b) (cons-append ":" ":" t))

-- Without that, the job `a` with the scope `b::c` and the job `a::b` with the scope `c` have one key.
pub scope_key_shared :
    (a b c : String) → scope_key a (b ++ ("::" ++ c)) ≡ scope_key (a ++ ("::" ++ b)) c
unfolding scope_key
scope_key_shared a b c = simp append_assoc
