-- ===== src/Budget/Calls.antt =====
-- What a call of the ledger gives back: a result, a refusal (`refusal` in
-- packages/budget/ledger.mjs) or a thrown TypeError, with the state that it leaves.
use coreguard.Prelude.{ℕ, Bool, Option, none, some, ℤ, if◌then◌else◌}
use coreguard.Budget.State.{Ledger, RefusalCode, ReservationState, Amount}

-- A refusal without its text. The extras that a code path does not give are `none`.
pub record Refusal : Type 0 where
  pub code : RefusalCode
  pub requested_cents : Option Amount
  pub available_cents : Option ℤ
  pub held_cents : Option ℕ
  pub reservation_state : Option ReservationState

abbrev pub refusal : RefusalCode → Refusal
refusal code = record {
  code = code;
  requested_cents = none;
  available_cents = none;
  held_cents = none;
  reservation_state = none;
}

-- The TypeErrors, by the guard that throws them.
pub data Thrown : Type 0 where
  bad_job_id bad_ceiling job_exists bad_scope_id bad_share scope_exists bad_source : Thrown

pub data Answer (A : Type 0) : Type 0 where
  ok : A → Answer A
  refused : Refusal → Answer A
  threw : Thrown → Answer A

abbrev pub Action : Type 0 → Type 0
Action A = Ledger → Answer A × Ledger

module _ {A : Type 0} where
  abbrev pub pure : A → Action A
  pure a l = (ok a, l)

  abbrev pub refuse : Refusal → Action A
  refuse e l = (refused e, l)

  abbrev pub gets : (Ledger → A) → Action A
  gets f l = (ok (f l), l)

  abbrev pub or_refuse : Option A → Refusal → Action A
  or_refuse none e = refuse e
  or_refuse (some a) e = pure a

infixl 5 ◌>>=◌ ◌>>◌
abbrev pub ◌>>=◌ : {A B : Type 0} → Action A → (A → Action B) → Action B
◌>>=◌ m f l =
    let (r, l') = m l in
    elim r [ ok a ↦ f a l' | refused e ↦ (refused e, l') | threw t ↦ (threw t, l') ]

abbrev pub ◌>>◌ : {A B : Type 0} → Action A → Action B → Action B
m >> k = m >>= λ _. k

abbrev pub refuse_if : Bool → Refusal → Action (Unit {0})
refuse_if c e l = (if c then refused e else ok tt, l)

abbrev pub throw_if : Bool → Thrown → Action (Unit {0})
throw_if c t l = (if c then threw t else ok tt, l)

abbrev pub modify : (Ledger → Ledger) → Action (Unit {0})
modify f l = (ok tt, f l)
