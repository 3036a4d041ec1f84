-- ===== src/X402/Signing.antt =====
-- sign of packages/x402/index.mjs: the cost is reserved before a signature exists, and once.
use coreguard.Prelude.{
  ℕ, Bool, true, String, ◌≡◌, refl, ◌∙◌, false, Option, none, some, arith, lookup, insert,
}
use coreguard.Budget.{Job, Scope, Answer, reserve, book}
use coreguard.Budget.Outcomes.{Fits, next_id, reserved_answer, reserve-Fits}
use coreguard.Budget.Frames.{Sets}
use coreguard.Budget.Effects.{Books}
use coreguard.X402.Quotes.{Challenge, sign_challenge}
use coreguard.X402.Sessions.{
  Harness, BudgetOf, State, SignAnswer, signed, sign, sign_with, sign_budgeted, sign_reserved,
  sign_now, cost_of, count_signed,
}

-- Neither the ledger nor the reservations of the harness have changed.
abbrev pub SameBooks : State → State → Type 0
SameBooks s s' = (s'.ledger ≡ s.ledger) × (s'.reservations ≡ s.reservations)

abbrev pub has_signature : SignAnswer → Bool
has_signature (SignAnswer.signed signature reservation) = true
has_signature _ = false

-- No signature, and neither the ledger nor the reservations have changed.
abbrev pub Unsigned : State → SignAnswer × State → Type 0
Unsigned s r = (has_signature r.0 ≡ false) × SameBooks s r.1

-- The state after a signature: the amount is booked under the next id, which the harness keeps.
abbrev pub signed_state : Harness → BudgetOf → Challenge → Job → Option Scope → State → State
signed_state h b c j sc s =
    let id = next_id h.sha256_hex (cost_of b c) s.ledger in
    count_signed (record s {
      reservations = insert c.id id s.reservations;
      ledger = book (cost_of b c) j sc id s.ledger;
    })

-- What a signature has left: the cost is booked in the ledger under the next id, and the harness keeps
-- that id for the challenge.
abbrev pub BooksSigned :
    Harness
    → BudgetOf
    → Challenge
    → State
    → String
    → Job
    → Option Scope
    → ℕ
    → SignAnswer × State
    → Type 0
BooksSigned h b c s signature j sc n r =
    let id = next_id h.sha256_hex (cost_of b c) s.ledger in
    (r.0 ≡ signed signature (some id))
    × Books (cost_of b c) id n j sc s.ledger r.1.ledger
    × Sets c.id id s.reservations r.1.reservations

module _ (h : Harness) (secret : String) (b : BudgetOf) (c : Challenge) (s : State)
    (has_secret : h.secret ≡ some secret) (has_budget : h.budget ≡ some b) where
  -- Signed, in a job and a scope in which the cost fits, with a challenge that had no reservation.
  abbrev pub SignedOnce : String → SignAnswer × State → Type 0
  SignedOnce signature r =
      (j : Job) × (sc : Option Scope) × (lookup c.id s.reservations ≡ none)
      × Fits (cost_of b c) s.ledger j sc
      × (r ≡ (
        signed signature (some (next_id h.sha256_hex (cost_of b c) s.ledger)),
        signed_state h b c j sc s,
      ))

  sign_budgeted_of :
      (o : Option String)
      → lookup c.id s.reservations ≡ o
      → sign h (some c) s ≡ sign_budgeted h secret b c o s
  unfolding sign sign_with
  sign_budgeted_of o e = ground (arith, has_secret, has_budget, e)

  -- Where the cost of a challenge fits in the budget's job, and the challenge can be signed and has no
  -- reservation, `sign` signs it and books its amount.
  pub sign-Fits :
      (signature : String) (j : Job) (sc : Option Scope)
      → sign_challenge h.hmac secret c ≡ some signature
      → lookup c.id s.reservations ≡ none
      → Fits (cost_of b c) s.ledger j sc
      → sign h (some c) s ≡ (
        signed signature (some (next_id h.sha256_hex (cost_of b c) s.ledger)),
        signed_state h b c j sc s,
      )
  sign-Fits signature j sc e absent fits = sign_budgeted_of none absent ∙ sign_budgeted-Fits
    where
      booked : reserve h.sha256_hex (cost_of b c) s.ledger ≡ (
        Answer.ok
            (reserved_answer (cost_of b c) j sc (next_id h.sha256_hex (cost_of b c) s.ledger)),
        book (cost_of b c) j sc (next_id h.sha256_hex (cost_of b c) s.ledger) s.ledger,
      )
      booked = reserve-Fits h.sha256_hex (cost_of b c) s.ledger j sc refl fits

      sign_budgeted-Fits : sign_budgeted h secret b c none s ≡ (
        signed signature (some (next_id h.sha256_hex (cost_of b c) s.ledger)),
        signed_state h b c j sc s,
      )
      sign_budgeted-Fits = unfold sign_budgeted sign_reserved sign_now in ground (arith, e, booked)

-- A harness with an empty secret takes the cost of a challenge that fits and then throws: there is no
-- signature, and the amount stays booked.
pub sign-empty_secret :
    (h : Harness) (b : BudgetOf) (c : Challenge) (s : State) (j : Job) (sc : Option Scope)
    → h.secret ≡ some ""
    → h.budget ≡ some b
    → lookup c.id s.reservations ≡ none
    → Fits (cost_of b c) s.ledger j sc
    → sign h (some c) s ≡ (SignAnswer.threw, signed_state h b c j sc s)
unfolding sign_budgeted sign_reserved sign_now sign_challenge
sign-empty_secret h b c s j sc hs hb absent fits = ground (
  arith,
  sign_budgeted_of h "" b c s hs hb none absent,
  reserve-Fits h.sha256_hex (cost_of b c) s.ledger j sc refl fits,
)
