-- ===== src/X402/Payments.antt =====
-- sign and then settle of packages/x402/index.mjs, as one payment; and a settlement that was never
-- signed.
use text.Mathlib.TextLemmas.{append-eq-nil_iff}
use coreguard.Prelude.{
  ℕ, ◌+◌, String, ◌≡◌, ◌≢◌, refl, ap, true, false, Option, none, some, arith, lookup, ◌∙◌,
  lookup-insert_self, ==-of_ne, Bool,
}
use coreguard.Budget.{
  Job, Scope, Ledger, cents, new_reservation, charged_job, spent_job, freed_job, spent_scope,
  freed_scope, ReservationState, Cost, reservation_id,
}
use coreguard.Budget.Outcomes.{Fits, next_id}
use coreguard.Budget.Endings.{IsOpen}
use coreguard.Budget.Reservations.{booked_job, book-IsOpen, close-job}
use coreguard.X402.Quotes.{Challenge, sign_challenge, verify_challenge_signature}
use coreguard.X402.Sessions.{
  Harness, BudgetOf, State, RunMode, SignedEnvelope, Settlement, answered, SettleAnswer, settled_by,
  sign, settle, settle_in, settle_live, settle_answered, settle_reservation, settle_found, Closing,
  to_commit, is_forged, ask, cost_of, count_settled,
}
use coreguard.X402.Signing.{signed_state, sign-Fits}
use coreguard.X402.Settling.{committed_ledger, released_ledger, settle-Closed, Closed}

-- What the job has reserved and committed, beside what it had: the amount is committed where the
-- settlement is done, and nothing has changed where it is not.
abbrev pub CountsTo : String → Ledger → ℕ → ℕ → Type 0
CountsTo job_id l reserved committed =
    (k : Job) × (lookup job_id l.jobs ≡ some k)
    × (k.reserved_cents ≡ reserved)
    × (k.committed_cents ≡ committed)

abbrev pub Paid : String → Job → ℕ → SettleAnswer × State → Type 0
Paid job_id j amount (settled_by settlement_id a, s') =
    CountsTo job_id s'.ledger j.reserved_cents (j.committed_cents + amount)
Paid job_id j amount (SettleAnswer.threw, s') = ⊥
Paid job_id j amount (_, s') = CountsTo job_id s'.ledger j.reserved_cents j.committed_cents

module _ (c : Challenge) (b : BudgetOf) (j : Job) (id : String) (l l' : Ledger) where
  committed_counts :
      l'
        ≡ committed_ledger b.job_id id
            (new_reservation (cost_of b c) id)
            (booked_job (cost_of b c) j id)
            l
      → CountsTo b.job_id l' j.reserved_cents (j.committed_cents + cents c.amount_cents)
  unfolding spent_job charged_job new_reservation
  committed_counts e = (
    spent_job (booked_job (cost_of b c) j id) (new_reservation (cost_of b c) id).amount_cents,
    rw e (
        close-job b.job_id id (new_reservation (cost_of b c) id) spent_job spent_scope
          ReservationState.committed (booked_job (cost_of b c) j id) l),
    omega arith,
    omega arith,
  )

  released_counts :
      l'
        ≡ released_ledger b.job_id id
            (new_reservation (cost_of b c) id)
            (booked_job (cost_of b c) j id)
            l
      → CountsTo b.job_id l' j.reserved_cents j.committed_cents
  unfolding freed_job charged_job new_reservation
  released_counts e = (
    freed_job (booked_job (cost_of b c) j id) (new_reservation (cost_of b c) id).amount_cents,
    rw e (
        close-job b.job_id id (new_reservation (cost_of b c) id) freed_job freed_scope
          ReservationState.released (booked_job (cost_of b c) j id) l),
    omega arith,
    refl,
  )

-- The id of a reservation is not empty: it starts with `res_`.
next_id-ne : (sha256_hex : String → String) (c : Cost) (l : Ledger) → next_id sha256_hex c l ≢ ""
unfolding reservation_id
next_id-ne sha256_hex c l e =
    let prefix : ◌≡◌ {A = String} "res_" "" = (append-eq-nil_iff.0 e).0 in cc prefix

module _ (h : Harness) (secret signature : String) (b : BudgetOf) (c : Challenge) (s : State)
    (j : Job) (sc : Option Scope) (has_secret : h.secret ≡ some secret)
    (has_budget : h.budget ≡ some b) (signs : sign_challenge h.hmac secret c ≡ some signature)
    (absent : lookup c.id s.reservations ≡ none) (fits : Fits (cost_of b c) s.ledger j sc) where
  abbrev reservation : String
  reservation = next_id h.sha256_hex (cost_of b c) s.ledger

  abbrev signed_after : State
  signed_after = signed_state h b c j sc s

  held : lookup c.id signed_after.reservations ≡ some reservation
  held = lookup-insert_self c.id reservation s.reservations

  opened :
      IsOpen b.job_id reservation signed_after.ledger
        (booked_job (cost_of b c) j reservation)
        (new_reservation (cost_of b c) reservation)
  opened = book-IsOpen (cost_of b c) s.ledger j sc reservation

  abbrev Ended : SettleAnswer × State → Type 0
  Ended =
      Closed h b c reservation (booked_job (cost_of b c) j reservation)
        (new_reservation (cost_of b c) reservation) signed_after has_budget held
        (next_id-ne h.sha256_hex (cost_of b c) s.ledger) opened

  Ended-Paid :
      (r : SettleAnswer × State)
      → r.0 ≢ SettleAnswer.threw
      → Ended r
      → Paid b.job_id j (cents c.amount_cents) r
  Ended-Paid (settled_by settlement_id a, s') n k =
      committed_counts c b j reservation signed_after.ledger s'.ledger k.0
  Ended-Paid (SettleAnswer.threw, s') n k = absurd (n refl)
  Ended-Paid (SettleAnswer.not_performed, s') n k =
      released_counts c b j reservation signed_after.ledger s'.ledger k.0
  Ended-Paid (SettleAnswer.no_challenge, s') n k =
      released_counts c b j reservation signed_after.ledger s'.ledger k.0
  Ended-Paid (SettleAnswer.bad_envelope_signature, s') n k =
      released_counts c b j reservation signed_after.ledger s'.ledger k.0
  Ended-Paid (SettleAnswer.settler_threw, s') n k =
      released_counts c b j reservation signed_after.ledger s'.ledger k.0
  Ended-Paid (SettleAnswer.no_settlement_id, s') n k =
      released_counts c b j reservation signed_after.ledger s'.ledger k.0

  is_forged-ne : (e : Option SignedEnvelope) → is_forged h c e ≢ none
  unfolding is_forged verify_challenge_signature
  is_forged-ne none x = cc
  is_forged-ne (some e) x = ground (arith, has_secret, signs)

  settle_answered-ne :
      (a : Settlement) (s' : State) → (settle_answered h c a s').0 ≢ SettleAnswer.threw
  unfolding settle_answered
  settle_answered-ne Settlement.threw s' x = cc
  settle_answered-ne (answered none) s' x = cc
  settle_answered-ne (answered (some settlement_id)) s' x = ground arith

  settle_live-ne :
      (e : Option SignedEnvelope) (forged : Option Bool) (s' : State)
      → forged ≢ none
      → (settle_live h c e forged s').0 ≢ SettleAnswer.threw
  unfolding settle_live
  settle_live-ne e none s' n x = n refl
  settle_live-ne e (some true) s' n x = cc
  settle_live-ne e (some false) s' n x = settle_answered-ne (ask h.settler c e) s' x

  settle_in-ne :
      (m : RunMode) (e : Option SignedEnvelope) (s' : State)
      → (settle_in m h (some c) e s').0 ≢ SettleAnswer.threw
  unfolding settle_in
  settle_in-ne RunMode.dry_run e s' x = cc
  settle_in-ne RunMode.live e s' x = settle_live-ne e (is_forged h c e) s' (is_forged-ne e) x

  -- A challenge that is signed within the budget and then settled: where the settlement is done, the
  -- job has committed the challenge's amount and reserves what it did before; with any other answer it
  -- has reserved and committed what it did before it was signed. The settlement throws in no case.
  pub settle-sign :
      (e : Option SignedEnvelope)
      → Paid b.job_id j (cents c.amount_cents) (settle h (some c) e (sign h (some c) s).1)
  unfolding settle
  settle-sign e =
      rw (sign-Fits h secret b c s has_secret has_budget signature j sc signs absent fits) (
        Ended-Paid (settle h (some c) e signed_after) (settle_in-ne h.mode e signed_after) (
          settle-Closed h b c reservation (booked_job (cost_of b c) j reservation)
            (new_reservation (cost_of b c) reservation) signed_after has_budget held
            (next_id-ne h.sha256_hex (cost_of b c) s.ledger) opened e))

settle_reservation-absent :
    (o : Option BudgetOf) (c : Challenge) (action : Closing) (s : State)
    → lookup c.id s.reservations ≡ none
    → settle_reservation o (some c) action s ≡ s
unfolding settle_reservation settle_found
settle_reservation-absent none c action s absent = refl
settle_reservation-absent (some b) c action s absent = ground (arith, absent)

settle_answered-id :
    (h : Harness) (c : Challenge) (s : State) (settlement_id : String)
    → lookup c.id s.reservations ≡ none
    → settlement_id ≢ ""
    → settle_answered h c (answered (some settlement_id)) s
      ≡ (settled_by settlement_id c.amount_cents, count_settled c.amount_cents s)
unfolding settle_answered
settle_answered-id h c s settlement_id absent n = rw (
  ==-of_ne settlement_id "" n,
  settle_reservation-absent h.budget c to_commit (count_settled c.amount_cents s) absent,
)

settle_in_live :
    (h : Harness) (c : Challenge) (s : State)
    → h.mode ≡ RunMode.live
    → settle h (some c) none s ≡ settle_answered h c (ask h.settler c none) s
unfolding settle settle_in settle_live is_forged
settle_in_live h c s m = ap (λ (mode : RunMode). settle_in mode h (some c) none s) m

-- A live harness settles a challenge that was never signed: with no envelope, and a settler that names
-- a settlement, the answer is SETTLED for the whole amount, and neither the ledger nor the
-- reservations have changed, whatever the budget is.
pub settle_unsigned :
    (h : Harness) (c : Challenge) (s : State) (settlement_id : String)
    → h.mode ≡ RunMode.live
    → lookup c.id s.reservations ≡ none
    → ask h.settler c none ≡ answered (some settlement_id)
    → settlement_id ≢ ""
    → settle h (some c) none s
      ≡ (settled_by settlement_id c.amount_cents, count_settled c.amount_cents s)
settle_unsigned h c s settlement_id m absent a n =
    settle_in_live h c s m
    ∙ ap (λ (r : Settlement). settle_answered h c r s) a
    ∙ settle_answered-id h c s settlement_id absent n
