-- ===== src/X402/Sessions.antt =====
-- createX402Harness of packages/x402/index.mjs: the counters and the reservations that it keeps, on
-- the ledger that it is given. The detail texts, and the copies of the counters that its answers
-- carry, are left out.
use coreguard.Prelude.{
  ℕ, ◌+◌, String, Bool, true, false, not, ◌==◌, Option, none, some, List, [], if◌then◌else◌, pos,
  negsuc, ℤ, Dict, lookup, insert, erase, sub_ℕ, suc,
}
use coreguard.Budget.{
  Amount, Cost, CostSource, Ledger, Answer, Refusal, Reserved, reserve, commit, release,
}
use coreguard.X402.Quotes.{
  Quote, GateCode, PriceStatus, Gate, quote_for, Challenge, Request, sign_challenge,
  verify_challenge_signature, build_challenge,
}

pub data RunMode : Type 0 where
  dry_run live : RunMode

pub record BudgetOf : Type 0 where
  pub job_id : String
  pub scope_id : Option String

pub record SignedEnvelope : Type 0 where
  pub signature : Option String

-- What the injected settler does: it throws, or answers with or without a settlement id.
pub data Settlement : Type 0 where
  threw : Settlement
  answered : Option String → Settlement

-- The options of the harness, and the digest of `node:crypto`s of the ledger and of the signatures.
pub record Harness : Type 0 where
  pub sha256_hex : String → String
  pub hmac : String → List ℕ → String
  pub secret : Option String
  pub settler : Option (Challenge → Option SignedEnvelope → Settlement)
  pub mode : RunMode
  pub budget : Option BudgetOf

-- The guards of createX402Harness.
unfoldable pub is_accepted : Harness → Bool
is_accepted h = elim h.mode [
  | RunMode.dry_run ↦ true
  | RunMode.live ↦ elim h.settler [ none ↦ false | some f ↦ true ]
]

-- A sum of amounts: what is not an integer makes it not one.
pub data Total : Type 0 where
  sum : ℤ → Total
  not_integer : Total

unfoldable pub add_int : ℤ → ℤ → ℤ
add_int (pos m) (pos n) = pos (m + n)
add_int (pos m) (negsuc n) = sub_ℕ m (suc n)
add_int (negsuc m) (pos n) = sub_ℕ n (suc m)
add_int (negsuc m) (negsuc n) = negsuc (m + suc n)

unfoldable pub add_amount : Total → Amount → Total
add_amount (sum a) (Amount.integer i) = sum (add_int a i)
add_amount _ _ = not_integer

pub record Metrics : Type 0 where
  pub challenges : ℕ
  pub signed : ℕ
  pub settled : ℕ
  pub settled_cents : Total
  pub rejected : ℕ
  pub refused : ℕ

pub record State : Type 0 where
  pub metrics : Metrics
  pub reservations : Dict String
  pub ledger : Ledger

unfoldable pub fresh_state : Ledger → State
fresh_state l = record {
  metrics = record {
    challenges = 0;
    signed = 0;
    settled = 0;
    settled_cents = sum (pos 0);
    rejected = 0;
    refused = 0;
  };
  reservations = [];
  ledger = l;
}

abbrev pub count_challenge : State → State
count_challenge s = record s {
  metrics = record s.metrics { challenges = s.metrics.challenges + 1 };
}

abbrev pub count_signed : State → State
count_signed s = record s { metrics = record s.metrics { signed = s.metrics.signed + 1 } }

abbrev pub count_rejected : State → State
count_rejected s = record s { metrics = record s.metrics { rejected = s.metrics.rejected + 1 } }

abbrev pub count_refused : State → State
count_refused s = record s { metrics = record s.metrics { refused = s.metrics.refused + 1 } }

abbrev pub count_settled : Amount → State → State
count_settled amount s = record s {
  metrics = record s.metrics {
    settled = s.metrics.settled + 1;
    settled_cents = add_amount s.metrics.settled_cents amount;
  };
}

-- The answers of challengeFor.
pub data ChallengeAnswer : Type 0 where
  gated : Option GateCode → PriceStatus → ChallengeAnswer
  built : Challenge → PriceStatus → ChallengeAnswer
  threw : ChallengeAnswer

unfoldable pub challenge_of_gate : Harness → Request → ℕ → Gate → State → ChallengeAnswer × State
challenge_of_gate h r now g s = elim g.code [
  | some code ↦ (gated (some code) g.price_status, count_rejected s)
  | none ↦ elim g.amount_cents [
    | none ↦ (gated none g.price_status, count_rejected s)
    | some amount ↦ elim (build_challenge h.hmac r amount now) [
      | none ↦ (ChallengeAnswer.threw, s)
      | some c ↦ (built c g.price_status, count_challenge s)
    ]
  ]
]

-- challengeFor at the time `now`; it does not pass a payee on.
unfoldable pub challenge_for :
    Harness → Request → Option Quote → ℕ → State → ChallengeAnswer × State
unfolding challenge_of_gate
challenge_for h r q now s = challenge_of_gate h (record r { pay_to = none }) now (quote_for q) s

-- The answers of sign.
pub data SignAnswer : Type 0 where
  no_challenge no_signing_secret : SignAnswer
  already_reserved : String → SignAnswer
  refused : Refusal → SignAnswer
  signed : String → Option String → SignAnswer
  threw : SignAnswer

abbrev pub cost_of : BudgetOf → Challenge → Cost
cost_of b c = record {
  job_id = b.job_id;
  scope_id = b.scope_id;
  amount_cents = c.amount_cents;
  source = CostSource.settlement;
  reason = some c.id;
}

-- The last step of sign: the count, and then the signature, which may throw.
unfoldable pub sign_now : Harness → String → Challenge → Option String → State → SignAnswer × State
sign_now h secret c reservation s = elim (sign_challenge h.hmac secret c) [
  | none ↦ (SignAnswer.threw, count_signed s)
  | some signature ↦ (signed signature reservation, count_signed s)
]

-- sign, once the ledger has answered.
unfoldable pub sign_reserved :
    Harness → String → Challenge → Answer Reserved → State → SignAnswer × State
sign_reserved h secret c (Answer.ok r) s =
    sign_now h secret c (some r.reservation_id)
      (record s { reservations = insert c.id r.reservation_id s.reservations })
sign_reserved h secret c (Answer.refused e) s = (refused e, count_refused s)
sign_reserved h secret c (Answer.threw t) s = (SignAnswer.threw, s)

unfoldable pub sign_budgeted :
    Harness → String → BudgetOf → Challenge → Option String → State → SignAnswer × State
sign_budgeted h secret b c (some held) s = (already_reserved held, count_refused s)
sign_budgeted h secret b c none s =
    let (answer, l) = reserve h.sha256_hex (cost_of b c) s.ledger in
    sign_reserved h secret c answer (record s { ledger = l })

unfoldable pub sign_with :
    Harness → Option String → Option BudgetOf → Challenge → State → SignAnswer × State
sign_with h none b c s = (no_signing_secret, s)
sign_with h (some secret) none c s = sign_now h secret c none s
sign_with h (some secret) (some b) c s = sign_budgeted h secret b c (lookup c.id s.reservations) s

-- sign
unfoldable pub sign : Harness → Option Challenge → State → SignAnswer × State
sign h none s = (SignAnswer.no_challenge, s)
sign h (some c) s = sign_with h h.secret h.budget c s

pub data Closing : Type 0 where
  to_commit to_release : Closing

-- The reservation is forgotten where the ledger has closed it.
unfoldable pub forget_if_ok : {A : Type 0} → String → Answer A → State → State
forget_if_ok id (Answer.ok a) s = record s { reservations = erase id s.reservations }
forget_if_ok id (Answer.refused e) s = s
forget_if_ok id (Answer.threw t) s = s

unfoldable pub close_reservation : BudgetOf → String → String → Closing → State → State
close_reservation b id reservation to_commit s =
    let (answer, l) = commit b.job_id reservation s.ledger in
    forget_if_ok id answer (record s { ledger = l })
close_reservation b id reservation to_release s =
    let (answer, l) = release b.job_id reservation s.ledger in
    forget_if_ok id answer (record s { ledger = l })

unfoldable pub settle_found : BudgetOf → String → Option String → Closing → State → State
settle_found b id none action s = s
settle_found b id (some reservation) action s =
    if reservation == "" then s else close_reservation b id reservation action s

-- settleReservation
unfoldable pub settle_reservation : Option BudgetOf → Option Challenge → Closing → State → State
settle_reservation none c action s = s
settle_reservation (some b) none action s = s
settle_reservation (some b) (some c) action s =
    settle_found b c.id (lookup c.id s.reservations) action s

-- The answers of settle.
pub data SettleAnswer : Type 0 where
  not_performed no_challenge bad_envelope_signature settler_threw no_settlement_id threw :
      SettleAnswer
  settled_by : String → Amount → SettleAnswer

-- Whether the envelope's signature is checked and false; none where the check throws.
unfoldable pub is_forged : Harness → Challenge → Option SignedEnvelope → Option Bool
is_forged h c none = some false
is_forged h c (some e) = elim h.secret [
  | none ↦ some false
  | some secret ↦ elim (verify_challenge_signature h.hmac secret c e.signature) [
    | none ↦ none
    | some valid ↦ some (not valid)
  ]
]

abbrev pub ask :
    Option (Challenge → Option SignedEnvelope → Settlement)
    → Challenge
    → Option SignedEnvelope
    → Settlement
ask none c e = Settlement.threw
ask (some f) c e = f c e

unfoldable pub settle_answered : Harness → Challenge → Settlement → State → SettleAnswer × State
settle_answered h c Settlement.threw s =
    (settler_threw, settle_reservation h.budget (some c) to_release s)
settle_answered h c (answered none) s =
    (no_settlement_id, settle_reservation h.budget (some c) to_release s)
settle_answered h c (answered (some id)) s =
    if id == "" then (no_settlement_id, settle_reservation h.budget (some c) to_release s) else (
      settled_by id c.amount_cents,
      settle_reservation h.budget (some c) to_commit (count_settled c.amount_cents s),
    )

unfoldable pub settle_live :
    Harness → Challenge → Option SignedEnvelope → Option Bool → State → SettleAnswer × State
settle_live h c e none s = (SettleAnswer.threw, s)
settle_live h c e (some true) s =
    (bad_envelope_signature, settle_reservation h.budget (some c) to_release (count_rejected s))
settle_live h c e (some false) s = settle_answered h c (ask h.settler c e) s

unfoldable pub settle_in :
    RunMode → Harness → Option Challenge → Option SignedEnvelope → State → SettleAnswer × State
settle_in dry_run h c e s = (not_performed, settle_reservation h.budget c to_release s)
settle_in live h none e s = (SettleAnswer.no_challenge, s)
settle_in live h (some c) e s = settle_live h c e (is_forged h c e) s

-- settle
unfoldable pub settle :
    Harness → Option Challenge → Option SignedEnvelope → State → SettleAnswer × State
settle h c e s = settle_in h.mode h c e s
