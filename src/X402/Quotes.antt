-- ===== src/X402/Quotes.antt =====
-- Quotes, challenges and their signatures of packages/x402/index.mjs. `hmac` is the hexadecimal
-- HMAC-SHA256 of `node:crypto`, under a key, of a text; it and the clock are parameters.
use coreguard.Prelude.{
  ℕ, ◌+◌, String, Bool, true, false, not, ◌||◌, ◌==◌, Option, none, some, List, if◌then◌else◌, pos,
  codes,
}
use coreguard.Budget.{Amount, is_positive_int, cents}
use coreguard.Canonical.{Json, Fields, Number, canonicalize}

-- The fields of a quote, with the price as a JavaScript number.
pub record Quote : Type 0 where
  pub amount_cents : Amount
  pub currency : Option String
  pub locked_by_owner : Bool
  pub provenance : Option String

pub data GateCode : Type 0 where
  no_quote invalid_amount price_not_locked : GateCode

pub data PriceStatus : Type 0 where
  unknown hypothesis locked : PriceStatus

-- The answer of quoteFor: CHALLENGE_BUILT where it has no code, and GATED otherwise.
pub record Gate : Type 0 where
  pub code : Option GateCode
  pub price_status : PriceStatus
  pub amount_cents : Option Amount
  pub currency : Option String
  pub provenance : Option String

abbrev pub or_this : Option String → String → String
or_this none s = s
or_this (some t) s = t

unfoldable pub quote_for : Option Quote → Gate
quote_for none = record {
  code = some GateCode.no_quote;
  price_status = PriceStatus.unknown;
  amount_cents = none;
  currency = none;
  provenance = none;
}
quote_for (some q) =
    if not (is_positive_int q.amount_cents)
    then record {
      code = some GateCode.invalid_amount;
      price_status = PriceStatus.unknown;
      amount_cents = none;
      currency = none;
      provenance = none;
    }
    else record {
      code = if q.locked_by_owner then none else some GateCode.price_not_locked;
      price_status = if q.locked_by_owner then PriceStatus.locked else PriceStatus.hypothesis;
      amount_cents = some q.amount_cents;
      currency = some (or_this q.currency "USDC");
      provenance = some (or_this q.provenance "UNSPECIFIED");
    }

-- A challenge: its id, its amount, and its other fields, which no operation reads.
pub record Challenge : Type 0 where
  pub id : String
  pub amount_cents : Amount
  pub others : Fields

abbrev pub json_text : String → Json
json_text s = Json.text (codes s)

-- An amount that is no integer stands for a fraction, on which canonicalize throws.
abbrev pub json_number : Amount → Json
json_number (Amount.integer i) = Json.number (Number.integer i)
json_number Amount.not_integer = Json.number Number.fraction

abbrev pub text_or_null : Option String → Json
text_or_null none = Json.null
text_or_null (some s) = json_text s

-- The challenge before it has an id, and with it.
unfoldable pub body_json : Amount → Fields → Json
body_json amount others =
    Json.object (Fields.field (codes "amountCents") (json_number amount) others)

unfoldable pub challenge_json : Challenge → Json
challenge_json c = Json.object (
    Fields.field (codes "id") (json_text c.id)
      (Fields.field (codes "amountCents") (json_number c.amount_cents) c.others))

-- The arguments of buildChallenge beside the amount and the time.
pub record Request : Type 0 where
  pub resource : Option String
  pub reason : Option String
  pub pay_to : Option String
  pub expires_in_seconds : Option Amount

abbrev pub lifetime : Option Amount → Amount
lifetime none = Amount.integer (pos 300)
lifetime (some n) = n

abbrev pub is_missing : Option String → Bool
is_missing none = true
is_missing (some s) = s == ""

unfoldable pub fields_of : Request → ℕ → Fields
fields_of r expires_at = Fields.field (codes "x402Version") (json_text "X402/1") (
    Fields.field (codes "scheme") (json_text "exact") (
      Fields.field (codes "network") (json_text "core-testnet2") (
        Fields.field (codes "asset") (json_text "USDC") (
          Fields.field (codes "resource") (text_or_null r.resource) (
            Fields.field (codes "reason") (json_text (or_this r.reason "coreguard-verification")) (
              Fields.field (codes "payTo") (text_or_null r.pay_to) (
                Fields.field (codes "expiresAt") (Json.number (Number.integer (pos expires_at)))
                  Fields.end)))))))

module _ (hmac : String → List ℕ → String) where
  -- challengeId: none where canonicalize throws.
  unfoldable pub challenge_id : Json → Option String
  challenge_id body = elim (canonicalize body) [
    | none ↦ none
    | some t ↦ some (hmac "X402/1:CHALLENGE" t)
  ]

  -- signChallenge: none where it throws, for an empty secret or in canonicalize.
  unfoldable pub sign_challenge : String → Challenge → Option String
  sign_challenge secret c =
      if secret == ""
      then none
      else elim (canonicalize (challenge_json c)) [ none ↦ none | some t ↦ some (hmac secret t) ]

  -- verifyChallengeSignature: none where signChallenge throws.
  unfoldable pub verify_challenge_signature : String → Challenge → Option String → Option Bool
  verify_challenge_signature secret c signature =
      if is_missing signature then some false else elim (sign_challenge secret c) [
        | none ↦ none
        | some expected ↦ some (or_this signature "" == expected)
      ]

  -- buildChallenge at the time `now`, in seconds: none where it throws.
  unfoldable pub build_challenge : Request → Amount → ℕ → Option Challenge
  build_challenge r amount now =
      let others = fields_of r (now + cents (lifetime r.expires_in_seconds)) in
      if is_missing r.resource
        || not (is_positive_int amount)
        || not (is_positive_int (lifetime r.expires_in_seconds))
      then none
      else elim (challenge_id (body_json amount others)) [
        | none ↦ none
        | some id ↦ some (record { id = id; amount_cents = amount; others = others })
      ]
