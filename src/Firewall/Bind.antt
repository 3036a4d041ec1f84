-- ===== src/Firewall/Bind.antt =====
-- evaluateDeclarationBinding of packages/firewall/binding.js. Canonical text and hashes are
-- parameters; the error texts are left out, and only whether there is one is kept.
use coreguard.Prelude.{
  ℕ, ◌∷◌, [], String, Bool, true, false, not, ◌&&◌, ◌||◌, ◌==◌, Option, none, some, List, all,
  if◌then◌else◌, nat_beq, codes, is_hex, is_hex_after_0x, same_text, is_lower_of, digit_value,
}
use coreguard.Firewall.Simulate.{Intent, or_empty}

pub record SignerBinding : Type 0 where
  pub kind : Option String
  pub address : Option String

pub record Signature : Type 0 where
  pub signer : Option String
  pub scheme : Option String
  pub r : Option String
  pub s : Option String
  pub v : Option ℕ
  pub bytes : Option String

pub record Declaration : Type 0 where
  pub version : Option String
  pub kind : Option String
  pub chain_id : Option String
  pub nonce : Option String
  pub signer_binding : SignerBinding
  pub intent : Option Intent
  pub manifest_id : Option String
  pub signature : Option Signature

pub data Status : Type 0 where
  ok not_run not_proven : Status

pub record Binding : Type 0 where
  pub status : Status
  pub intent_ref : Option String
  pub manifest_id : Option String
  pub binding_ref : Option String
  pub chain_id : String

-- What packages/canonical computes. `declaration_id` gives none on a declaration without canonical
-- text.
pub record Hashes : Type 0 where
  pub canonicalize : Intent → String
  pub hash_intent : Intent → String
  pub declaration_id : Declaration → Option String
  pub binding_ref : String → Option String → Option Signature → String

-- ADDRESS_RE and HEX64_RE
unfoldable pub is_address : String → Bool
is_address s = is_hex_after_0x 40 (codes s)

unfoldable pub is_hex64 : String → Bool
is_hex64 s = is_hex 64 (codes s)

-- `/^[0]+$/`
unfoldable pub is_zeros : String → Bool
is_zeros s = not (s == "") && all (λ (c : ℕ). nat_beq c b'0') (codes s)

abbrev pub is_recovery_id : Option ℕ → Bool
is_recovery_id none = false
is_recovery_id (some v) = nat_beq v 27 || nat_beq v 28

abbrev is_hex_digit : ℕ → Bool
is_hex_digit c = elim (digit_value c) [ none ↦ false | some d ↦ true ]

unfoldable pub is_hex_pairs : List ℕ → Bool
is_hex_pairs [] = true
is_hex_pairs (a ∷ []) = false
is_hex_pairs (a ∷ b ∷ cs) = is_hex_digit a && is_hex_digit b && is_hex_pairs cs

-- `/^0x(?:[0-9a-fA-F]{2})*$/`
unfoldable pub is_hex_bytes : String → Bool
is_hex_bytes s = elim (codes s) [
  | [] ↦ false
  | a ∷ rest ↦ elim rest [
    | [] ↦ false
    | b ∷ cs ↦ nat_beq a b'0' && nat_beq b b'x' && is_hex_pairs cs
  ]
]

abbrev pub is_text : String → Option String → Bool
is_text t none = false
is_text t (some s) = s == t

unfoldable pub is_contract : SignerBinding → Bool
is_contract b = is_text "EIP1271" b.kind

unfoldable pub is_eip712 : Signature → Bool
is_eip712 g =
    is_hex64 (or_empty g.r)
    && is_hex64 (or_empty g.s)
    && not (is_zeros (or_empty g.r))
    && not (is_zeros (or_empty g.s))
    && is_recovery_id g.v

abbrev pub is_bytes : Option String → Bool
is_bytes none = false
is_bytes (some b) = is_hex_bytes b

-- signatureEnvelopeOk
unfoldable pub signature_envelope_ok : Option Signature → Bool → Bool
signature_envelope_ok none contract = false
signature_envelope_ok (some g) contract =
    if not (is_address (or_empty g.signer))
    then false
    else if is_text "EIP-712" g.scheme
    then not contract && is_eip712 g
    else if is_text "EIP-1271" g.scheme
    then contract && is_bytes g.bytes
    else false

unfoldable pub same_intent : (Intent → String) → Option Intent → Intent → Bool
same_intent canonicalize none intent = false
same_intent canonicalize (some declared) intent = canonicalize declared == canonicalize intent

-- The declared id in lower case is the one that is computed again.
unfoldable pub same_manifest : Option String → Option String → Bool
same_manifest declared none = false
same_manifest declared (some id) = id == "" || is_lower_of id (or_empty declared)

-- None of the errors that the function collects.
unfoldable pub is_bound : Hashes → Intent → Declaration → Bool
is_bound h intent d =
    same_intent h.canonicalize d.intent intent
    && (or_empty d.chain_id == or_empty intent.chain_id)
    && (or_empty d.nonce == or_empty intent.nonce)
    && is_address (or_empty d.signer_binding.address)
    && same_text (or_empty d.signer_binding.address) (or_empty intent.signer)
    && signature_envelope_ok d.signature (is_contract d.signer_binding)
    && same_manifest d.manifest_id (h.declaration_id d)

abbrev pub unbound : Status → Binding
unbound status = record {
  status = status;
  intent_ref = none;
  manifest_id = none;
  binding_ref = none;
  chain_id = "";
}

unfoldable pub evaluate_declaration_binding : Hashes → Option Intent → Option Declaration → Binding
evaluate_declaration_binding h none declaration = unbound Status.not_run
evaluate_declaration_binding h (some intent) none = unbound Status.not_run
evaluate_declaration_binding h (some intent) (some d) =
    if not (is_text "CGEP/1" d.version && is_text "INTENT_DECLARATION" d.kind)
    then unbound Status.not_proven
    else record {
      status = if is_bound h intent d then Status.ok else Status.not_proven;
      intent_ref = some (h.hash_intent intent);
      manifest_id = h.declaration_id d;
      binding_ref = some (h.binding_ref (h.hash_intent intent) (h.declaration_id d) d.signature);
      chain_id = or_empty intent.chain_id;
    }
