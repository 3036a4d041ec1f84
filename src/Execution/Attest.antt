-- ===== src/Execution/Attest.antt =====
-- buildExecutionAttestation, commitmentOf and verifyExecutionAttestation of
-- packages/execution/index.js. A text that is missing is none.
use coreguard.Prelude.{
  List, [], ◌∷◌, Bool, false, ◌&&◌, Option, none, some, if◌then◌else◌, map, lower, codes,
  same_codes,
}
use coreguard.Canonical.{Json, Items, Fields, domain_hash}
use coreguard.Execution.Items.{Text, or_else_text, is_truthy}

-- The name and the result of a check, as texts.
pub record CheckText : Type 0 where
  pub check : Text
  pub result : Text

pub record Summary : Type 0 where
  pub status : Text
  pub label : Text
  pub checks : List CheckText

-- The arguments of buildExecutionAttestation.
pub record AttestationInput : Type 0 where
  pub chain_id : Option Text
  pub intent_ref : Option Text
  pub manifest_id : Option Text
  pub binding_ref : Option Text
  pub decision_ref : Option Text
  pub execution_evidence_ref : Option Text
  pub evidence_hash : Option Text
  pub receipt_id : Option Text
  pub verification : Option Summary
  pub conformance_path : Option Text
  pub at_time : Option Text
  pub verifier : Option Text

abbrev pub text_or_undefined : Option Text → Json
text_or_undefined none = Json.undefined
text_or_undefined (some s) = Json.text s

abbrev pub text_or_nil : Option Text → Json
text_or_nil none = Json.null
text_or_nil (some s) = Json.text s

-- `s || null`
abbrev pub truthy_or_null : Option Text → Json
truthy_or_null s = if is_truthy s then text_or_nil s else Json.null

abbrev pub text_or_given : Option Text → Text → Text
text_or_given none b = b
text_or_given (some a) b = a

unfoldable pub check_items : List CheckText → Items
check_items [] = Items.nil
check_items (c ∷ cs) =
    Items.item
      (Json.object (
        Fields.field (codes "check") (Json.text c.check)
          (Fields.field (codes "result") (Json.text c.result) Fields.end)))
      (check_items cs)

unfoldable pub summary_json : Option Summary → Json
summary_json none = Json.null
summary_json (some v) = Json.object (
    Fields.field (codes "status") (Json.text v.status) (
      Fields.field (codes "label") (Json.text v.label)
        (Fields.field (codes "checks") (Json.array (check_items v.checks)) Fields.end)))

-- The body of the record, in the order of the source.
unfoldable pub attestation_body : AttestationInput → Fields
attestation_body a =
    Fields.field (codes "version") (Json.text (codes "CGEP/1:EXECUTION-ATTESTATION/1")) (
      Fields.field (codes "kind") (Json.text (codes "EXECUTION_ATTESTATION")) (
        Fields.field (codes "chainId") (Json.text (text_or_given a.chain_id [])) (
          Fields.field (codes "intentRef") (text_or_undefined a.intent_ref) (
            Fields.field (codes "manifestId") (text_or_undefined a.manifest_id) (
              Fields.field (codes "bindingRef") (text_or_undefined a.binding_ref) (
                Fields.field (codes "decisionRef") (truthy_or_null a.decision_ref) (
                  Fields.field (codes "executionEvidenceRef")
                    (text_or_undefined a.execution_evidence_ref)
                    (Fields.field (codes "evidenceHash") (text_or_nil a.evidence_hash) (
                      Fields.field (codes "receiptId") (text_or_nil a.receipt_id) (
                        Fields.field (codes "verification") (summary_json a.verification) (
                          Fields.field (codes "conformancePath")
                            (Json.text (or_else_text a.conformance_path (codes "RECEIPT_LEVEL")))
                            (Fields.field (codes "at")
                              (Json.text (text_or_given a.at_time (codes "0")))
                              (Fields.field (codes "verifier")
                                (Json.text (text_or_given a.verifier (codes "coreguard-ws4")))
                                Fields.end)))))))))))))

-- A record: its kind and its reference, where they are there, and its body without the reference.
pub record Attestation : Type 0 where
  pub kind : Option Text
  pub body : Json
  pub attestation_ref : Option Text

abbrev pub attestation_kind : Text
attestation_kind = codes "EXECUTION_ATTESTATION"

abbrev pub attestation_domain : Text
attestation_domain = codes "CGEP/1:EXECUTION-ATTESTATION"

pub data AttestationLabel : Type 0 where
  record_invalid not_canonical tampered intact : AttestationLabel

-- commitmentOf
unfoldable pub commitment_of : Option Attestation → Option Text
commitment_of none = none
commitment_of (some r) = if is_truthy r.attestation_ref then r.attestation_ref else none

module _ (sha256_hex : Text → Text) where
  -- buildExecutionAttestation: none where it throws. The digest is taken of what `JSON.parse` reads
  -- from the canonical text of the body, which has the same canonical text.
  unfoldable pub build_execution_attestation : AttestationInput → Option Attestation
  build_execution_attestation a =
      elim (domain_hash sha256_hex attestation_domain (Json.object (attestation_body a))) [
        | none ↦ none
        | some ref ↦ some (record {
          kind = some attestation_kind;
          body = Json.object (attestation_body a);
          attestation_ref = some ref;
        })
      ]

  unfoldable pub compare_ref : Text → Option Text → AttestationLabel
  compare_ref declared none = AttestationLabel.not_canonical
  compare_ref declared (some recomputed) =
      if same_codes (map lower recomputed) (map lower declared)
      then AttestationLabel.intact
      else AttestationLabel.tampered

  abbrev pub is_attestation : Option Text → Bool
  is_attestation none = false
  is_attestation (some k) = same_codes k attestation_kind

  -- verifyExecutionAttestation
  unfoldable pub verify_execution_attestation : Option Attestation → AttestationLabel
  verify_execution_attestation none = AttestationLabel.record_invalid
  verify_execution_attestation (some r) = elim r.attestation_ref [
    | none ↦ AttestationLabel.record_invalid
    | some declared ↦
        if is_attestation r.kind && is_truthy (some declared)
        then compare_ref declared (domain_hash sha256_hex attestation_domain r.body)
        else AttestationLabel.record_invalid
  ]
