-- ===== src/Recovery/Engine.antt =====
-- createRecoveryRun and runRecovery of packages/recovery/index.js. Reasons of a verdict, and fields of an
-- entry that nothing reads, are left out.
use Prim.Native.String
use coreguard.Prelude.{
  ℕ, ◌∷◌, [], String, Bool, true, false, not, ◌&&◌, ◌||◌, ◌==◌, Option, none, some, List, any, all,
  map, length, ltb, if◌then◌else◌, nat_beq, lower, codes,
}
use coreguard.Recovery.Entries.{
  TerminalState, verified, not_proven, contradicted, inconclusive, status_one, status_zero,
  SendIntent, SendResult, ReceiptRead, Verdict, Event, send_intent, send_result, receipt_read,
  reconstruction, verdict, Entry, Journal, tx_hash_required, tx_hash_divergence, verdict_conflict,
  found_tx_hash_required, Result, ok, threw, push, intents, sends, reads, reconstructions, verdicts,
  first,
}

pub record Expected : Type 0 where
  pub name : String
  pub topic0 : String

-- What createRecoveryRun closes over, beside the journal.
pub record Run : Type 0 where
  pub calldata : String
  pub evidence_hash_pre : String
  pub expected : List Expected
  pub min_providers : ℕ

-- The hashes, and the time of each entry.
pub record Host : Type 0 where
  pub sha256_hex : String → String
  pub entry_digest : Entry → String
  pub now : ℕ → String

abbrev pub Action : Type 0 → Type 0
Action A = Journal → Result A × Journal

abbrev pub write : Host → Event → Action Entry
write h event j = push h.entry_digest (h.now (length j.entries)) event j

abbrev pub continue : {A B : Type 0} → Result A → (A → Action B) → Action B
continue (ok a) k j = k a j
continue (threw x) k j = (threw x, j)

infixl 5 ◌>>=◌
abbrev pub ◌>>=◌ : {A B : Type 0} → Action A → (A → Action B) → Action B
◌>>=◌ m k j = continue (m j).0 k (m j).1

unfoldable pub starts : List ℕ → List ℕ → Bool
starts [] s = true
starts (c ∷ cs) [] = false
starts (c ∷ cs) (d ∷ ds) = nat_beq c d && starts cs ds

-- `s.includes(part)`
unfoldable pub has_part : List ℕ → List ℕ → Bool
has_part part [] = starts part []
has_part part (c ∷ cs) = starts part (c ∷ cs) || has_part part cs

-- `s.substring(2)`
abbrev pub substring_2 : List ℕ → List ℕ
substring_2 (a ∷ b ∷ cs) = cs
substring_2 _ = []

abbrev pub lower_codes : String → List ℕ
lower_codes s = map lower (codes s)

unfoldable pub topic_matches : String → String → Bool
topic_matches want t =
    has_part (substring_2 (lower_codes want)) (lower_codes t)
    || has_part (substring_2 (lower_codes t)) (lower_codes want)

-- expectedEventPresent. The entries that are written hold no `resolvedTopics`, so that the topic
-- looked for is that of the expected list.
unfoldable pub expected_event_present : List Expected → List String → Bool
expected_event_present expected topics =
    all (λ (want : Expected). any (λ (t : String). topic_matches want.topic0 t) topics) expected

unfoldable pub names_of : List Expected → List String
names_of [] = []
names_of (e ∷ es) = e.name ∷ names_of es

abbrev pub intent_of : Host → Run → Event
intent_of h run = send_intent (record {
  calldata_hash = h.sha256_hex run.calldata;
  evidence_hash_pre = run.evidence_hash_pre;
  expected_events = names_of run.expected;
})

unfoldable pub declare_unless : Host → Run → List SendIntent → Action String
declare_unless h run (s ∷ rest) j = (ok (h.sha256_hex run.calldata), j)
declare_unless h run [] j =
    (write h (intent_of h run) >>= λ e l. (ok (h.sha256_hex run.calldata), l)) j

unfoldable pub declare_send_intent : Host → Run → Action String
declare_send_intent h run j = declare_unless h run (intents j.entries) j

unfoldable pub send_unless : Host → String → String → List (Entry × SendResult) → Action Entry
send_unless h tx_hash provider ((e, s) ∷ rest) j =
    if s.tx_hash == tx_hash then (ok e, j) else (threw tx_hash_divergence, j)
send_unless h tx_hash provider [] j =
    write h (send_result (record { tx_hash = tx_hash; provider = provider })) j

unfoldable pub record_send_result : Host → String → String → Action Entry
record_send_result h tx_hash provider j =
    if tx_hash == ""
    then (threw tx_hash_required, j)
    else send_unless h tx_hash provider (sends j.entries) j

unfoldable pub record_receipt_read : Host → ReceiptRead → Action Entry
record_receipt_read h read j = write h (receipt_read read) j

unfoldable pub mark_reconstruction : Host → String → Action Entry
mark_reconstruction h found_tx_hash j =
    if found_tx_hash == ""
    then (threw found_tx_hash_required, j)
    else elim (reconstructions j.entries) [
      | e ∷ rest ↦ (ok e, j)
      | [] ↦ write h (reconstruction found_tx_hash) j
    ]

abbrev pub is_one : ReceiptRead → Bool
is_one r = elim r.status [ status_one ↦ true | _ ↦ false ]

abbrev pub is_zero : ReceiptRead → Bool
is_zero r = elim r.status [ status_zero ↦ true | _ ↦ false ]

unfoldable pub successes : List ReceiptRead → List ReceiptRead
successes [] = []
successes (r ∷ rs) = if is_one r then r ∷ successes rs else successes rs

abbrev pub is_clean : ReceiptRead → Bool
is_clean r = elim r.error [ none ↦ true | some e ↦ e == "" ]

-- `${blockNumber}|${logsHash}`
unfoldable pub receipt_key : ReceiptRead → String
receipt_key r = String.◌++◌ r.block_number (String.◌++◌ "|" r.logs_hash)

-- `new Set(keys).size === 1`
unfoldable pub one_key : List ReceiptRead → Bool
one_key [] = false
one_key (r ∷ rs) = all (λ (s : ReceiptRead). receipt_key s == receipt_key r) rs

unfoldable pub receipts_agree : List ReceiptRead → Bool
receipts_agree rs = all is_clean rs && one_key (successes rs)

-- `intent.calldataHash && intent.calldataHash !== calldataHashNow`
unfoldable pub is_broken : Option SendIntent → String → Bool
is_broken none now = false
is_broken (some s) now = not (s.calldata_hash == "") && not (s.calldata_hash == now)

abbrev pub or_null : Option String → Option String
or_null none = none
or_null (some t) = if t == "" then none else some t

unfoldable pub tx_hash_of : List (Entry × SendResult) → Option String → Option String
tx_hash_of [] intended = or_null intended
tx_hash_of ((e, s) ∷ rest) intended = if s.tx_hash == "" then or_null intended else some s.tx_hash

-- The state that resolveVerdict reaches once a transaction is known.
unfoldable pub state_on : Run → String → Option SendIntent → List ReceiptRead → TerminalState
state_on run now intent rs =
    if is_broken intent now
    then contradicted
    else if any is_zero rs
    then contradicted
    else if not (any is_one rs)
    then not_proven
    else if ltb (length rs) run.min_providers
    then inconclusive
    else if not
        (all (λ (r : ReceiptRead). expected_event_present run.expected r.log_topics) (successes rs))
    then contradicted
    else if not (receipts_agree rs)
    then contradicted
    else verified

abbrev pub same_state : TerminalState → TerminalState → Bool
same_state TerminalState.authorized TerminalState.authorized = true
same_state TerminalState.executed TerminalState.executed = true
same_state verified verified = true
same_state not_proven not_proven = true
same_state contradicted contradicted = true
same_state inconclusive inconclusive = true
same_state _ _ = false

unfoldable pub verdict_unless : Host → Verdict → List (Entry × Verdict) → Action Entry
verdict_unless h v ((e, old) ∷ rest) j =
    if same_state old.state v.state then (ok e, j) else (threw verdict_conflict, j)
verdict_unless h v [] j = write h (verdict v) j

-- _writeVerdict
unfoldable pub write_verdict : Host → Verdict → Action Entry
write_verdict h v j = verdict_unless h v (verdicts j.entries) j

unfoldable pub verdict_of : Host → Run → Option String → List Entry → Verdict
verdict_of h run intended es = elim (tx_hash_of (sends es) intended) [
  | none ↦ record { state = inconclusive; tx_hash = none }
  | some t ↦ record {
    state = state_on run (h.sha256_hex run.calldata) (first (intents es)) (reads es);
    tx_hash = some t;
  }
]

unfoldable pub resolve_verdict : Host → Run → Option String → Action Entry
resolve_verdict h run intended j = write_verdict h (verdict_of h run intended j.entries) j
