-- ===== src/Recovery/Tests.antt =====
-- The theorems about packages/recovery/index.js at concrete runs.
use coreguard.Prelude.{ℕ, ◌∷◌, [], ◌++◌, String, ◌≡◌, refl, none, some, List, arith, lower, codes}
use coreguard.Recovery.{
  TerminalState, ReceiptStatus, SendIntent, ReceiptRead, receipt, Verdict, Event, Entry, Journal,
  ok, Run, Host, Network, push, ends_in_verdict, intents, sends, reads, verdicts, is_broken,
  tx_hash_of, state_on, successes, one_key, receipt_key, receipts_agree, expected_event_present,
  topic_matches, has_part, starts, write_verdict, verdict_unless, verdict_of, resolve_verdict,
  declare_send_intent, declare_unless, names_of, send_once, broadcast_unless, record_send_result,
  send_unless, record_receipt_read, read_all, read_one, caught, read_of, run_recovery,
  recover_unless,
}
use coreguard.Recovery.Verdicts.{Proven, resolve_verdict-Proven}
use coreguard.Recovery.Appends.{Extends, run_recovery-Extends}
use coreguard.Recovery.Gaps.{one_provider-verified}

abbrev tick : ℕ → String
tick n = "t"

abbrev event_tag : Event → String
event_tag (Event.send_intent s) = "intent"
event_tag (Event.send_result s) = "send"
event_tag (Event.receipt_read r) = r.provider
event_tag (Event.reconstruction t) = "reconstruction"
event_tag (Event.verdict v) = "verdict"

abbrev host : Host
host = record { sha256_hex = λ s. s; entry_digest = λ e. event_tag e.event; now = tick }

abbrev smoke : Run
smoke = record {
  calldata = "0x1234";
  evidence_hash_pre = "evidence";
  expected = record { name = "Transfer"; topic0 = "Transfer" } ∷ [];
  min_providers = 2;
}

abbrev network : Network
network = record {
  broadcast = some "0xabcd";
  read_receipt = λ t p. receipt (record {
    status = ReceiptStatus.status_one;
    block_number = "1";
    logs_hash = "h";
    log_topics = "transfer" ∷ [];
  });
}

abbrev empty_journal : Journal
empty_journal = record { entries = []; seen = [] }

abbrev read_by : String → ReceiptRead
read_by p = record {
  provider = p;
  tx_hash = "0xabcd";
  status = ReceiptStatus.status_one;
  block_number = "1";
  logs_hash = "h";
  log_topics = "transfer" ∷ [];
  error = none;
}

abbrev intent_data : SendIntent
intent_data = record {
  calldata_hash = "0x1234";
  evidence_hash_pre = "evidence";
  expected_events = "Transfer" ∷ [];
}

abbrev entry : ℕ → Event → Entry
entry i event = record { i = i; at = "t"; event = event }

abbrev before_verdict : List Entry
before_verdict =
    entry 0 (Event.send_intent intent_data)
    ∷ entry 1 (Event.send_result (record { tx_hash = "0xabcd"; provider = "broadcaster" }))
    ∷ entry 2 (Event.receipt_read (read_by "rpc-a"))
    ∷ entry 3 (Event.receipt_read (read_by "rpc-b"))
    ∷ []

abbrev outcome : Verdict
outcome = record { state = TerminalState.verified; tx_hash = some "0xabcd" }

abbrev last_entry : Entry
last_entry = entry 4 (Event.verdict outcome)

abbrev ready : Journal
ready = record { entries = before_verdict; seen = "rpc-b" ∷ "rpc-a" ∷ "send" ∷ "intent" ∷ [] }

abbrev finished : Journal
finished = record {
  entries = before_verdict ++ last_entry ∷ [];
  seen = "verdict" ∷ "rpc-b" ∷ "rpc-a" ∷ "send" ∷ "intent" ∷ [];
}

all_open :
    run_recovery host smoke network ("rpc-a" ∷ "rpc-b" ∷ []) empty_journal
    ≡ (ok last_entry, finished)
unfolding lower codes push ends_in_verdict intents sends reads verdicts is_broken tx_hash_of
    state_on successes one_key receipt_key receipts_agree expected_event_present topic_matches
    has_part starts write_verdict verdict_unless verdict_of resolve_verdict declare_send_intent
    declare_unless names_of send_once broadcast_unless record_send_result send_unless
    record_receipt_read read_all read_one caught read_of run_recovery recover_unless
all_open = refl

resolve_verdict-Proven_example :
    ((t : String) × (tx_hash_of (sends before_verdict) none ≡ some t))
    × Proven smoke "0x1234" (some intent_data) (read_by "rpc-a" ∷ read_by "rpc-b" ∷ [])
unfolding all_open
resolve_verdict-Proven_example =
    resolve_verdict-Proven host smoke none ready last_entry outcome refl refl refl refl

run_recovery-Extends_example :
    Extends empty_journal (run_recovery host smoke network ("rpc-a" ∷ "rpc-a" ∷ []) empty_journal).1
run_recovery-Extends_example =
    run_recovery-Extends host smoke network ("rpc-a" ∷ "rpc-a" ∷ []) empty_journal

one_provider-verified_example :
    state_on smoke "0x1234" none (read_by "rpc-a" ∷ read_by "rpc-a" ∷ []) ≡ TerminalState.verified
unfolding all_open
one_provider-verified_example =
    one_provider-verified smoke "0x1234" (read_by "rpc-a") (omega arith) refl refl refl

abbrev undecided : Entry
undecided = entry 0 (Event.verdict (record { state = TerminalState.inconclusive; tx_hash = none }))
