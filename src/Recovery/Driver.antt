-- ===== src/Recovery/Driver.antt =====
-- runRecovery of packages/recovery/index.js: what a restart finds in the journal is not done again.
use coreguard.Prelude.{◌∷◌, [], String, Option, none, some, List}
use coreguard.Recovery.Entries.{
  ReceiptStatus, status_other, ReceiptRead, Verdict, Entry, Error, no_broadcast, Result, ok, threw,
  sends, verdicts,
}
use coreguard.Recovery.Engine.{
  Run, Host, Action, ◌>>=◌, declare_send_intent, record_send_result, record_receipt_read, or_null,
  tx_hash_of, resolve_verdict,
}

pub record Receipt : Type 0 where
  pub status : ReceiptStatus
  pub block_number : String
  pub logs_hash : String
  pub log_topics : List String

-- How a read of one provider ends: with a receipt, or with the text of the error thrown.
pub data ReadOutcome : Type 0 where
  receipt : Receipt → ReadOutcome
  read_error : String → ReadOutcome

unfoldable pub read_of : String → String → ReadOutcome → ReceiptRead
read_of tx_hash provider (receipt r) = record {
  provider = provider;
  tx_hash = tx_hash;
  status = r.status;
  block_number = r.block_number;
  logs_hash = r.logs_hash;
  log_topics = r.log_topics;
  error = none;
}
read_of tx_hash provider (read_error e) = record {
  provider = provider;
  tx_hash = tx_hash;
  status = status_other;
  block_number = "";
  logs_hash = "";
  log_topics = [];
  error = some e;
}

-- The network: what the broadcaster returns, and what a provider says of a transaction.
pub record Network : Type 0 where
  pub broadcast : Option String
  pub read_receipt : String → String → ReadOutcome

-- The message of what `push` throws; nothing else is thrown where a read is recorded.
abbrev pub message_of : Error → String
message_of Error.already_terminal = "journal already terminal; refusing to append after VERDICT"
message_of _ = "duplicate journal entry refused: RECEIPT_READ"

-- The `catch` around the read of one provider: what was thrown is recorded as an error read.
unfoldable pub caught : Host → String → String → Result Entry → Action Entry
caught h tx_hash p (ok e) j = (ok e, j)
caught h tx_hash p (threw x) j =
    record_receipt_read h (read_of tx_hash p (read_error (message_of x))) j

-- The body of the loop over the providers, whose `try` covers the recording of a receipt as well.
unfoldable pub read_one : Host → String → String → ReadOutcome → Action Entry
read_one h tx_hash p (receipt r) j =
    let (a, l) = record_receipt_read h (read_of tx_hash p (receipt r)) j in caught h tx_hash p a l
read_one h tx_hash p (read_error e) j = record_receipt_read h (read_of tx_hash p (read_error e)) j

unfoldable pub read_all : Host → Network → String → List String → Action (Unit {0})
read_all h net tx_hash [] j = (ok tt, j)
read_all h net tx_hash (p ∷ ps) j =
    (read_one h tx_hash p (net.read_receipt tx_hash p) >>= λ e. read_all h net tx_hash ps) j

-- The recorded transaction, or the one that the broadcaster returns now.
unfoldable pub broadcast_unless : Host → Option String → Option String → Action String
broadcast_unless h (some t) returned j = (ok t, j)
broadcast_unless h none none j = (threw no_broadcast, j)
broadcast_unless h none (some t) j = (record_send_result h t "broadcaster" >>= λ e l. (ok t, l)) j

unfoldable pub send_once : Host → Network → Action String
send_once h net j = broadcast_unless h (tx_hash_of (sends j.entries) none) (or_null net.broadcast) j

unfoldable pub recover_unless :
    Host → Run → Network → List String → List (Entry × Verdict) → Action Entry
recover_unless h run net providers ((e, v) ∷ rest) j = (ok e, j)
recover_unless h run net providers [] j =
    (declare_send_intent h run >>= λ hash.
    send_once h net >>= λ t. read_all h net t providers >>= λ u. resolve_verdict h run (some t))
      j

unfoldable pub run_recovery : Host → Run → Network → List String → Action Entry
run_recovery h run net providers j = recover_unless h run net providers (verdicts j.entries) j
