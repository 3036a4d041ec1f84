-- ===== src/Recovery/Verdicts.antt =====
-- What a VERIFIED verdict of packages/recovery/index.js rests on.
use coreguard.Prelude.{
  ◌∷◌, [], String, true, false, ◌≤◌, ◌≡◌, inl, inr, Option, some, List, any, all, length, arith,
  Option-cases,
}
use coreguard.Recovery.{
  TerminalState, SendIntent, ReceiptRead, Verdict, Event, Entry, Journal, ok, Run, Host, push,
  intents, sends, reads, verdicts, first, is_one, is_zero, is_clean, successes, verdict_unless,
  one_key, receipts_agree, is_broken, tx_hash_of, state_on, write_verdict, verdict_of,
  resolve_verdict, expected_event_present,
}

-- What holds of the reads and of the intent when the state is VERIFIED.
pub record Proven (run : Run) (now : String) (intent : Option SendIntent) (rs : List ReceiptRead)
    : Type 0 where
  pub intact : is_broken intent now ≡ false
  pub none_failed : any is_zero rs ≡ false
  pub some_succeeded : any is_one rs ≡ true
  pub enough : run.min_providers ≤ length rs
  pub clean : all is_clean rs ≡ true
  pub agreed : one_key (successes rs) ≡ true
  pub events :
      all (λ (r : ReceiptRead). expected_event_present run.expected r.log_topics) (successes rs)
      ≡ true

verified-Proven :
    (run : Run) (now : String) (intent : Option SendIntent) (rs : List ReceiptRead)
    → state_on run now intent rs ≡ TerminalState.verified
    → Proven run now intent rs
unfolding state_on receipts_agree
verified-Proven run now intent rs h = record {
  intact = ground arith;
  none_failed = ground arith;
  some_succeeded = ground arith;
  enough = ground arith;
  clean = ground arith;
  agreed = ground arith;
  events = ground arith;
}

-- A journal without a verdict gets VERIFIED only when a transaction is known, the calldata still has
-- the hash that was recorded, no read reports failure, some read reports success, there are as many
-- reads as the run asks for, none of them with an error, all successful ones agree on block and logs,
-- and each of these has every expected event.
pub resolve_verdict-Proven :
    (h : Host) (run : Run) (intended : Option String) (j : Journal) (e : Entry) (v : Verdict)
    → verdicts j.entries ≡ []
    → (resolve_verdict h run intended j).0 ≡ ok e
    → e.event ≡ Event.verdict v
    → v.state ≡ TerminalState.verified
    → ((t : String) × (tx_hash_of (sends j.entries) intended ≡ some t))
      × Proven run (h.sha256_hex run.calldata) (first (intents j.entries)) (reads j.entries)
unfolding resolve_verdict write_verdict verdict_unless verdict_of push
resolve_verdict-Proven h run intended j e v fresh r ev s =
    elim (Option-cases (tx_hash_of (sends j.entries) intended)) [
      | inl unknown ↦ ground arith
      | inr (t, et) ↦ (
        (t, et),
        verified-Proven run (h.sha256_hex run.calldata) (first (intents j.entries))
            (reads j.entries) (ground arith),
      )
    ]

-- A verdict that is there is never changed: a second one of the same state gives it back, and one of
-- another state is refused; the journal stays as it is.
pub write_verdict-once :
    (h : Host) (v old : Verdict) (j : Journal) (e : Entry) (rest : List (Entry × Verdict))
    → verdicts j.entries ≡ (e, old) ∷ rest
    → (write_verdict h v j).1 ≡ j
unfolding write_verdict verdict_unless
write_verdict-once h v old j e rest found = ground arith
