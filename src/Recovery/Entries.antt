-- ===== src/Recovery/Entries.antt =====
-- RecoveryJournal of packages/recovery/index.js, in memory: its entries and the digests seen. The digest
-- of an entry and the clock are parameters; files are left out.
use coreguard.Prelude.{
  ℕ, ◌∷◌, [], ◌++◌, String, Bool, true, false, ◌&&◌, Option, none, some, List, includes, length,
  leb, if◌then◌else◌,
}

-- TERMINAL_STATES
pub data TerminalState : Type 0 where
  authorized executed verified not_proven contradicted inconclusive : TerminalState

-- "0x1" or 1, "0x0" or 0, and anything else, null included.
pub data ReceiptStatus : Type 0 where
  status_one status_zero status_other : ReceiptStatus

pub record SendIntent : Type 0 where
  pub calldata_hash : String
  pub evidence_hash_pre : String
  pub expected_events : List String

pub record SendResult : Type 0 where
  pub tx_hash : String
  pub provider : String

pub record ReceiptRead : Type 0 where
  pub provider : String
  pub tx_hash : String
  pub status : ReceiptStatus
  pub block_number : String
  pub logs_hash : String
  pub log_topics : List String
  pub error : Option String

pub record Verdict : Type 0 where
  pub state : TerminalState
  pub tx_hash : Option String

-- The events that the engine writes, with their data.
pub data Event : Type 0 where
  send_intent : SendIntent → Event
  send_result : SendResult → Event
  receipt_read : ReceiptRead → Event
  reconstruction : String → Event
  verdict : Verdict → Event

pub record Entry : Type 0 where
  pub i : ℕ
  pub at : String
  pub event : Event

pub record Journal : Type 0 where
  pub entries : List Entry
  pub seen : List String

pub data Error : Type 0 where
  duplicate_entry already_terminal tx_hash_required tx_hash_divergence verdict_conflict
        found_tx_hash_required no_broadcast :
      Error

pub data Result (A : Type 0) : Type 0 where
  ok : A → Result A
  threw : Error → Result A

abbrev pub is_verdict : Event → Bool
is_verdict (verdict v) = true
is_verdict _ = false

-- `this.entryAt(-1).event === "VERDICT"`
unfoldable pub ends_in_verdict : List Entry → Bool
ends_in_verdict [] = false
ends_in_verdict (e ∷ []) = is_verdict e.event
ends_in_verdict (e ∷ f ∷ es) = ends_in_verdict (f ∷ es)

abbrev pub new_entry : Journal → String → Event → Entry
new_entry j at event = record { i = length j.entries; at = at; event = event }

-- push
unfoldable pub push : (Entry → String) → String → Event → Journal → Result Entry × Journal
push entry_digest at event j =
    if includes j.seen (entry_digest (new_entry j at event))
    then (threw duplicate_entry, j)
    else if leb 2 (length j.entries) && ends_in_verdict j.entries
    then (threw already_terminal, j)
    else (
      ok (new_entry j at event),
      record {
        entries = j.entries ++ new_entry j at event ∷ [];
        seen = entry_digest (new_entry j at event) ∷ j.seen;
      },
    )

-- `last(event)`, for the events that are read back.
unfoldable pub intents : List Entry → List SendIntent
intents [] = []
intents (e ∷ es) = elim e.event [ send_intent s ↦ s ∷ intents es | _ ↦ intents es ]

unfoldable pub sends : List Entry → List (Entry × SendResult)
sends [] = []
sends (e ∷ es) = elim e.event [ send_result s ↦ (e, s) ∷ sends es | _ ↦ sends es ]

unfoldable pub reads : List Entry → List ReceiptRead
reads [] = []
reads (e ∷ es) = elim e.event [ receipt_read r ↦ r ∷ reads es | _ ↦ reads es ]

unfoldable pub reconstructions : List Entry → List Entry
reconstructions [] = []
reconstructions (e ∷ es) = elim e.event [
  | reconstruction t ↦ e ∷ reconstructions es
  | _ ↦ reconstructions es
]

unfoldable pub verdicts : List Entry → List (Entry × Verdict)
verdicts [] = []
verdicts (e ∷ es) = elim e.event [ verdict v ↦ (e, v) ∷ verdicts es | _ ↦ verdicts es ]

abbrev pub first {ℓ} : {A : Type ℓ} → List A → Option A
first [] = none
first (x ∷ xs) = some x
