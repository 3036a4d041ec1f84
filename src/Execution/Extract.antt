-- ===== src/Execution/Extract.antt =====
-- extractExecutionEvidence of packages/execution/index.js. The commitment to the items is a digest,
-- and left out, as are the texts of the errors.
use coreguard.Prelude.{
  List, [], ◌∷◌, ◌++◌, Bool, true, ◌&&◌, ◌||◌, not, Option, none, some, if◌then◌else◌, map, lower,
}
use coreguard.Canonical.{Value}
use coreguard.Execution.Items.{
  Text, Call, failed, returned, RawTx, RawReceipt, RawBlock, Tx, ReceiptValue, BlockPin,
  ExecutionRef, Item, is_truthy, hex_quantity_to_dec, canonical_chain_id, tx_of, receipt_of, ◌>>=◌,
}

-- The injected provider: none where a method is missing. `get_trace` is the trace that is read, its
-- normal form and the digest of that: the number of frames, and the digest where it is made.
pub record Provider : Type 0 where
  pub eth_chain_id : Option (Call (Option Value))
  pub get_transaction_by_hash : Option (Text → Call (Option RawTx))
  pub get_transaction_receipt : Option (Text → Call (Option RawReceipt))
  pub get_block_by_number : Option (Option Text → Option Text → Call (Option RawBlock))
  pub supports_trace : Bool
  pub get_trace : Option (Text → Call Bool)
  pub trace_hash : RawTx → RawReceipt → Text → Call Text

pub record Ref : Type 0 where
  pub tx_hash : Option Text
  pub block_number : Option Text
  pub block_hash : Option Text

-- What goes into `errors`.
pub data Problem : Type 0 where
  provider_missing tx_hash_required : Problem
  chain_id_unparseable chain_id_failed chain_id_missing : Problem
  tx_not_found tx_failed tx_missing : Problem
  receipt_not_found receipt_failed receipt_missing : Problem
  block_pin_unset block_not_found block_failed block_missing : Problem
  raw_unavailable no_frames trace_failed : Problem

-- One read: the item if there is one, and a problem if there is one.
pub record Got (A : Type 0) : Type 0 where
  pub found : Option A
  pub problem : Option Problem

abbrev pub got : {A : Type 0} → A → Got A
got a = record { found = some a; problem = none }

abbrev pub lacks : {A : Type 0} → Problem → Got A
lacks e = record { found = none; problem = some e }

unfoldable pub chain_id_got : Option (Call (Option Value)) → Got Text
chain_id_got none = lacks Problem.chain_id_missing
chain_id_got (some failed) = lacks Problem.chain_id_failed
chain_id_got (some (returned v)) = elim (canonical_chain_id v) [
  | none ↦ lacks Problem.chain_id_unparseable
  | some s ↦ got s
]

-- The transaction that was read, and its item: a malformed quantity throws once it is read.
unfoldable pub raw_tx_of : Option (Text → Call (Option RawTx)) → Text → Option RawTx
raw_tx_of none h = none
raw_tx_of (some f) h = elim (f h) [
  | failed ↦ none
  | returned o ↦ elim o [ none ↦ none | some t ↦ if is_truthy t.hash then some t else none ]
]

unfoldable pub tx_got : Option (Text → Call (Option RawTx)) → Text → Got Tx
tx_got none h = lacks Problem.tx_missing
tx_got (some f) h = elim (f h) [
  | failed ↦ lacks Problem.tx_failed
  | returned o ↦ elim (raw_tx_of (some f) h) [
    | none ↦ lacks Problem.tx_not_found
    | some t ↦ elim (tx_of t) [ none ↦ lacks Problem.tx_failed | some x ↦ got x ]
  ]
]

unfoldable pub raw_receipt_of : Option (Text → Call (Option RawReceipt)) → Text → Option RawReceipt
raw_receipt_of none h = none
raw_receipt_of (some f) h = elim (f h) [
  | failed ↦ none
  | returned o ↦ elim o [
    | none ↦ none
    | some r ↦ if is_truthy r.transaction_hash then some r else none
  ]
]

unfoldable pub receipt_got : Option (Text → Call (Option RawReceipt)) → Text → Got ReceiptValue
receipt_got none h = lacks Problem.receipt_missing
receipt_got (some f) h = elim (f h) [
  | failed ↦ lacks Problem.receipt_failed
  | returned o ↦ elim (raw_receipt_of (some f) h) [
    | none ↦ lacks Problem.receipt_not_found
    | some r ↦ elim (receipt_of r) [ none ↦ lacks Problem.receipt_failed | some x ↦ got x ]
  ]
]

-- The pin of the caller, or else the transaction's own.
unfoldable pub candidate_number : Ref → Option Tx → Option Text
candidate_number ref tx = elim ref.block_number [
  | some n ↦ some n
  | none ↦ elim tx [
    | none ↦ none
    | some t ↦ if is_truthy t.block_number then t.block_number else none
  ]
]

unfoldable pub candidate_hash : Ref → Option Tx → Option Text
candidate_hash ref tx = elim ref.block_hash [
  | some h ↦ some (map lower h)
  | none ↦ elim tx [
    | none ↦ none
    | some t ↦ if is_truthy (some t.block_hash) then some t.block_hash else none
  ]
]

-- `block.number ?? candidateNum`, and the same of the hash.
unfoldable pub pin_of : RawBlock → Option Text → Option Text → Option BlockPin
pin_of b number hash = do
  n ← hex_quantity_to_dec (elim b.number [ some v ↦ some v | none ↦ text_value number ])
  some (record {
    block_number = n;
    block_hash = elim b.hash [ some h ↦ some (map lower h) | none ↦ hash ];
  })
  where
    text_value : Option Text → Option Value
    text_value none = none
    text_value (some s) = some (Value.text s)

-- `block.number !== undefined || block.hash`
abbrev pub is_block : RawBlock → Bool
is_block b = (elim b.number [ none ↦ b.number_is_null | some v ↦ true ]) || is_truthy b.hash

unfoldable pub block_got :
    Option (Option Text → Option Text → Call (Option RawBlock))
    → Option Text
    → Option Text
    → Got BlockPin
block_got none number hash = lacks Problem.block_missing
block_got (some f) number hash =
    if not (is_truthy number) && not (is_truthy hash)
    then lacks Problem.block_pin_unset
    else elim (f number hash) [
      | failed ↦ lacks Problem.block_failed
      | returned o ↦ elim o [
        | none ↦ lacks Problem.block_not_found
        | some b ↦
            if is_block b
            then elim (pin_of b number hash) [ none ↦ lacks Problem.block_failed | some p ↦ got p ]
            else lacks Problem.block_not_found
      ]
    ]

-- The trace, of a provider that has one.
unfoldable pub trace_of : Provider → Text → Option RawTx → Option RawReceipt → Got Text
trace_of p h (some t) (some r) = elim (p.trace_hash t r h) [
  | failed ↦ lacks Problem.trace_failed
  | returned digest ↦ got digest
]
trace_of p h _ _ = lacks Problem.raw_unavailable

unfoldable pub trace_got : Provider → Text → Option RawTx → Option RawReceipt → Got Text
trace_got p h tx receipt = elim p.get_trace [
  | none ↦ record { found = none; problem = none }
  | some f ↦
      if p.supports_trace
      then elim (f h) [
        | failed ↦ lacks Problem.trace_failed
        | returned some_frames ↦
            if some_frames then trace_of p h tx receipt else lacks Problem.no_frames
      ]
      else record { found = none; problem = none }
]

abbrev pub item_of : {A : Type 0} → (A → Item) → Got A → List Item
item_of f g = elim g.found [ none ↦ [] | some a ↦ f a ∷ [] ]

abbrev pub problem_of : {A : Type 0} → Got A → List Problem
problem_of g = elim g.problem [ none ↦ [] | some e ↦ e ∷ [] ]

abbrev pub logs_of : Got ReceiptValue → List Item
logs_of g = elim g.found [ none ↦ [] | some r ↦ map Item.log r.logs ]

abbrev pub ref_of : Text → Got BlockPin → Got Tx → ExecutionRef
ref_of h b t = elim b.found [
  | some p ↦ record { tx_hash = h; block_number = p.block_number; block_hash = p.block_hash }
  | none ↦ elim t.found [
    | some x ↦ record { tx_hash = h; block_number = x.block_number; block_hash = some x.block_hash }
    | none ↦ record { tx_hash = h; block_number = none; block_hash = none }
  ]
]

pub record Extraction : Type 0 where
  pub items : List Item
  pub block_pin : Option BlockPin
  pub execution_ref : Option ExecutionRef
  pub trace : Option Text
  pub errors : List Problem

abbrev pub nothing : Problem → Extraction
nothing e = record {
  items = [];
  block_pin = none;
  execution_ref = none;
  trace = none;
  errors = e ∷ [];
}

unfoldable pub extract_from : Provider → Ref → Text → Extraction
extract_from p ref h =
    let chain = chain_id_got p.eth_chain_id in
    let tx = tx_got p.get_transaction_by_hash h in
    let receipt = receipt_got p.get_transaction_receipt h in
    let block =
      block_got p.get_block_by_number (candidate_number ref tx.found)
        (candidate_hash ref tx.found) in
    let trace =
      trace_got p h (raw_tx_of p.get_transaction_by_hash h)
        (raw_receipt_of p.get_transaction_receipt h) in
    record {
      items =
          item_of Item.chain_id chain
          ++ (item_of Item.transaction tx
              ++ (item_of Item.receipt receipt
                  ++ (logs_of receipt
                      ++ (item_of Item.block block
                          ++ (Item.execution_ref (ref_of h block tx)
                              ∷ item_of Item.trace trace)))));
      block_pin = block.found;
      execution_ref = some (ref_of h block tx);
      trace = trace.found;
      errors =
          problem_of chain
          ++ (problem_of tx ++ (problem_of receipt ++ (problem_of block ++ problem_of trace)));
    }

-- extractExecutionEvidence
unfoldable pub extract_execution_evidence : Option Provider → Ref → Extraction
extract_execution_evidence none ref = nothing Problem.provider_missing
extract_execution_evidence (some p) ref = elim ref.tx_hash [
  | none ↦ nothing Problem.tx_hash_required
  | some h ↦
      if is_truthy (some h)
      then extract_from p ref (map lower h)
      else nothing Problem.tx_hash_required
]
