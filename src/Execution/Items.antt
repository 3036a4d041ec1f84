-- ===== src/Execution/Items.antt =====
-- The data of packages/execution/index.js: what a provider answers, and the evidence items that are
-- made of it.
use Prim.Native.Nat.{◌^◌}
use coreguard.Prelude.{
  take, ℕ, List, [], ◌∷◌, Bool, true, false, ◌&&◌, ◌||◌, Option, none, some, if◌then◌else◌, map,
  lower, trim, nat_beq, pos, leb, length, codes,
}
use coreguard.Canonical.{
  Value, Number, Converted, ok, threw, canonical_uint_string, in_range, hex_uint, UintError,
}

abbrev pub Text : Type 0
Text = List ℕ

-- An awaited call of the provider.
pub data Call (A : Type 0) : Type 0 where
  failed : Call A
  returned : A → Call A

-- The objects of the chain's interface; a field that is missing or null is none.
pub record RawTx : Type 0 where
  pub hash : Option Text
  pub from : Option Text
  pub to : Option Text
  pub value : Option Value
  pub input : Option Text
  pub nonce : Option Value
  pub block_number : Option Value
  pub block_hash : Option Text

pub record RawLog : Type 0 where
  pub address : Option Text
  pub topics : Option (List Text)
  pub payload : Option Text
  pub log_index : Option Value

pub record RawReceipt : Type 0 where
  pub transaction_hash : Option Text
  pub status : Option Value
  pub gas_used : Option Value
  pub transaction_index : Option Value
  pub block_number : Option Value
  pub block_hash : Option Text
  pub logs : Option (List RawLog)

-- `number` is none for a number that is undefined or null, which `number_is_null` tells apart.
pub record RawBlock : Type 0 where
  pub number : Option Value
  pub number_is_null : Bool
  pub hash : Option Text

pub record Tx : Type 0 where
  pub tx_hash : Text
  pub from : Text
  pub to : Text
  pub value : Option Text
  pub input : Text
  pub nonce : Option Text
  pub block_number : Option Text
  pub block_hash : Text

pub record Log : Type 0 where
  pub address : Text
  pub topics : List Text
  pub payload : Text
  pub log_index : Option Text

pub record ReceiptValue : Type 0 where
  pub tx_hash : Text
  pub status : Option Text
  pub gas_used : Option Text
  pub transaction_index : Option Text
  pub block_number : Option Text
  pub block_hash : Text
  pub logs : List Log

pub record BlockPin : Type 0 where
  pub block_number : Option Text
  pub block_hash : Option Text

pub record ExecutionRef : Type 0 where
  pub tx_hash : Text
  pub block_number : Option Text
  pub block_hash : Option Text

-- EVIDENCE_KINDS with the value of an item; its source and its pins follow from it and are left out.
pub data Item : Type 0 where
  chain_id : Text → Item
  block : BlockPin → Item
  transaction : Tx → Item
  receipt : ReceiptValue → Item
  log : Log → Item
  execution_ref : ExecutionRef → Item
  trace : Text → Item

-- toLowerHex, on a text.
unfoldable pub to_lower_hex : Option Text → Option Text
to_lower_hex none = none
to_lower_hex (some s) = some (map lower s)

-- `a || b` on texts.
abbrev pub or_else_text : Option Text → Text → Text
or_else_text none b = b
or_else_text (some []) b = b
or_else_text (some (c ∷ cs)) b = c ∷ cs

abbrev pub is_truthy : Option Text → Bool
is_truthy none = false
is_truthy (some []) = false
is_truthy (some (c ∷ cs)) = true

-- `/^0x/i`
unfoldable pub starts_0x_any : Text → Bool
starts_0x_any (a ∷ b ∷ cs) = nat_beq a b'0' && (nat_beq b b'x' || nat_beq b b'X')
starts_0x_any _ = false

-- `canonicalUintString(BigInt(s).toString())` after `0x`.
unfoldable pub of_hex : Option ℕ → Converted Text
of_hex none = threw UintError.malformed
of_hex (some n) = in_range (pos n)

-- hexQuantityToDec of a value that is there. `String` of a number below 10^21, or of a bigint, is
-- its decimal text; of all else that is no text it is malformed.
unfoldable pub quantity : Value → Converted Text
quantity (Value.text s) =
    if starts_0x_any (trim s)
    then of_hex (hex_uint (trim s))
    else canonical_uint_string (Value.text s)
quantity (Value.number (Number.integer (pos n))) =
    if leb (10 ^ 21) n then threw UintError.malformed else in_range (pos n)
quantity (Value.bigint (pos n)) = in_range (pos n)
quantity _ = threw UintError.malformed

-- hexQuantityToDec: none within ok is null, and none outside is an exception.
unfoldable pub hex_quantity_to_dec : Option Value → Option (Option Text)
hex_quantity_to_dec none = some none
hex_quantity_to_dec (some v) = elim (quantity v) [ ok s ↦ some (some s) | threw e ↦ none ]

-- canonicalChainId: null where the value is malformed.
unfoldable pub canonical_chain_id : Option Value → Option Text
canonical_chain_id none = none
canonical_chain_id (some v) = elim (canonical_uint_string v) [ ok s ↦ some s | threw e ↦ none ]

-- functionSelector, of a text that is in lower case already.
unfoldable pub function_selector : Text → Option Text
function_selector (a ∷ b ∷ cs) =
    if nat_beq a b'0' && nat_beq b b'x' && leb 8 (length cs) then some (a ∷ b ∷ take 8 cs) else none
function_selector _ = none

infixl 5 ◌>>=◌
abbrev pub ◌>>=◌ : {A B : Type 0} → Option A → (A → Option B) → Option B
none >>= f = none
some a >>= f = f a

unfoldable pub normalize_log : RawLog → Option Log
normalize_log l = do
  index ← hex_quantity_to_dec l.log_index
  some (record {
    address = or_else_text (to_lower_hex l.address) [];
    topics = elim l.topics [ none ↦ [] | some ts ↦ map (map lower) ts ];
    payload = or_else_text (to_lower_hex l.payload) (codes "0x");
    log_index = index;
  })

unfoldable pub normalize_logs : List RawLog → Option (List Log)
normalize_logs [] = some []
normalize_logs (l ∷ ls) = do first ← normalize_log l; rest ← normalize_logs ls; some (first ∷ rest)

-- The values of the TRANSACTION and the RECEIPT item: none where a quantity is malformed.
unfoldable pub tx_of : RawTx → Option Tx
tx_of t = do
  value ← hex_quantity_to_dec t.value
  nonce ← hex_quantity_to_dec t.nonce
  number ← hex_quantity_to_dec t.block_number
  some (record {
    tx_hash = or_else_text (to_lower_hex t.hash) [];
    from = or_else_text (to_lower_hex t.from) [];
    to = or_else_text (to_lower_hex t.to) [];
    value = value;
    input = or_else_text (to_lower_hex t.input) (codes "0x");
    nonce = nonce;
    block_number = number;
    block_hash = or_else_text (to_lower_hex t.block_hash) [];
  })

unfoldable pub receipt_of : RawReceipt → Option ReceiptValue
receipt_of r = do
  status ← hex_quantity_to_dec r.status
  gas ← hex_quantity_to_dec r.gas_used
  index ← hex_quantity_to_dec r.transaction_index
  number ← hex_quantity_to_dec r.block_number
  logs ← normalize_logs (elim r.logs [ none ↦ [] | some ls ↦ ls ])
  some (record {
    tx_hash = or_else_text (to_lower_hex r.transaction_hash) [];
    status = status;
    gas_used = gas;
    transaction_index = index;
    block_number = number;
    block_hash = or_else_text (to_lower_hex r.block_hash) [];
    logs = logs;
  })
