-- ===== src/Firewall/Authority.antt =====
-- evaluateAuthorityProbe of packages/firewall/authority.js. The chain adapters are parameters, with
-- none where a call throws. Labels and reasons are left out.
use coreguard.Prelude.{
  ℕ, String, Bool, true, false, not, ◌&&◌, ◌||◌, ◌==◌, Option, none, some, all, if◌then◌else◌, leb,
  codes, same_text,
}
use coreguard.Firewall.Simulate.{or_empty}
use coreguard.Firewall.Bind.{Status, Signature, Declaration, is_address, is_contract, is_eip712}

-- The functions of `@coreguard/evm` that an adapter has: recovery needs two, the contract path two
-- others.
pub record Evm : Type 0 where
  pub recovers : Bool
  pub recover_signer : String → String → Signature → Option String
  pub checks_contracts : Bool
  pub is_valid_signature_calldata : String → String → String → Option String
  pub is_erc1271_magic : String → Bool

pub data CallResult : Type 0 where
  succeeded : Option String → CallResult
  failed : Option String → CallResult

pub record ContractAuth : Type 0 where
  pub get_code : String → String → Option String
  pub eth_call : String → String → String → Option CallResult

pub record Probe : Type 0 where
  pub status : Status
  pub path : Option String
  pub at_state : Option String

-- `authorityAtState || null`
unfoldable pub or_null : Option String → Option String
or_null none = none
or_null (some s) = if s == "" then none else some s

-- DECIMAL_RE
unfoldable pub is_decimal : String → Bool
is_decimal s = not (s == "") && all (λ (c : ℕ). leb b'0' c && leb c b'9') (codes s)

abbrev signature_of : Option Signature → Signature
signature_of none = record {
  signer = none;
  scheme = none;
  r = none;
  s = none;
  v = none;
  bytes = none;
}
signature_of (some g) = g

unfoldable pub recovered : Option String → String → Status
recovered none address = Status.not_proven
recovered (some signer) address = if same_text signer address then Status.ok else Status.not_proven

unfoldable pub probe_eoa : Option Evm → Signature → String → String → String → Status
probe_eoa none g address manifest_id chain_id = Status.not_run
probe_eoa (some evm) g address manifest_id chain_id =
    if not evm.recovers
    then Status.not_run
    else if not (is_eip712 g)
    then Status.not_proven
    else recovered (evm.recover_signer manifest_id chain_id g) address

-- `code.replace(/^0x/i, "").length === 0`
unfoldable pub is_no_code : String → Bool
is_no_code code = code == "" || code == "0x" || code == "0X"

unfoldable pub call_status : Evm → Option CallResult → Status
call_status evm none = Status.not_run
call_status evm (some (succeeded data_hex)) =
    if evm.is_erc1271_magic (elim data_hex [ none ↦ "0x" | some d ↦ if d == "" then "0x" else d ])
    then Status.ok
    else Status.not_proven
call_status evm (some (failed code)) = elim code [
  | none ↦ Status.not_run
  | some c ↦ if c == "REVERTED" then Status.not_proven else Status.not_run
]

abbrev or_no_bytes : Option String → String
or_no_bytes none = "0x"
or_no_bytes (some b) = if b == "" then "0x" else b

unfoldable pub probe_contract_at :
    Evm → ContractAuth → Signature → String → String → String → String → Status
probe_contract_at evm auth g address manifest_id chain_id block =
    elim (auth.get_code address block) [
      | none ↦ Status.not_run
      | some code ↦
          if is_no_code code
          then Status.not_proven
          else elim (evm.is_valid_signature_calldata manifest_id chain_id (or_no_bytes g.bytes)) [
            | none ↦ Status.not_proven
            | some calldata ↦ call_status evm (auth.eth_call address calldata block)
          ]
    ]

unfoldable pub probe_contract :
    Option Evm → Option ContractAuth → Signature → String → String → String → Option String → Status
probe_contract none auth g address manifest_id chain_id state = Status.not_run
probe_contract (some evm) none g address manifest_id chain_id state = Status.not_run
probe_contract (some evm) (some auth) g address manifest_id chain_id none = Status.not_run
probe_contract (some evm) (some auth) g address manifest_id chain_id (some block) =
    if not evm.checks_contracts
    then Status.not_run
    else if not (is_decimal block)
    then Status.not_run
    else probe_contract_at evm auth g address manifest_id chain_id block

unfoldable pub probe_status :
    Option Evm → Option ContractAuth → Declaration → String → String → Option String → Status
probe_status evm auth d manifest_id chain_id state =
    if not (is_address (or_empty d.signer_binding.address))
    then Status.not_proven
    else if is_contract d.signer_binding
    then probe_contract evm auth (signature_of d.signature) (or_empty d.signer_binding.address)
        manifest_id chain_id state
    else probe_eoa evm (signature_of d.signature) (or_empty d.signer_binding.address) manifest_id
        chain_id

abbrev pub path_of : Bool → Option String
path_of true = some "EIP1271"
path_of false = some "EOA"

-- Whether the probe ends at the check of the state, where it reports none.
unfoldable pub is_no_state : Option Evm → Option ContractAuth → Declaration → Option String → Bool
is_no_state (some evm) (some auth) d state =
    is_address (or_empty d.signer_binding.address)
    && is_contract d.signer_binding
    && evm.checks_contracts
    && not (is_decimal (or_empty state))
is_no_state _ _ d state = false

unfoldable pub evaluate_authority_probe :
    Option Evm → Option ContractAuth → Declaration → String → String → Option String → Probe
evaluate_authority_probe evm auth d manifest_id chain_id state = record {
  status = probe_status evm auth d manifest_id chain_id state;
  path = path_of (is_contract d.signer_binding);
  at_state = if is_no_state evm auth d state then none else or_null state;
}
