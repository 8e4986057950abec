-- ===== src/Evm/Types.antt =====
-- packages/splits-sdk-evm/src/types.ts, and viem's clients as a parameter of the model. The
-- numbers are the naturals: viem's encoding of a uint16 takes no other.
use splits.Prelude.{ℕ, String, Bool, Option, List}
use splits.Outcome.{Result, Thrown}

abbrev pub Address : Type 0
Address = String

abbrev pub Hash : Type 0
Hash = String

pub record EvmRecipient : Type 0 where
  pub addr : Address
  pub percentage_bps : ℕ

pub record EvmRecipientInput : Type 0 where
  pub address : Address
  pub share : Option ℕ
  pub percentage_bps : Option ℕ

pub record EvmEnsureParams : Type 0 where
  pub authority : Option Address
  pub token : Option Address
  pub unique_id : Hash
  pub recipients : List EvmRecipientInput

pub data EvmFailedReason : Type 0 where
  wallet_rejected wallet_disconnected network_error transaction_failed : EvmFailedReason
  transaction_reverted insufficient_gas : EvmFailedReason

pub data EvmSkippedReason : Type 0 where
  not_found not_a_split below_threshold no_pending_funds : EvmSkippedReason

-- the `FAILED` member of both results; `error` is absent if the thrown value is no `Error`
pub record EvmFailure : Type 0 where
  pub reason : EvmFailedReason
  pub message : String
  pub error : Option Thrown

pub data EvmEnsureResult : Type 0 where
  created : Address → Hash → EvmEnsureResult
  no_change : Address → EvmEnsureResult
  failed : EvmFailure → EvmEnsureResult

pub data EvmExecuteResult : Type 0 where
  executed : Hash → EvmExecuteResult
  skipped : EvmSkippedReason → EvmExecuteResult
  failed : EvmFailure → EvmExecuteResult

-- the arguments of `writeContract`: the contract, the function, and its arguments
pub data Call : Type 0 where
  create_split_config : Address → Address → Address → Hash → List EvmRecipient → Call
  execute_split : Address → Call

-- viem's public client and wallet client, on a state `W` of the world
pub record Clients (W : Type 0) : Type 0 where
  pub is_address : String → Bool
  -- `walletClient.account`
  pub account : Option Address
  pub get_chain_id : W → Result ℕ × W
  pub predict_split_address :
      Address → Address → Address → Hash → List EvmRecipient → W → Result Address × W
  pub get_bytecode : Address → W → Result (Option String) × W
  pub is_cascade_split_config : Address → W → Result Bool × W
  pub get_balance : Address → W → Result ℕ × W
  pub has_pending_funds : Address → W → Result Bool × W
  pub write_contract : Call → W → Result Hash × W
  pub wait_for_transaction_receipt : Hash → W → Result Bool × W
