-- ===== src/Solana/Network.antt =====
-- What the Solana SDK calls and does not implement: @solana/kit's RPC client and address codecs,
-- the wallet's `signAndSend`, the generated account decoders, and the browser's random numbers.
-- `W` is the world outside (the chain, the node, the wallet); every call may change it, so that
-- two reads of one account may differ.
use splits.Prelude.{ℕ, String, Option, Bool, List}
use splits.Outcome.{Result}
use splits.Solana.Types.{
  Address, Signature, UnclaimedAmount, OnChainRecipient, Lifetime, TransactionMessage, Commitment,
}

-- A seed of a program address: a text, or the 32 bytes that kit's address encoder gives.
pub data Seed : Type 0 where
  text_seed : String → Seed
  address_seed : Address → Seed

-- The decoded account data of generated/accounts/splitConfig.ts.
pub record SplitConfigData : Type 0 where
  pub version : ℕ
  pub authority : Address
  pub mint : Address
  pub vault : Address
  pub unique_id : Address
  pub bump : ℕ
  pub recipient_count : ℕ
  pub recipients : List OnChainRecipient
  pub unclaimed_amounts : List UnclaimedAmount
  pub protocol_unclaimed : ℕ
  pub last_activity : ℕ
  pub rent_payer : Address

-- `value` of `getAccountInfo`: the owner, and the bytes that `decodeBase64` gives for `data[0]`.
pub record AccountInfo : Type 0 where
  pub owner : Address
  pub bytes : List ℕ

-- The decoded account data of generated/accounts/protocolConfig.ts.
pub record ProtocolConfigData : Type 0 where
  pub authority : Address
  pub pending_authority : Address
  pub fee_wallet : Address
  pub bump : ℕ

pub record SendOptions : Type 0 where
  pub commitment : Commitment
  -- an abort signal is passed on
  pub with_abort_signal : Bool

pub record Network (W : Type 0) : Type 0 where
  -- `getProgramDerivedAddress`, with the encoding of its seeds: it throws on an address that is
  -- no base58 text of 32 bytes
  pub get_program_derived_address : Address → List Seed → Result Address
  -- `addressDecoder.decode`
  pub decode_address : List ℕ → Address
  pub fetch_maybe_split_config : Address → W → Result (Option SplitConfigData) × W
  pub fetch_protocol_config : Address → W → Result ProtocolConfigData × W
  pub get_account_info : Address → W → Result (Option AccountInfo) × W
  pub get_multiple_accounts : List Address → W → Result (List (Option AccountInfo)) × W
  pub get_minimum_balance_for_rent_exemption : ℕ → W → Result ℕ × W
  pub get_latest_blockhash : W → Result Lifetime × W
  -- 32 random bytes, decoded
  pub random_address : W → Address × W
  pub sign_and_send : TransactionMessage → SendOptions → W → Result Signature × W
  -- `abortSignal.aborted`
  pub is_aborted : W → Bool
