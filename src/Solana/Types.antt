-- ===== src/Solana/Types.antt =====
-- The data of the Solana SDK: the interfaces of packages/splits-sdk/src/helpers.ts, recipients.ts,
-- instructions.ts, client/types.ts and client/buildTransaction.ts, and constants.ts.
use splits.Prelude.{ℕ, String, Option, List}

abbrev pub Address : Type 0
Address = String

abbrev pub Signature : Type 0
Signature = String

-- constants.ts
abbrev pub program_id : Address
program_id = "SPL1T3rERcu6P6dyBiG7K8LUr21CssZqDAszwANzNMB"

abbrev pub usdc_mint : Address
usdc_mint = "EPjFWdd5AufqSSqeM2qN1xzybapC8G4wEGGkZwyTDt1v"

abbrev pub token_program_address : Address
token_program_address = "TokenkegQfeZyiNwAJbNbGKPFXCWuBvf9Ss623VQ5DA"

abbrev pub associated_token_program_address : Address
associated_token_program_address = "ATokenGPvbdGVxr1b2hvZbsiqW5xWH25efTNsLJA8knL"

abbrev pub system_program_address : Address
system_program_address = "11111111111111111111111111111111"

abbrev pub protocol_config_seed : String
protocol_config_seed = "protocol_config"

abbrev pub split_config_seed : String
split_config_seed = "split_config"

abbrev pub protocol_fee_bps : ℕ
protocol_fee_bps = 100

-- A JavaScript number, as the range checks see it: an integer, or anything else (a fraction, an
-- infinity, NaN) with its text. `negative n` is -(n + 1).
pub data JsNumber : Type 0 where
  natural : ℕ → JsNumber
  negative : ℕ → JsNumber
  not_integer : String → JsNumber

-- `Recipient`, with both optional fields as JavaScript callers may give them.
pub record Recipient : Type 0 where
  pub address : Address
  pub percentage_bps : Option JsNumber
  pub share : Option JsNumber

-- A recipient in the on-chain format, of `toOnChainRecipients`.
pub record OnChainRecipient : Type 0 where
  pub address : Address
  pub percentage_bps : ℕ

pub record SplitRecipient : Type 0 where
  pub address : Address
  pub percentage_bps : ℕ
  pub share : ℕ

pub record UnclaimedAmount : Type 0 where
  pub recipient : Address
  pub amount : ℕ
  pub timestamp : ℕ

pub record SplitConfig : Type 0 where
  pub address : Address
  pub version : ℕ
  pub authority : Address
  pub mint : Address
  pub vault : Address
  pub unique_id : Address
  pub bump : ℕ
  pub recipients : List SplitRecipient
  pub unclaimed_amounts : List UnclaimedAmount
  pub protocol_unclaimed : ℕ
  pub last_activity : ℕ
  pub rent_payer : Address

pub record ProtocolConfig : Type 0 where
  pub address : Address
  pub authority : Address
  pub pending_authority : Address
  pub fee_wallet : Address
  pub bump : ℕ

pub record MissingAta : Type 0 where
  pub recipient : Address
  pub ata : Address

-- The account roles 0 to 3 of instructions.ts.
pub data Role : Type 0 where
  readonly writable signer writable_signer : Role

pub record AccountMeta : Type 0 where
  pub address : Address
  pub role : Role

-- The data of an instruction before its encoder runs. The two compute budget instructions come
-- from a library.
pub data InstructionData : Type 0 where
  create_split_config : Address → List OnChainRecipient → InstructionData
  execute_split : InstructionData
  update_split_config : List OnChainRecipient → InstructionData
  close_split_config : InstructionData
  create_ata_idempotent : InstructionData
  set_compute_unit_limit set_compute_unit_price : ℕ → InstructionData

pub record Instruction : Type 0 where
  pub program_address : Address
  pub accounts : List AccountMeta
  pub payload : InstructionData

pub record Lifetime : Type 0 where
  pub blockhash : String
  pub last_valid_block_height : ℕ

pub record TransactionMessage : Type 0 where
  pub fee_payer : Address
  pub instructions : List Instruction
  pub lifetime_constraint : Lifetime

pub data Commitment : Type 0 where
  processed confirmed finalized : Commitment
