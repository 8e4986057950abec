-- ===== src/Tabs/Squads/Withdraw.antt =====
-- buildWithdrawInstruction of apps/tabs/src/react-app/lib/squads.ts, with the roles of accounts.
-- The builders of the token program and of the generated client are parameters.
pub mod Transfers
use splits.Prelude.{
  ℕ, String, Bool, true, false, ◌&&◌, Option, none, some, List, [], ◌∷◌, ◌++◌, map, ◌===◌,
  if◌then◌else◌,
}
use splits.Prelude.Integers.{ℤ}
use splits.Outcome.{Result, ok, throw, error, ◌>>=◌, map_result}
use splits.Tabs.Message.{
  Address, SyncAccountMeta, InnerAccount, InnerInstruction, SyncMessageResult,
  compile_to_synchronous_message,
}
use splits.Tabs.Worker.{TransferCheckedInput, usdc_mint, usdc_decimals, token_program_address}

-- an account of a builder's instruction, in the forms that the libraries give it
pub record AccountMeta : Type 0 where
  pub address : Option Address
  pub pubkey : Option Address
  pub is_signer : Option Bool
  pub is_writable : Option Bool
  pub role : Option ℕ

pub record BuiltInstruction : Type 0 where
  pub accounts : List AccountMeta
  pub payload : List ℕ

-- an instruction of the generated client
pub record Instruction : Type 0 where
  pub program_address : Address
  pub accounts : List InnerAccount
  pub payload : List ℕ

pub record ExecuteTransactionSyncInput : Type 0 where
  pub settings : Address
  pub account_index : ℕ
  pub num_signers : ℕ
  pub instructions : List ℕ

pub record Builders : Type 0 where
  pub get_transfer_checked_instruction : TransferCheckedInput → Result BuiltInstruction
  pub get_execute_transaction_sync_instruction : ExecuteTransactionSyncInput → Result Instruction

unfoldable pub or_false : Option Bool → Bool
or_false none = false
or_false (some b) = b

unfoldable pub role_of : Bool → Bool → ℕ
role_of is_signer is_writable =
    if is_signer && is_writable then 3 else if is_signer then 2 else if is_writable then 1 else 0

unfoldable pub get_account_role : AccountMeta → ℕ
unfolding role_of or_false
get_account_role acc = elim acc.role [
  | some role ↦ role
  | none ↦ role_of (or_false acc.is_signer) (or_false acc.is_writable)
]

unfoldable pub given_address : Option Address → Result Address
given_address none = throw (error "Account meta must have address or pubkey")
given_address (some addr) =
    if addr === "" then throw (error "Account meta must have address or pubkey") else ok addr

-- `acc.address ?? acc.pubkey`
unfoldable pub get_account_address : AccountMeta → Result Address
unfolding given_address
get_account_address acc = elim acc.address [
  | some addr ↦ given_address (some addr)
  | none ↦ given_address acc.pubkey
]

unfoldable pub inner_account : AccountMeta → Result InnerAccount
unfolding get_account_address get_account_role
inner_account acc = do
  addr ← get_account_address acc
  ok (record { address = addr; role = get_account_role acc })

-- `{ address: acc.pubkey, role: getAccountRole(acc) }`
unfoldable pub account_meta : SyncAccountMeta → InnerAccount
unfolding role_of
account_meta acc = record { address = acc.pubkey; role = role_of acc.is_signer acc.is_writable }

module _ (builders : Builders) where
  unfoldable pub build_withdraw_instruction :
      (settings vault vault_ata owner destination_ata : Address) → ℤ → Result Instruction
  unfolding inner_account account_meta compile_to_synchronous_message map_result
  build_withdraw_instruction settings vault vault_ata owner destination_ata amount = do
    transfer ← builders.get_transfer_checked_instruction (record {
      source = vault_ata;
      mint = usdc_mint;
      destination = destination_ata;
      authority = vault;
      amount = amount;
      decimals = usdc_decimals;
    })
    accounts ← map_result inner_account transfer.accounts
    let inner : InnerInstruction = record {
      program_address = token_program_address;
      accounts = accounts;
      payload = transfer.payload;
    }
    message ← compile_to_synchronous_message vault (owner ∷ []) (inner ∷ [])
    sync ← builders.get_execute_transaction_sync_instruction (record {
      settings = settings;
      account_index = 0;
      num_signers = 1;
      instructions = message.instructions;
    })
    ok (record sync { accounts = sync.accounts ++ map account_meta message.accounts })
