-- ===== src/Tabs/Squads/Withdraw/Transfers.antt =====
-- A withdrawal executes the transfer that the token program's builder gives, and nothing else.
use splits.Tabs.Message.Accounts.{named}
use splits.Prelude.{
  ◌≡◌, ℕ, ◌+◌, not, ◌&&◌, ◌||◌, some, List, [], ◌∷◌, ◌++◌, map, ◌===◌, if◌then◌else◌, All,
}
use splits.Prelude.Integers.{ℤ}
use splits.Outcome.{ok}
use splits.Tabs.Message.{Address, InnerAccount, InnerInstruction, listed}
use splits.Tabs.Message.Decode.{Compiled, decode}
use splits.Tabs.Message.Flags.{any_written, any_signed}
use splits.Tabs.Message.Refines.{resolved, original}
use splits.Tabs.Worker.{TransferCheckedInput, usdc_mint, usdc_decimals, token_program_address}
use splits.Tabs.Squads.Withdraw.{Instruction, Builders}

abbrev pub withdrawal : (vault vault_ata destination_ata : Address) → ℤ → TransferCheckedInput
withdrawal vault vault_ata destination_ata amount = record {
  source = vault_ata;
  mint = usdc_mint;
  destination = destination_ata;
  authority = vault;
  amount = amount;
  decimals = usdc_decimals;
}

abbrev pub inner_transfer : List InnerAccount → List ℕ → InnerInstruction
inner_transfer accounts payload = record {
  program_address = token_program_address;
  accounts = accounts;
  payload = payload;
}

-- the role of a withdrawal's account: 2 for one that signs, which are the owner and, but for the
-- vault, the signers of the transfer; 1 more for one that the transfer writes
abbrev pub withdrawal_role : (vault owner : Address) → InnerInstruction → Address → ℕ
withdrawal_role vault owner inner k =
    (if listed (owner ∷ []) k || (not (k === vault) && any_signed (inner ∷ []) k) then 2 else 0)
    + (if any_written (inner ∷ []) k then 1 else 0)

-- `out` executes the instruction `inner` for the settings' vault, signed by the owner
pub record Withdraws (builders : Builders) (settings vault owner : Address)
    (inner : InnerInstruction) (out : Instruction) : Type 0 where
  pub sync : Instruction
  pub bytes : List ℕ
  pub further : List InnerAccount
  pub compiled : Compiled
  pub executed :
      builders.get_execute_transaction_sync_instruction
        (record { settings = settings; account_index = 0; num_signers = 1; instructions = bytes })
      ≡ ok sync
  pub program : out.program_address ≡ sync.program_address
  pub payload : out.payload ≡ sync.payload
  pub accounts : out.accounts ≡ sync.accounts ++ further
  pub decoded : decode bytes ≡ some (compiled ∷ [])
  pub resolves : resolved (map (λ a. a.address) further) compiled ≡ original inner
  pub needed :
      (k : Address)
      → listed (map (λ a. a.address) further) k ≡ (named (inner ∷ []) k || listed (owner ∷ []) k)
  pub roles : All (λ a. a.role ≡ withdrawal_role vault owner inner a.address) further
