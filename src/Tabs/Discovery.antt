-- ===== src/Tabs/Discovery.antt =====
-- packages/tabs-sdk/src/discovery.ts: the search of a smart account by its owner. The RPC client,
-- the codecs and the generated account decoder are parameters.
pub mod Agrees
use splits.Prelude.{
  ℕ, String, Bool, true, false, Option, none, some, List, [], ◌∷◌, length, ltb, if◌then◌else◌,
}
use splits.Prelude.Integers.{ℤ, times}
use splits.Outcome.{Result}
use splits.Solana.Reads.{read_u64_le}
use splits.Tabs.Action.{Action, pure, lift, outside, ◌>>=◌}
use splits.Tabs.Derive.{
  Seed, smart_account_program, derive_smart_account, derive_spending_limit, derive_ata,
}
use splits.Tabs.Message.{Address}
use splits.Tabs.Worker.{token_program_address}

pub record SpendingLimitConfig : Type 0 where
  pub pda : Address
  pub daily_limit : ℕ
  pub per_tx_limit : ℕ
  pub remaining_today : ℕ
  -- milliseconds
  pub last_reset_at : ℤ

pub record SmartAccountState : Type 0 where
  pub address : Address
  pub vault_address : Address
  pub vault_ata_address : Address
  pub balance : ℕ
  pub spending_limit : Option SpendingLimitConfig

-- the members of the decoded spending limit that are read
pub record SpendingLimitData : Type 0 where
  pub amount : ℕ
  pub remaining_amount : ℕ
  -- seconds
  pub last_reset : ℤ

-- a filter on the bytes at an offset, as a base58 text
pub record Memcmp : Type 0 where
  pub offset : ℕ
  pub bytes : String

pub record Node (W : Type 0) : Type 0 where
  pub get_program_derived_address : Address → List Seed → Result Address
  pub encode_address : Address → Result (List ℕ)
  -- `base58Decoder.decode`
  pub base58_text : List ℕ → String
  -- the program, whether the data is sliced away, and the filters; the addresses that are found
  pub get_program_accounts : Address → Bool → List Memcmp → W → Result (List Address) × W
  pub fetch_maybe_spending_limit : Address → W → Result (Option SpendingLimitData) × W
  -- the bytes of the account's data
  pub get_account_info : Address → W → Result (Option (List ℕ)) × W

-- `SETTINGS_DISCRIMINATOR`
abbrev settings_discriminator : List ℕ
settings_discriminator = 223 ∷ 179 ∷ 163 ∷ 190 ∷ 177 ∷ 224 ∷ 67 ∷ 173 ∷ []

unfoldable pub balance_of : Option (List ℕ) → ℕ
unfolding read_u64_le
balance_of none = 0
balance_of (some bytes) = if ltb (length bytes) 72 then 0 else read_u64_le bytes 64

unfoldable pub config_of : Address → Option SpendingLimitData → Option SpendingLimitConfig
unfolding times
config_of pda none = none
config_of pda (some sl) = some (record {
  pda = pda;
  daily_limit = sl.amount;
  per_tx_limit = sl.amount;
  remaining_today = sl.remaining_amount;
  last_reset_at = times sl.last_reset 1000;
})

module _ {W E : Type 0} (node : Node W) where
  unfoldable pub get_token_balance : Address → Action W E ℕ
  unfolding balance_of
  get_token_balance token_account = do
    info ← outside (node.get_account_info token_account)
    pure (balance_of info)

  -- the settings accounts whose authority is the owner; the source has this query twice, in
  -- fetchSmartAccountStateByOwner and, with the data sliced away, in hasSmartAccount
  unfoldable pub find_settings : Bool → Address → Action W E (List Address)
  find_settings sliced owner = do
    owner_bytes ← lift (node.encode_address owner)
    outside (
        node.get_program_accounts smart_account_program sliced (
          record { offset = 0; bytes = node.base58_text settings_discriminator }
          ∷ record { offset = 24; bytes = node.base58_text owner_bytes }
          ∷ []))

  unfoldable pub find_spending_limit :
      Address → Option Address → Action W E (Option SpendingLimitConfig)
  unfolding config_of derive_spending_limit
  find_spending_limit settings none = pure none
  find_spending_limit settings (some executor) = do
    pda ← lift (derive_spending_limit node.get_program_derived_address settings executor)
    limit ← outside (node.fetch_maybe_spending_limit pda)
    pure (config_of pda limit)

  -- the token account and its balance; the vault and 0 without a mint
  unfoldable pub find_balance : Address → Option Address → Action W E (Address × ℕ)
  unfolding get_token_balance derive_ata
  find_balance vault none = pure (vault, 0)
  find_balance vault (some mint) = do
    ata ← lift (derive_ata node.get_program_derived_address vault mint token_program_address)
    balance ← get_token_balance ata
    pure (ata, balance)

  unfoldable pub state_of :
      List Address → Option Address → Option Address → Action W E (Option SmartAccountState)
  unfolding find_spending_limit find_balance derive_smart_account
  state_of [] executor mint = pure none
  state_of (settings ∷ others) executor mint = do
    vault ← lift (derive_smart_account node.get_program_derived_address settings 0)
    limit ← find_spending_limit settings executor
    balance ← find_balance vault mint
    pure (
        some (record {
          address = settings;
          vault_address = vault;
          vault_ata_address = balance.0;
          balance = balance.1;
          spending_limit = limit;
        }))

  unfoldable pub fetch_smart_account_state_by_owner :
      Address → Option Address → Option Address → Action W E (Option SmartAccountState)
  unfolding find_settings state_of
  fetch_smart_account_state_by_owner owner executor mint = do
    accounts ← find_settings false owner
    state_of accounts executor mint

  unfoldable pub has_smart_account : Address → Action W E Bool
  unfolding find_settings
  has_smart_account owner = do accounts ← find_settings true owner; pure (ltb 0 (length accounts))
