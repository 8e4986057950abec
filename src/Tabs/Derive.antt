-- ===== src/Tabs/Derive.antt =====
-- The derived addresses of packages/tabs-sdk/src/helpers.ts. `getProgramDerivedAddress` of
-- @solana/kit, with the encoders of its seeds, is a parameter: it throws on a text that is no
-- address and on a number that does not fit its width.
use splits.Prelude.{ℕ, String, List, [], ◌∷◌}
use splits.Prelude.Integers.{ℤ, pos}
use splits.Outcome.{Result}
use splits.Tabs.Message.{Address}

pub data Seed : Type 0 where
  text_seed : String → Seed
  address_seed : Address → Seed
  -- the bytes of the encoder, and the number
  number_seed : ℕ → ℤ → Seed

abbrev pub smart_account_program : Address
smart_account_program = "SMRTzfY6DfH5ik3TKiyLFfXexV8uSG3d2UksSCYdunG"

abbrev pub associated_token_program_id : Address
associated_token_program_id = "ATokenGPvbdGVxr1b2hvZbsiqW5xWH25efTNsLJA8knL"

module _ (get_program_derived_address : Address → List Seed → Result Address) where
  unfoldable pub derive_program_config : Result Address
  derive_program_config =
      get_program_derived_address smart_account_program
        (text_seed "smart_account" ∷ text_seed "program_config" ∷ [])

  unfoldable pub derive_settings : ℤ → Result Address
  derive_settings account_index =
      get_program_derived_address smart_account_program
        (text_seed "smart_account" ∷ text_seed "settings" ∷ number_seed 16 account_index ∷ [])

  unfoldable pub derive_smart_account : Address → ℕ → Result Address
  derive_smart_account settings_pda vault_index =
      get_program_derived_address smart_account_program (
        text_seed "smart_account"
        ∷ address_seed settings_pda
        ∷ text_seed "smart_account"
        ∷ number_seed 1 (pos vault_index)
        ∷ [])

  unfoldable pub derive_spending_limit : Address → Address → Result Address
  derive_spending_limit settings_pda seed = get_program_derived_address smart_account_program (
      text_seed "smart_account"
      ∷ address_seed settings_pda
      ∷ text_seed "spending_limit"
      ∷ address_seed seed
      ∷ [])

  unfoldable pub derive_ata : Address → Address → Address → Result Address
  derive_ata owner mint token_program =
      get_program_derived_address associated_token_program_id
        (address_seed owner ∷ address_seed token_program ∷ address_seed mint ∷ [])
