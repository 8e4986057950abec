-- ===== src/Tabs/Builders.antt =====
-- The instruction builders of packages/tabs-sdk/src/helpers.ts. The generated builders, to which
-- they pass their inputs, are parameters.
use splits.Prelude.{ℕ, String, Option, none, some, List, [], ◌∷◌, ◌++◌}
use splits.Prelude.Integers.{ℤ, pos}
use splits.Outcome.{Result, ok, ◌>>=◌}
use splits.Tabs.Derive.{
  Seed, smart_account_program, derive_settings, derive_smart_account, derive_spending_limit,
}
use splits.Tabs.Message.{Address}
use splits.Tabs.Squads.Withdraw.{Instruction}

-- a signer with the mask of its permissions
pub record SmartAccountSigner : Type 0 where
  pub key : Address
  pub mask : ℕ

pub record CreateSmartAccountInput : Type 0 where
  pub program_config_address : Address
  pub treasury_address : Address
  pub creator_address : Address
  pub settings_authority : Address
  pub threshold : ℕ
  pub signers : List SmartAccountSigner
  pub time_lock : ℕ
  pub rent_collector : Address
  pub memo : Option String

pub record CreateSmartAccountResult : Type 0 where
  pub instruction : Instruction
  pub settings_address : Address
  pub vault_address : Address

pub record AddSpendingLimitInput : Type 0 where
  pub settings_address : Address
  pub settings_authority_address : Address
  pub executor_address : Address
  pub mint : Address
  pub amount : ℤ
  -- the number of the `Period`
  pub period : ℕ
  pub destinations : Option (List Address)
  pub expiration : Option ℤ
  pub memo : Option String

pub record AddSpendingLimitResult : Type 0 where
  pub instruction : Instruction
  pub spending_limit_address : Address

-- the input of the generated builder
pub record AddSpendingLimitAsAuthority : Type 0 where
  pub settings : Address
  pub settings_authority : Address
  pub spending_limit : Address
  pub rent_payer : Address
  pub program : Address
  pub seed : Address
  pub account_index : ℕ
  pub mint : Address
  pub amount : ℤ
  pub period : ℕ
  pub signers : List Address
  pub destinations : List Address
  pub expiration : ℤ
  pub memo : Option String

pub record RemoveSpendingLimitInput : Type 0 where
  pub settings_address : Address
  pub settings_authority_address : Address
  pub spending_limit_address : Address
  pub rent_collector : Address
  pub memo : Option String

pub record Generated : Type 0 where
  pub get_program_derived_address : Address → List Seed → Result Address
  -- with the program's address
  pub create_smart_account : Address → CreateSmartAccountInput → Result Instruction
  pub add_spending_limit_as_authority : AddSpendingLimitAsAuthority → Result Instruction
  pub remove_spending_limit_as_authority : Address → RemoveSpendingLimitInput → Result Instruction

abbrev i64_max : ℤ
i64_max = pos 9223372036854775807

unfoldable pub or_default : {A : Type 0} → A → Option A → A
or_default a none = a
or_default a (some b) = b

module _ (gen : Generated) where
  -- the settings are added as a writable account
  unfoldable pub build_create_smart_account_instruction :
      ℤ → CreateSmartAccountInput → Result CreateSmartAccountResult
  unfolding derive_settings derive_smart_account
  build_create_smart_account_instruction account_index input = do
    settings ← derive_settings gen.get_program_derived_address account_index
    vault ← derive_smart_account gen.get_program_derived_address settings 0
    base ← gen.create_smart_account smart_account_program input
    ok (record {
      instruction = record base {
        accounts = base.accounts ++ record { address = settings; role = 1 } ∷ [];
      };
      settings_address = settings;
      vault_address = vault;
    })

  unfoldable pub build_add_spending_limit_instruction :
      AddSpendingLimitInput → Result AddSpendingLimitResult
  unfolding derive_spending_limit or_default
  build_add_spending_limit_instruction input = do
    spending_limit ←
        derive_spending_limit gen.get_program_derived_address input.settings_address
          input.executor_address
    instruction ← gen.add_spending_limit_as_authority (record {
      settings = input.settings_address;
      settings_authority = input.settings_authority_address;
      spending_limit = spending_limit;
      rent_payer = input.settings_authority_address;
      program = smart_account_program;
      seed = input.executor_address;
      account_index = 0;
      mint = input.mint;
      amount = input.amount;
      period = input.period;
      signers = input.executor_address ∷ [];
      destinations = or_default [] input.destinations;
      expiration = or_default i64_max input.expiration;
      memo = input.memo;
    })
    ok (record { instruction = instruction; spending_limit_address = spending_limit })

  unfoldable pub build_remove_spending_limit_instruction :
      RemoveSpendingLimitInput → Result Instruction
  build_remove_spending_limit_instruction input =
      gen.remove_spending_limit_as_authority smart_account_program input
