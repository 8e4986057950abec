-- ===== src/Tabs/Worker/Echo/Refunds.antt =====
-- What the refund of /api/echo/resource is made of.
use splits.Prelude.{◌≡◌, String, [], ◌∷◌}
use splits.Prelude.Integers.{ℤ, pos}
use splits.Outcome.{ok, >>=-eq-ok}
use splits.Tabs.ApiKey.{TabsApiKeyPayload}
use splits.Tabs.Derive.{derive_smart_account}
use splits.Tabs.Message.{Address}
use splits.Tabs.Worker.{TransferCheckedInput, Kit, usdc_mint, usdc_decimals, token_program_address}
use splits.Tabs.Worker.Echo.{Refund, derive_refund}

-- the price of the echo, from the executor's token account
abbrev pub refund_transfer : (executor executor_ata vault_ata : Address) → TransferCheckedInput
refund_transfer executor executor_ata vault_ata = record {
  source = executor_ata;
  mint = usdc_mint;
  destination = vault_ata;
  authority = executor;
  amount = pos 10000;
  decimals = usdc_decimals;
}

module _ {W I : Type 0} (kit : Kit W I) (executor : Address) (payload : TabsApiKeyPayload) where
  -- the derived addresses of the key's vault and of the two token accounts
  pub record RefundTo (vault : Address) (transfer : TransferCheckedInput) : Type 0 where
    pub settings : Address
    pub vault_ata : Address
    pub executor_ata : Address
    pub settings_given : kit.checked_address payload.settings_pda ≡ ok settings
    pub vault_derived : derive_smart_account kit.get_program_derived_address settings 0 ≡ ok vault
    pub vault_ata_found :
        kit.find_associated_token_pda vault usdc_mint token_program_address ≡ ok vault_ata
    pub executor_ata_found :
        kit.find_associated_token_pda executor usdc_mint token_program_address ≡ ok executor_ata
    pub transfers : transfer ≡ refund_transfer executor executor_ata vault_ata

  -- `wire` is a transaction that the executor pays and signs, of a price and that transfer
  pub record IsRefund (vault : Address) (wire : String) : Type 0 where
    pub transfer : TransferCheckedInput
    pub to_vault : RefundTo vault transfer
    pub price : ℤ
    pub budget : I
    pub instruction : I
    pub blockhash : String
    pub before_blockhash : W
    pub before_signing : W
    pub priced : kit.set_compute_unit_price price ≡ ok budget
    pub built : kit.transfer_checked transfer ≡ ok instruction
    pub answered : (kit.get_latest_blockhash before_blockhash).0 ≡ ok blockhash
    pub signed :
        (kit.sign executor
          (record {
            fee_payer = executor;
            blockhash = blockhash;
            instructions = budget ∷ instruction ∷ [];
          })
          before_signing).0
        ≡ ok wire

  pub derive_refund-RefundTo :
      (r : Refund) → derive_refund kit executor payload ≡ ok r → RefundTo r.smart_account r.transfer
  unfolding derive_refund
  derive_refund-RefundTo r h =
      let (settings, a, h1) = >>=-eq-ok (kit.checked_address payload.settings_pda) _ h in
      let (vault, b, h2) =
        >>=-eq-ok (derive_smart_account kit.get_program_derived_address settings 0) _ h1 in
      let (vault_ata, c, h3) =
        >>=-eq-ok (kit.find_associated_token_pda vault usdc_mint token_program_address) _ h2 in
      let (executor_ata, d, h4) =
        >>=-eq-ok (kit.find_associated_token_pda executor usdc_mint token_program_address) _ h3 in
      record {
        settings = settings;
        vault_ata = vault_ata;
        executor_ata = executor_ata;
        settings_given = a;
        vault_derived = cc;
        vault_ata_found = cc;
        executor_ata_found = d;
        transfers = cc;
      }
