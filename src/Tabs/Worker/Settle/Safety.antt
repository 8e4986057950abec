-- ===== src/Tabs/Worker/Settle/Safety.antt =====
-- What POST /api/settle signs, and that it always answers.
use splits.Prelude.{◌≡◌, ◌⊎◌, String, false, some, List, [], ◌∷◌}
use splits.Prelude.Text.{codes}
use splits.Prelude.Integers.{ℤ, greater}
use splits.Outcome.{Result, ok, throw, big_int}
use splits.Tabs.ApiKey.{TabsApiKeyPayload, decode_tabs_api_key}
use splits.Tabs.Derive.{derive_smart_account}
use splits.Tabs.Worker.{Kit, Event, usdc_mint, token_program_address}
use splits.Tabs.Worker.Settle.{
  SettleRequest, SettleReply, not_settled, settled, Payment, create_ata_input,
  use_spending_limit_input,
}

module _ {W I : Type 0} (kit : Kit W I) where
  -- the accounts are those that the key and the destination stand for
  abbrev pub Derived : TabsApiKeyPayload → Payment → Type 0
  Derived payload p =
      (kit.checked_address payload.settings_pda ≡ ok p.settings)
      × (kit.checked_address payload.spending_limit_pda ≡ ok p.spending_limit)
      × (derive_smart_account kit.get_program_derived_address p.settings 0 ≡ ok p.smart_account)
      × (kit.find_associated_token_pda p.smart_account usdc_mint token_program_address
          ≡ ok p.vault_ata)
      × (kit.find_associated_token_pda p.destination usdc_mint token_program_address
          ≡ ok p.destination_ata)

  -- the instructions of the message that was signed: the price of compute units, the token account
  -- of the destination, and the transfer under the spending limit
  abbrev pub Signed : Payment → String → Type 0
  Signed p tx =
      (fee : ℤ) × (compute_budget : I) × (create_ata : I) × (use_spending_limit : I)
      × (blockhash : String) × (w : W) × (kit.set_compute_unit_price fee ≡ ok compute_budget)
      × (kit.create_associated_token_idempotent (create_ata_input p) ≡ ok create_ata)
      × (kit.use_spending_limit (use_spending_limit_input p) ≡ ok use_spending_limit)
      × ((kit.sign p.executor
            (record {
              fee_payer = p.executor;
              blockhash = blockhash;
              instructions = compute_budget ∷ create_ata ∷ use_spending_limit ∷ [];
            })
            w).0
          ≡ ok tx)

  -- the request, its key and the payment of a transaction that was signed
  abbrev pub Authorised : Result SettleRequest → String → Type 0
  Authorised parsed tx =
      (request : SettleRequest) × (payload : TabsApiKeyPayload) × (p : Payment) × (parsed
        ≡ ok request)
      × (decode_tabs_api_key kit.codec (codes request.api_key) ≡ some payload)
      × (big_int request.amount ≡ ok p.amount)
      × (greater p.amount payload.per_tx_max ≡ false)
      × (kit.checked_address request.pay_to ≡ ok p.destination)
      × Derived payload p
      × Signed p tx

  abbrev pub Answered : Result SettleRequest → Result SettleReply → Type 0
  Answered parsed (throw e) = ⊥
  Answered parsed (ok (not_settled status text)) = (status ≡ 400) ⊎ (status ≡ 500)
  Answered parsed (ok (settled tx)) = Authorised parsed tx

  -- the same, before the `catch`
  abbrev Ran : List Event → Result SettleRequest → Result SettleReply → List Event → Type 0
  Ran start parsed (throw e) t = t ≡ start
  Ran start parsed (ok reply) t = (t ≡ start) × Answered parsed (ok reply)
