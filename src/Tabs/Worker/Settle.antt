-- ===== src/Tabs/Worker/Settle.antt =====
-- POST /api/settle of apps/tabs/src/worker/index.ts.
pub mod Safety
use splits.Prelude.{◌≡◌, refl, ℕ, String, Bool, true, false, Option, none, some, List, [], ◌∷◌}
use splits.Prelude.Text.{codes}
use splits.Prelude.Integers.{ℤ, greater}
use splits.Outcome.{Result, ok, throw, Thrown, error, big_int, bind_result}
use splits.Tabs.Action.{Action, Store, pure, lift, outside, return_if, ◌>>=◌}
use splits.Tabs.ApiKey.{TabsApiKeyPayload, decode_tabs_api_key}
use splits.Tabs.Base58.{base58_decode}
use splits.Tabs.Derive.{derive_smart_account}
use splits.Tabs.Message.{Address}
use splits.Tabs.Worker.{
  Bindings, UseSpendingLimitInput, CreateAtaInput, Message, Kit, Event, usdc_mint, usdc_decimals,
  token_program_address, get_priority_fee_estimate, message_or, catching,
}

pub record SettleRequest : Type 0 where
  pub api_key : String
  pub pay_to : String
  pub amount : String

pub data SettleReply : Type 0 where
  -- status and error
  not_settled : ℕ → String → SettleReply
  -- the signed transaction
  settled : String → SettleReply

-- the accounts of a payment
pub record Payment : Type 0 where
  pub executor : Address
  pub settings : Address
  pub spending_limit : Address
  pub smart_account : Address
  pub vault_ata : Address
  pub destination : Address
  pub destination_ata : Address
  pub amount : ℤ

abbrev pub create_ata_input : Payment → CreateAtaInput
create_ata_input p = record {
  payer = p.executor;
  owner = p.destination;
  mint = usdc_mint;
  ata = p.destination_ata;
  token_program = token_program_address;
}

abbrev pub use_spending_limit_input : Payment → UseSpendingLimitInput
use_spending_limit_input p = record {
  settings = p.settings;
  signer = p.executor;
  spending_limit = p.spending_limit;
  smart_account = p.smart_account;
  destination = p.destination;
  mint = usdc_mint;
  smart_account_token_account = p.vault_ata;
  destination_token_account = p.destination_ata;
  token_program = token_program_address;
  amount = p.amount;
  decimals = usdc_decimals;
}

module _ {W I : Type 0} (kit : Kit W I) where
  -- from the derived addresses on
  unfoldable pub derive_payment : Address → TabsApiKeyPayload → Address → ℤ → Result Payment
  unfolding derive_smart_account
  derive_payment executor payload destination amount =
      bind_result (kit.checked_address payload.settings_pda) λ settings.
        bind_result (kit.checked_address payload.spending_limit_pda) λ spending_limit.
          bind_result (derive_smart_account kit.get_program_derived_address settings 0)
            λ smart_account.
              bind_result
                (kit.find_associated_token_pda smart_account usdc_mint token_program_address)
                λ vault_ata.
                  bind_result
                    (kit.find_associated_token_pda destination usdc_mint token_program_address)
                    λ destination_ata. ok (record {
                      executor = executor;
                      settings = settings;
                      spending_limit = spending_limit;
                      smart_account = smart_account;
                      vault_ata = vault_ata;
                      destination = destination;
                      destination_ata = destination_ata;
                      amount = amount;
                    })

  unfoldable pub sign_payment : String → Payment → Action W Event SettleReply
  unfolding get_priority_fee_estimate
  sign_payment rpc_url p = do
    create_ata ← lift (kit.create_associated_token_idempotent (create_ata_input p))
    use_spending_limit ← lift (kit.use_spending_limit (use_spending_limit_input p))
    priority_fee ← get_priority_fee_estimate kit rpc_url
    compute_budget ← lift (kit.set_compute_unit_price priority_fee)
    blockhash ← outside kit.get_latest_blockhash
    tx ← outside (
        kit.sign p.executor (record {
          fee_payer = p.executor;
          blockhash = blockhash;
          instructions = compute_budget ∷ create_ata ∷ use_spending_limit ∷ [];
        }))
    pure (settled tx)

  unfoldable pub settle_with :
      String → String → TabsApiKeyPayload → Address → ℤ → Action W Event SettleReply
  unfolding base58_decode derive_payment sign_payment
  settle_with rpc_url executor_key payload destination amount = do
    executor_bytes ← lift (base58_decode executor_key)
    executor ← outside (kit.create_key_pair_signer_from_bytes executor_bytes)
    p ← lift (derive_payment executor payload destination amount)
    sign_payment rpc_url p

  -- `!c.env.HELIUS_RPC_URL || !c.env.EXECUTOR_KEY`
  unfoldable pub settle_in :
      Option String → Option String → TabsApiKeyPayload → Address → ℤ → Action W Event SettleReply
  unfolding settle_with
  settle_in (some rpc_url) (some key) payload destination amount =
      settle_with rpc_url key payload destination amount
  settle_in rpc_url key payload destination amount = pure (not_settled 500 "Server misconfigured")

  unfoldable pub settle_payload :
      Bindings → SettleRequest → Option TabsApiKeyPayload → Action W Event SettleReply
  unfolding big_int greater return_if settle_in
  settle_payload env request none = pure (not_settled 400 "Invalid API key")
  settle_payload env request (some payload) = do
    amount ← lift (big_int request.amount)
    destination ← lift (kit.checked_address request.pay_to)
    return_if (greater amount payload.per_tx_max) (not_settled 400 "Amount exceeds per-tx limit")
        (settle_in env.helius_rpc_url env.executor_key payload destination amount)

  -- `parsed` is what `c.req.json` gives
  unfoldable pub settle : Bindings → Result SettleRequest → Action W Event SettleReply
  unfolding settle_payload decode_tabs_api_key codes catching message_or
  settle env parsed =
      catching (λ e. not_settled 500 (message_or "Unknown error" e))
        (do
          request ← lift parsed
          settle_payload env request (decode_tabs_api_key kit.codec (codes request.api_key)))
