-- ===== src/Tabs/Worker/Echo.antt =====
-- /api/echo/resource of apps/tabs/src/worker/index.ts: it asks for a payment, submits the one it
-- is given, and refunds it.
pub mod Phases
pub mod Refunds
pub mod Paid
pub mod Order
use splits.Prelude.{
  ◌≡◌, refl, ℕ, zero, suc, String, Bool, true, false, ◌||◌, Option, none, some, List, [], ◌∷◌,
  ◌===◌,
}
use splits.Prelude.Text.{codes}
use splits.Prelude.Integers.{ℤ, pos}
use splits.Outcome.{Result, ok, throw, Thrown, error, bind_result}
use splits.Tabs.Action.{Action, Store, pure, lift, outside, observed, return_if, ◌>>=◌}
use splits.Tabs.ApiKey.{TabsApiKeyPayload, decode_tabs_api_key}
use splits.Tabs.Base58.{base58_decode}
use splits.Tabs.Derive.{derive_smart_account}
use splits.Tabs.Message.{Address}
use splits.Tabs.Worker.{
  Bindings, TransferCheckedInput, SignatureStatus, Message, Kit, Event, sent, polled, usdc_mint,
  usdc_decimals, token_program_address, get_priority_fee_estimate, message_or, catching,
}

-- the members of the header's JSON that the handler reads
pub record PaymentHeader : Type 0 where
  pub transaction : Option String
  pub tabs_api_key : Option String

pub data EchoReply : Type 0 where
  -- status and error
  refused : ℕ → String → EchoReply
  -- 402, to be paid to this address
  payment_required : Address → EchoReply
  -- the payment's signature
  refund_skipped : String → EchoReply
  -- the two signatures, and the vault
  refunded : (payment refund vault : String) → EchoReply

-- `ECHO_PRICE`
abbrev pub echo_price : ℤ
echo_price = pos 10000

unfoldable pub is_confirmed : Option SignatureStatus → Bool
is_confirmed none = false
is_confirmed (some status) = elim status.confirmation_status [
  | none ↦ false
  | some level ↦ level === "confirmed" || level === "finalized"
]

-- a member that is missing or an empty text
unfoldable pub truthy : Option String → Option String
truthy none = none
truthy (some text) = elim (text === "") [ true ↦ none | false ↦ some text ]

-- where the refund goes
pub record Refund : Type 0 where
  pub smart_account : Address
  pub transfer : TransferCheckedInput

module _ {W I : Type 0} (kit : Kit W I) where
  unfoldable pub send : String → Action W Event String
  send wire = observed (kit.send_transaction wire) (sent wire)

  -- the `for` loop, with the rounds that are left
  unfoldable pub await_confirmation : ℕ → String → Action W Event Bool
  unfolding is_confirmed return_if
  await_confirmation zero signature = pure false
  await_confirmation (suc rounds) signature = do
    status ← observed (kit.get_signature_status signature) (polled signature)
    return_if (is_confirmed status) true (await_confirmation rounds signature)

  unfoldable pub derive_refund : Address → TabsApiKeyPayload → Result Refund
  unfolding derive_smart_account
  derive_refund executor payload =
      bind_result (kit.checked_address payload.settings_pda) λ settings.
        bind_result (derive_smart_account kit.get_program_derived_address settings 0)
          λ smart_account.
            bind_result
              (kit.find_associated_token_pda smart_account usdc_mint token_program_address)
              λ vault_ata.
                bind_result (kit.find_associated_token_pda executor usdc_mint token_program_address)
                  λ executor_ata. ok (record {
                    smart_account = smart_account;
                    transfer = record {
                      source = executor_ata;
                      mint = usdc_mint;
                      destination = vault_ata;
                      authority = executor;
                      amount = echo_price;
                      decimals = usdc_decimals;
                    };
                  })

  unfoldable pub refund : String → Address → TabsApiKeyPayload → String → Action W Event EchoReply
  unfolding derive_refund get_priority_fee_estimate send
  refund rpc_url executor payload payment = do
    r ← lift (derive_refund executor payload)
    transfer ← lift (kit.transfer_checked r.transfer)
    priority_fee ← get_priority_fee_estimate kit rpc_url
    compute_budget ← lift (kit.set_compute_unit_price priority_fee)
    blockhash ← outside kit.get_latest_blockhash
    tx ← outside (
        kit.sign executor (record {
          fee_payer = executor;
          blockhash = blockhash;
          instructions = compute_budget ∷ transfer ∷ [];
        }))
    signature ← send tx
    pure (refunded payment signature r.smart_account)

  unfoldable pub refund_if :
      Bool → String → Address → TabsApiKeyPayload → String → Action W Event EchoReply
  unfolding refund
  refund_if true rpc_url executor payload payment = refund rpc_url executor payload payment
  refund_if false rpc_url executor payload payment = pure (refund_skipped payment)

  unfoldable pub submit :
      String → Address → String → Option TabsApiKeyPayload → Action W Event EchoReply
  unfolding send await_confirmation refund_if
  submit rpc_url executor tx none = pure (refused 400 "Invalid tabsApiKey")
  submit rpc_url executor tx (some payload) = do
    payment ← send tx
    confirmed ← await_confirmation 30 payment
    refund_if confirmed rpc_url executor payload payment

  unfoldable pub echo_paid :
      String → Address → Option String → Option String → Action W Event EchoReply
  unfolding submit decode_tabs_api_key codes
  echo_paid rpc_url executor none key = pure (refused 400 "Missing transaction in payload")
  echo_paid rpc_url executor (some tx) none = pure (refused 400 "Missing tabsApiKey in payload")
  echo_paid rpc_url executor (some tx) (some key) =
      submit rpc_url executor tx (decode_tabs_api_key kit.codec (codes key))

  -- `header` is what `JSON.parse(atob(paymentHeader))` gives, none without the header
  unfoldable pub echo_header :
      String → Address → Option (Result PaymentHeader) → Action W Event EchoReply
  unfolding echo_paid truthy catching message_or
  echo_header rpc_url executor none = pure (payment_required executor)
  echo_header rpc_url executor (some header) =
      catching (λ e. refused 400 (message_or "Payment verification failed" e))
        (do
          decoded ← lift header
          echo_paid rpc_url executor (truthy decoded.transaction) (truthy decoded.tabs_api_key))

  unfoldable pub echo_in :
      Option String → Option String → Option (Result PaymentHeader) → Action W Event EchoReply
  unfolding base58_decode echo_header
  echo_in (some rpc_url) (some key) header = do
    executor_bytes ← lift (base58_decode key)
    executor ← outside (kit.create_key_pair_signer_from_bytes executor_bytes)
    echo_header rpc_url executor header
  echo_in rpc_url key header = pure (refused 500 "Server misconfigured")

  unfoldable pub echo : Bindings → Option (Result PaymentHeader) → Action W Event EchoReply
  unfolding echo_in
  echo env header = echo_in env.helius_rpc_url env.executor_key header
