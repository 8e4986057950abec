-- ===== src/Evm/Ensure.antt =====
-- ensureSplit, packages/splits-sdk-evm/src/ensure.ts.
pub mod Trace
use Prim.Native.String.{len}
use mathlib.Core.Option
use splits.Prelude.{ℕ, String, Bool, true, false, not, Option, none, some, List, ◌==◌, ltb}
use splits.Prelude.Text.{◌<>◌, show}
use splits.Outcome.{Result, ok, throw}
use splits.Evm.Types.{
  Address, EvmRecipient, EvmEnsureParams, EvmEnsureResult, created, no_change, failed, Clients,
  create_split_config, wallet_disconnected, transaction_failed, EvmFailure,
}
use splits.Evm.Action.{Action, pure, lift, outside, attempt, ◌>>=◌, return_if, write_contract}
use splits.Evm.Helpers.{usdc_address, to_evm_recipients, total_bps}
use splits.Evm.Failures.{classify_error}

abbrev pub account_not_connected : EvmFailure
account_not_connected = record {
  reason = wallet_disconnected;
  message = "Wallet account not connected";
  error = none;
}

unfoldable pub wrong_total : ℕ → EvmFailure
unfolding show ◌<>◌
wrong_total total = record {
  reason = transaction_failed;
  message = "Recipients must sum to 9900 bps (99%), got " <> show total;
  error = none;
}

-- `code && code.length > 0`
unfoldable pub is_deployed : Option String → Bool
is_deployed none = false
is_deployed (some code) = ltb 0 (len code)

-- the result of the `try`, or the `catch`
unfoldable pub ensure_outcome : String → Result EvmEnsureResult → Result EvmEnsureResult
unfolding classify_error
ensure_outcome shown (ok result) = ok result
ensure_outcome shown (throw e) = ok (failed (classify_error shown e))

-- `params.token ?? getDefaultToken(chainId)`
unfoldable pub token_or_default : Option Address → ℕ → Result Address
unfolding usdc_address
token_or_default (some token) chain_id = ok token
token_or_default none chain_id = usdc_address chain_id

module _ {W : Type 0} (clients : Clients W) (shown : String) (factory : Address)
    (params : EvmEnsureParams) where
  -- the creation, where no code stands at the address
  unfoldable pub create_at :
      Address → Address → List EvmRecipient → Address → Action W EvmEnsureResult
  unfolding write_contract
  create_at authority token recipients predicted = do
    hash ←
        write_contract clients
          (create_split_config factory authority token params.unique_id recipients)
    receipt ← outside (clients.wait_for_transaction_receipt hash)
    pure (created predicted hash)

  -- the body of the `try`
  unfoldable pub ensure_body : Address → Address → List EvmRecipient → Action W EvmEnsureResult
  unfolding create_at is_deployed
  ensure_body authority token recipients = do
    predicted ←
        outside (clients.predict_split_address factory authority token params.unique_id recipients)
    code ← outside (clients.get_bytecode predicted)
    return_if (is_deployed code) (no_change predicted)
        (create_at authority token recipients predicted)

  unfoldable pub ensure_with : Address → Action W EvmEnsureResult
  unfolding ensure_body ensure_outcome wrong_total token_or_default to_evm_recipients total_bps
  ensure_with account = do
    chain_id ← outside clients.get_chain_id
    token ← lift (token_or_default params.token chain_id)
    recipients ← lift (to_evm_recipients clients params.recipients)
    return_if (not (total_bps recipients == 9900)) (failed (wrong_total (total_bps recipients))) (do
      outcome ← attempt (ensure_body (Option.get_or params.authority account) token recipients)
      lift (ensure_outcome shown outcome))

  unfoldable pub ensure_connected : Option Address → Action W EvmEnsureResult
  unfolding ensure_with
  ensure_connected none = pure (failed account_not_connected)
  ensure_connected (some account) = ensure_with account

  unfoldable pub ensure_split : Action W EvmEnsureResult
  unfolding ensure_connected
  ensure_split = ensure_connected clients.account
