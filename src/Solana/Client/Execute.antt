-- ===== src/Solana/Client/Execute.antt =====
-- executeImpl, packages/splits-sdk/src/client/execute.ts: one retry after a stale protocol config.
pub mod Trace
use mathlib.Core.Option
use splits.Prelude.{
  ℕ, String, Bool, true, false, not, ◌&&◌, ◌||◌, Option, none, some, List, [], ◌∷◌, if◌then◌else◌,
}
use splits.Prelude.Text.{includes}
use splits.Outcome.{
  Result, ok, throw, Thrown, splits_error, wallet_rejected_error, wallet_disconnected_error, error,
  not_an_error, splits_error_message, ◌>>=◌ as ◌>>=ʳ◌,
}
use splits.Solana.Types.{Address, Signature, SplitConfig, Commitment, Instruction}
use splits.Solana.Network.{Network}
use splits.Solana.Action.{Store, Action, pure, lift, gets, attempt, ◌>>=◌, ◌>>◌, return_if}
use splits.Solana.Reads.{find_split_config, invalidate_protocol_config_cache}
use splits.Solana.Detect.{detect_token_program}
use splits.Solana.Instructions.{
  ExecuteSplitResult, success, not_found, not_a_split, execute_split_instruction,
}
use splits.Solana.Client.Results as results
use splits.Solana.Client.Results.{ExecuteResult, executed, skipped, failed, transaction_expired}
use splits.Solana.Client.Messages.{not_found_message, not_a_split_message}
use splits.Solana.Client.Failures.{handle_transaction_error}
use splits.Solana.Client.Transaction.{BuildOptions, submit}

-- the options of `execute`, with those of the client
pub record ExecuteOptions : Type 0 where
  pub commitment : Option Commitment
  pub compute_unit_price : Option ℕ
  pub compute_unit_limit : Option ℕ
  pub has_abort_signal : Bool

abbrev pub execute_build_options : ExecuteOptions → BuildOptions
execute_build_options options = record {
  compute_unit_limit = options.compute_unit_limit;
  compute_unit_price = options.compute_unit_price;
}

-- the `message` of an `Error`
unfoldable pub error_message : Thrown → Option String
unfolding splits_error_message
error_message (splits_error e) = some (splits_error_message e)
error_message wallet_rejected_error =
    some "Transaction rejected by user. Please approve to continue."
error_message wallet_disconnected_error =
    some "Wallet disconnected. Please reconnect and try again."
error_message (error message) = some message
error_message not_an_error = none

-- `isProgramError(e, 6004)`: `(6004).toString(16)` is 1774
unfoldable pub stale_message : Option String → Bool
unfolding includes
stale_message none = false
stale_message (some message) =
    includes message "custom program error: 0x1774" || includes message "Error Code: 6004"

unfoldable pub is_stale_config_error : Thrown → Bool
unfolding stale_message error_message
is_stale_config_error e = stale_message (error_message e)

-- `e instanceof Error ? e : new Error(String(e))`, where `shown` is `String(e)`
unfoldable pub as_error : String → Thrown → Thrown
as_error shown not_an_error = error shown
as_error shown e = e

unfoldable pub aborted_result : String → Thrown → ExecuteResult
unfolding as_error
aborted_result shown e = failed (record {
  reason = transaction_expired;
  message = "Transaction was aborted";
  error = as_error shown e;
})

-- the result where the instruction was not built
unfoldable pub skip : Address → ExecuteResult
unfolding not_found_message
skip split_config = skipped results.not_found (not_found_message split_config)

module _ {W : Type 0} (net : Network W) (shown : String) (wallet : Address) (split_config : Address)
    (options : ExecuteOptions) where
  -- the `catch`; `again` is the recursive call, absent in a retry
  unfoldable pub execute_caught : Option (Action W ExecuteResult) → Thrown → Action W ExecuteResult
  unfolding handle_transaction_error
  execute_caught none e = lift (◌>>=ʳ◌ (handle_transaction_error e) (λ r. ok (failed r)))
  execute_caught (some again) e =
      if is_stale_config_error e
      then invalidate_protocol_config_cache net >> again
      else lift (◌>>=ʳ◌ (handle_transaction_error e) (λ r. ok (failed r)))

  unfoldable pub execute_outcome :
      Option (Action W ExecuteResult) → Result Signature → Action W ExecuteResult
  unfolding execute_caught aborted_result
  execute_outcome again (ok signature) = pure (executed signature)
  execute_outcome again (throw e) = do
    is_aborted ← gets (λ s. net.is_aborted s.world)
    return_if (options.has_abort_signal && is_aborted) (aborted_result shown e)
        (execute_caught again e)

  -- step 4
  unfoldable pub execute_built :
      Option (Action W ExecuteResult) → ExecuteSplitResult → Action W ExecuteResult
  unfolding execute_outcome skip not_a_split_message
  execute_built again (not_a_split a) =
      pure (skipped results.not_a_split (not_a_split_message split_config))
  execute_built again (not_found a) = pure (skip split_config)
  execute_built again (success instruction) = do
    outcome ← attempt (
        submit net wallet (instruction ∷ []) (execute_build_options options) options.commitment
          options.has_abort_signal)
    execute_outcome again outcome

  -- steps 2 and 3
  unfoldable pub execute_existing :
      Option (Action W ExecuteResult) → Option SplitConfig → Action W ExecuteResult
  unfolding execute_built skip
  execute_existing again none = pure (skip split_config)
  execute_existing again (some config) = do
    program ← detect_token_program net config.mint
    result ← execute_split_instruction net split_config wallet (some program)
    execute_built again result

  unfoldable pub execute_once : Option (Action W ExecuteResult) → Action W ExecuteResult
  unfolding execute_existing
  execute_once again = do config ← find_split_config net split_config; execute_existing again config

  -- `is_retry` is `options._isRetry`
  unfoldable pub execute_impl : Bool → Action W ExecuteResult
  unfolding execute_once
  execute_impl true = execute_once none
  execute_impl false = execute_once (some (execute_once none))
