-- ===== src/Evm/Execute.antt =====
-- executeSplit, packages/splits-sdk-evm/src/execute.ts.
pub mod Trace
use splits.Prelude.{ℕ, String, Bool, not, Option, none, some, ltb}
use splits.Outcome.{Result, ok, throw}
use splits.Evm.Types.{
  Address, EvmExecuteResult, executed, skipped, failed, not_a_split, below_threshold,
  no_pending_funds, Clients, execute_split,
}
use splits.Evm.Action.{Action, pure, lift, outside, attempt, ◌>>=◌, return_if, write_contract}
use splits.Evm.Helpers.{is_cascade_split}
use splits.Evm.Failures.{classify_error}
use splits.Evm.Ensure.{account_not_connected}

unfoldable pub execute_outcome : String → Result EvmExecuteResult → Result EvmExecuteResult
unfolding classify_error
execute_outcome shown (ok result) = ok result
execute_outcome shown (throw e) = ok (failed (classify_error shown e))

module _ {W : Type 0} (clients : Clients W) (shown : String) (split : Address) where
  unfoldable pub distribute : Action W EvmExecuteResult
  unfolding write_contract
  distribute = do
    has_funds ← outside (clients.has_pending_funds split)
    return_if (not has_funds) (skipped no_pending_funds) (do
      hash ← write_contract clients (execute_split split)
      receipt ← outside (clients.wait_for_transaction_receipt hash)
      pure (executed hash))

  -- the threshold
  unfoldable pub above_threshold : Option ℕ → Action W EvmExecuteResult
  unfolding distribute
  above_threshold none = distribute
  above_threshold (some min_balance) = do
    balance ← outside (clients.get_balance split)
    return_if (ltb balance min_balance) (skipped below_threshold) distribute

  -- the body of the `try`
  unfoldable pub execute_body : Option ℕ → Action W EvmExecuteResult
  unfolding above_threshold is_cascade_split
  execute_body min_balance = do
    is_valid ← is_cascade_split clients split
    return_if (not is_valid) (skipped not_a_split) (above_threshold min_balance)

  unfoldable pub execute_connected : Option ℕ → Option Address → Action W EvmExecuteResult
  unfolding execute_body execute_outcome
  execute_connected min_balance none = pure (failed account_not_connected)
  execute_connected min_balance (some account) = do
    outcome ← attempt (execute_body min_balance)
    lift (execute_outcome shown outcome)

  unfoldable pub execute_split_impl : Option ℕ → Action W EvmExecuteResult
  unfolding execute_connected
  execute_split_impl min_balance = execute_connected min_balance clients.account
