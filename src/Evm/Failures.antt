-- ===== src/Evm/Failures.antt =====
-- The `catch` that packages/splits-sdk-evm/src/ensure.ts and execute.ts share word for word.
use splits.Prelude.{String, ◌||◌, if◌then◌else◌, Option, none, some}
use splits.Prelude.Text.{includes}
use splits.Outcome.{Thrown, not_an_error}
use splits.Solana.Client.Execute.{error_message}
use splits.Evm.Types.{
  EvmFailure, wallet_rejected, transaction_reverted, insufficient_gas, transaction_failed,
}

-- `error instanceof Error ? error.message : String(error)`, where `shown` is `String(error)`
unfoldable pub message_or_shown : String → Option String → String
message_or_shown shown none = shown
message_or_shown shown (some message) = message

-- `error instanceof Error ? error : undefined`
unfoldable pub error_if_any : Thrown → Option Thrown
error_if_any not_an_error = none
error_if_any e = some e

unfoldable pub classified : Option Thrown → String → EvmFailure
unfolding includes
classified e message =
    if includes message "rejected" || includes message "denied" || includes message "cancelled"
    then record { reason = wallet_rejected; message = "Transaction rejected by user"; error = e }
    else if includes message "revert" || includes message "execution reverted"
    then record { reason = transaction_reverted; message = message; error = e }
    else if includes message "gas" || includes message "insufficient funds"
    then record { reason = insufficient_gas; message = message; error = e }
    else record { reason = transaction_failed; message = message; error = e }

unfoldable pub classify_error : String → Thrown → EvmFailure
unfolding classified message_or_shown error_if_any error_message
classify_error shown e = classified (error_if_any e) (message_or_shown shown (error_message e))
