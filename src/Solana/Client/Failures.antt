-- ===== src/Solana/Client/Failures.antt =====
-- The handler of transaction errors, packages/splits-sdk/src/client/errors.ts.
pub mod Reports
use splits.Prelude.{String, ◌||◌, if◌then◌else◌}
use splits.Prelude.Text.{lower_includes}
use splits.Outcome.{
  Result, ok, throw, Thrown, splits_error, wallet_rejected_error, wallet_disconnected_error, error,
  not_an_error, splits_error_message,
}
use splits.Solana.Client.Results.{
  FailedResult, wallet_rejected, wallet_disconnected, network_error, transaction_expired,
  program_error,
}
use splits.Solana.Client.Messages.{
  wallet_rejected_message, wallet_disconnected_message, network_error_message,
  transaction_expired_message,
}

-- the branch of an `Error` with a message
unfoldable pub failed_by_message : Thrown → String → FailedResult
unfolding lower_includes network_error_message transaction_expired_message
failed_by_message e message =
    if lower_includes message "blockhash" || lower_includes message "expired"
    then record { reason = transaction_expired; message = transaction_expired_message; error = e }
    else if lower_includes message "network"
        || lower_includes message "fetch"
        || lower_includes message "econnrefused"
    then record { reason = network_error; message = network_error_message message; error = e }
    else record { reason = program_error; message = message; error = e }

unfoldable pub handle_transaction_error : Thrown → Result FailedResult
unfolding failed_by_message wallet_rejected_message wallet_disconnected_message splits_error_message
handle_transaction_error wallet_rejected_error = ok (record {
  reason = wallet_rejected;
  message = wallet_rejected_message;
  error = wallet_rejected_error;
})
handle_transaction_error wallet_disconnected_error = ok (record {
  reason = wallet_disconnected;
  message = wallet_disconnected_message;
  error = wallet_disconnected_error;
})
handle_transaction_error (splits_error e) =
    ok (failed_by_message (splits_error e) (splits_error_message e))
handle_transaction_error (error message) = ok (failed_by_message (error message) message)
handle_transaction_error not_an_error = throw not_an_error
