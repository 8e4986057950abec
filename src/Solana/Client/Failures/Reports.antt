-- ===== src/Solana/Client/Failures/Reports.antt =====
-- What the handler of transaction errors reports.
use splits.Prelude.{arith, ◌≡◌, refl, ◌⊎◌, inl, inr, String}
use splits.Outcome.{
  ok, throw, Thrown, splits_error, wallet_rejected_error, wallet_disconnected_error, error,
  not_an_error, splits_error_message,
}
use splits.Solana.Client.Results.{FailedResult}
use splits.Solana.Client.Failures.{failed_by_message, handle_transaction_error}

failed_by_message-error : (e : Thrown) (message : String) → (failed_by_message e message).error ≡ e
unfolding failed_by_message
failed_by_message-error e message = ground arith

-- `handleTransactionError` throws only a value that is no `Error`, and throws that value itself;
-- for every other it returns a failure that carries the thrown value.
pub handle_transaction_error_lem :
    (e : Thrown)
    → ((r : FailedResult) × (handle_transaction_error e ≡ ok r) × (r.error ≡ e))
      ⊎ ((e ≡ not_an_error) × (handle_transaction_error e ≡ throw e))
unfolding handle_transaction_error
handle_transaction_error_lem wallet_rejected_error = inl (_, refl, refl)
handle_transaction_error_lem wallet_disconnected_error = inl (_, refl, refl)
handle_transaction_error_lem (splits_error e) =
    inl (_, refl, failed_by_message-error (splits_error e) (splits_error_message e))
handle_transaction_error_lem (error message) =
    inl (_, refl, failed_by_message-error (error message) message)
handle_transaction_error_lem not_an_error = inr (refl, refl)
