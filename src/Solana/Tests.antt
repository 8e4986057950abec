-- ===== src/Solana/Tests.antt =====
-- The theorems on the Solana SDK's client at concrete inputs.
mod Inputs
mod Parts
mod Built
mod Labels
use splits.Prelude.{◌⊎◌, ◌≡◌, ◌≢◌, refl, eq_iff, false, true, none, some, [], ◌∷◌}
use splits.Outcome.{Thrown, error, not_an_error, throw, ok}
use splits.Solana.Client.Failures.{handle_transaction_error}
use splits.Solana.Client.Failures.Reports.{handle_transaction_error_lem}
use splits.Solana.Action.{◌>>=◌}
use splits.Solana.Derive.{derive_split_config, derive_vault}
use splits.Solana.Action.Sends.{SendsAt}
use splits.Solana.Reads.{get_split_config, find_split_config}
use splits.Solana.Client.Results as results
use splits.Solana.Client.Results.{created, executed}
use splits.Solana.Client.Messages.{not_authority_message}
use splits.Solana.Client.Transaction.{submit}
use splits.Solana.Client.Transaction.Trace.{Submits, submit_lem}
use splits.Solana.Client.Ensure.{ensure_split_impl}
use splits.Solana.Client.Ensure.Outcomes.{EnsureTrace}
use splits.Solana.Client.Ensure.Trace.{ensure_split_impl_lem}
use splits.Solana.Client.Execute.{ExecuteOptions, execute_impl}
use splits.Solana.Client.Execute.Trace.{
  ExecuteTrace, OnceTrace, execute_impl_lem, execute_impl_retry,
}
use splits.Solana.Tests.Inputs.{node, start, settings, ensure_params, split_data, bob_split}

abbrev execute_options : ExecuteOptions
execute_options = record {
  commitment = none;
  compute_unit_price = none;
  compute_unit_limit = some 200000;
  has_abort_signal = true;
}

creation_test :
    (ensure_split_impl (node none) "owner" settings ensure_params start).0
    ≡ ok (created "derived" "derived" "signature" 13979 (some ("derived" ∷ "derived" ∷ [])))
unfolding ensure_split_impl ◌>>=◌ derive_split_config derive_vault
    splits.Solana.Detect.detect_token_program splits.Prelude.Map.get splits.Solana.Derive.derive_ata
    find_split_config get_split_config splits.Solana.Reads.existing_split_config
    splits.Solana.Atas.check_recipient_atas splits.Prelude.Map.set splits.Outcome.map_result
    splits.Solana.Action.return_if splits.Solana.Client.Shared.is_empty
    splits.Solana.Instructions.create_split_config_instruction
    splits.Solana.Recipients.to_percentage_bps splits.Solana.Client.Shared.calculate_total_rent
    submit splits.Solana.Action.sign_and_send
creation_test = refl

execution_test :
    (execute_impl (node (some split_data)) "" "anyone" "split" execute_options false start).0
    ≡ ok (executed "signature")
unfolding execute_impl ◌>>=◌ find_split_config get_split_config
    splits.Solana.Reads.existing_split_config splits.Solana.Detect.detect_token_program
    splits.Prelude.Map.get splits.Solana.Instructions.execute_split_instruction
    splits.Solana.Reads.get_protocol_config splits.Solana.Derive.derive_protocol_config
    splits.Solana.Derive.derive_ata submit splits.Solana.Action.sign_and_send
execution_test = refl

ensure_split_impl_lem_example :
    SendsAt
      (EnsureTrace (node none) "owner" settings ensure_params start)
      (ensure_split_impl (node none) "owner" settings ensure_params)
      start
ensure_split_impl_lem_example =
    ensure_split_impl_lem (node none) "owner" settings ensure_params start

execute_impl_lem_example :
    SendsAt
      (ExecuteTrace (node (some split_data)) "" "anyone" "split" execute_options start)
      (execute_impl (node (some split_data)) "" "anyone" "split" execute_options false)
      start
execute_impl_lem_example =
    execute_impl_lem (node (some split_data)) "" "anyone" "split" execute_options false start

execute_impl_retry_example :
    SendsAt
      (OnceTrace (node (some split_data)) "" "anyone" "split" execute_options)
      (execute_impl (node (some split_data)) "" "anyone" "split" execute_options true)
      start
execute_impl_retry_example =
    execute_impl_retry (node (some split_data)) "" "anyone" "split" execute_options start

submit_lem_example :
    SendsAt
      (Submits
        (node none)
        "owner"
        []
        (record { compute_unit_limit = some 1; compute_unit_price = none })
        none
        false
        start)
      (submit
        (node none)
        "owner"
        []
        (record { compute_unit_limit = some 1; compute_unit_price = none })
        none
        false)
      start
submit_lem_example =
    submit_lem (node none) "owner" []
      (record { compute_unit_limit = some 1; compute_unit_price = none }) none false start

abbrev expired : Thrown
expired = error "Blockhash not found"

handle_transaction_error_lem_example :
    ((r : results.FailedResult) × (handle_transaction_error expired ≡ ok r) × (r.error ≡ expired))
    ⊎ ((expired ≡ not_an_error) × (handle_transaction_error expired ≡ throw expired))
handle_transaction_error_lem_example = handle_transaction_error_lem expired
