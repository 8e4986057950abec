-- ===== src/Solana/Client/Update.antt =====
-- updateImpl, packages/splits-sdk/src/client/update.ts.
pub mod Trace
use mathlib.Core.Option
use splits.Prelude.{
  String, Bool, true, false, not, ◌&&◌, Option, none, some, List, [], ◌∷◌, ◌++◌, map, ◌===◌,
}
use splits.Prelude.Text.{◌<>◌}
use splits.Outcome.{Result, ok, throw, ◌>>=◌ as ◌>>=ʳ◌}
use splits.Solana.Types.{Address, Signature, SplitConfig, MissingAta, Instruction}
use splits.Solana.Network.{Network}
use splits.Solana.Action.{Action, pure, lift, attempt, ◌>>=◌, return_if}
use splits.Solana.Reads.{find_split_config}
use splits.Solana.Detect.{detect_token_program}
use splits.Solana.Equality.{recipients_equal}
use splits.Solana.Atas.{check_recipient_atas, deduplicate_atas}
use splits.Solana.Instructions.{update_split_config_instruction}
use splits.Solana.Client.Results.{
  UpdateResult, updated, no_change, blocked, failed, not_authority, recipient_atas_missing,
  ClientConfig, UpdateParams,
}
use splits.Solana.Client.Messages.{
  truncate_address, not_authority_message, recipient_atas_missing_message,
}
use splits.Solana.Client.Failures.{handle_transaction_error}
use splits.Solana.Client.Transaction.{submit}
use splits.Solana.Client.Shared.{
  is_empty, ExecutionPreparation, not_needed, needed, prevented, prepare_execution_if_needed,
}
use splits.Solana.Client.Ensure.{build_options, atas_created}
use splits.Solana.Client.Bundle.{all_instructions}

unfoldable pub split_not_found_message : Address → String
unfolding truncate_address ◌<>◌
split_not_found_message split_config =
    "Split not found at "
    <> truncate_address split_config
    <> ". It may not exist or has been closed."

unfoldable pub update_outcome : List MissingAta → Result Signature → Result UpdateResult
unfolding atas_created
update_outcome atas (ok signature) = ok (updated signature (atas_created atas))
update_outcome atas (throw e) = ◌>>=ʳ◌ (handle_transaction_error e) (λ r. ok (failed r))

module _ {W : Type 0} (net : Network W) (wallet : Address) (config : ClientConfig)
    (split_config : Address) (params : UpdateParams) where
  -- steps 7 to 9
  unfoldable pub update_sent :
      SplitConfig → Address → List MissingAta → Option Instruction → Action W UpdateResult
  unfolding update_outcome all_instructions
  update_sent existing program atas execute = do
    instruction ←
        update_split_config_instruction net split_config wallet params.recipients (some program)
    outcome ← attempt (
        submit net wallet (all_instructions wallet atas existing.mint program execute instruction)
          (build_options config) config.commitment false)
    lift (update_outcome atas outcome)

  -- step 6
  unfoldable pub update_with :
      SplitConfig → Address → List MissingAta → Option Instruction → Action W UpdateResult
  unfolding update_sent
  update_with existing program atas execute = do
    new_missing ← check_recipient_atas net (map (λ r. r.address) params.recipients) existing.mint
    return_if (not (is_empty new_missing) && not (Option.get_or params.create_missing_atas true))
        (blocked recipient_atas_missing
          (recipient_atas_missing_message (map (λ m. m.recipient) new_missing)))
        (update_sent existing program (atas ++ deduplicate_atas atas new_missing) execute)

  -- the result of step 5
  unfoldable pub update_prepared :
      SplitConfig → Address → ExecutionPreparation → Action W UpdateResult
  unfolding update_with
  update_prepared existing program (prevented reason message) = pure (blocked reason message)
  update_prepared existing program not_needed = update_with existing program [] none
  update_prepared existing program (needed instruction atas) =
      update_with existing program atas (some instruction)

  -- steps 4 and 5
  unfoldable pub update_changed : SplitConfig → Action W UpdateResult
  unfolding update_prepared
  update_changed existing = do
    program ← detect_token_program net existing.mint
    preparation ←
        prepare_execution_if_needed net split_config wallet existing program
          (Option.get_or params.create_missing_atas true)
    update_prepared existing program preparation

  -- steps 2 and 3
  unfoldable pub update_existing : Option SplitConfig → Action W UpdateResult
  unfolding update_changed split_not_found_message
  update_existing none = pure (blocked not_authority (split_not_found_message split_config))
  update_existing (some existing) =
      return_if (not (existing.authority === wallet))
        (blocked not_authority (not_authority_message existing.authority wallet))
        (do
          same ← lift (recipients_equal params.recipients existing.recipients)
          return_if same no_change (update_changed existing))

  unfoldable pub update_impl : Action W UpdateResult
  unfolding update_existing
  update_impl = do existing ← find_split_config net split_config; update_existing existing
