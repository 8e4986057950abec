-- ===== src/Solana/Client/Close.antt =====
-- closeImpl, packages/splits-sdk/src/client/close.ts.
pub mod Trace
use mathlib.Core.Option
use splits.Prelude.{ℕ, Bool, true, false, not, Option, none, some, List, [], ◌===◌}
use splits.Outcome.{Result, ok, throw, ◌>>=◌ as ◌>>=ʳ◌}
use splits.Solana.Types.{Address, Signature, SplitConfig, MissingAta, Instruction}
use splits.Solana.Network.{Network}
use splits.Solana.Action.{Action, pure, lift, attempt, ◌>>=◌, return_if}
use splits.Solana.Reads.{find_split_config}
use splits.Solana.Detect.{detect_token_program}
use splits.Solana.Instructions.{close_split_config_instruction}
use splits.Solana.Client.Results.{
  CloseResult, closed, already_closed, blocked, failed, not_authority, ClientConfig,
}
use splits.Solana.Client.Messages.{not_authority_message}
use splits.Solana.Client.Failures.{handle_transaction_error}
use splits.Solana.Client.Transaction.{submit}
use splits.Solana.Client.Shared.{
  ExecutionPreparation, not_needed, needed, prevented, prepare_execution_if_needed,
  calculate_total_rent,
}
use splits.Solana.Client.Ensure.{build_options, atas_created}
use splits.Solana.Client.Bundle.{all_instructions}

unfoldable pub close_outcome : ℕ → List MissingAta → Result Signature → Result CloseResult
unfolding atas_created
close_outcome rent atas (ok signature) = ok (closed signature rent (atas_created atas))
close_outcome rent atas (throw e) = ◌>>=ʳ◌ (handle_transaction_error e) (λ r. ok (failed r))

module _ {W : Type 0} (net : Network W) (wallet : Address) (config : ClientConfig)
    (split_config : Address) (create_missing_atas : Option Bool) where
  -- steps 5 to 8: the rent goes to the one who paid it
  unfoldable pub close_with :
      SplitConfig → Address → List MissingAta → Option Instruction → Action W CloseResult
  unfolding close_outcome all_instructions
  close_with existing program atas execute = do
    instruction ←
        close_split_config_instruction net split_config wallet (some existing.rent_payer)
          (some program)
    rent ← calculate_total_rent net
    outcome ← attempt (
        submit net wallet (all_instructions wallet atas existing.mint program execute instruction)
          (build_options config) config.commitment false)
    lift (close_outcome rent atas outcome)

  -- the result of step 4
  unfoldable pub close_prepared :
      SplitConfig → Address → ExecutionPreparation → Action W CloseResult
  unfolding close_with
  close_prepared existing program (prevented reason message) = pure (blocked reason message)
  close_prepared existing program not_needed = close_with existing program [] none
  close_prepared existing program (needed instruction atas) =
      close_with existing program atas (some instruction)

  -- steps 3 and 4
  unfoldable pub close_owned : SplitConfig → Action W CloseResult
  unfolding close_prepared
  close_owned existing = do
    program ← detect_token_program net existing.mint
    preparation ←
        prepare_execution_if_needed net split_config wallet existing program
          (Option.get_or create_missing_atas true)
    close_prepared existing program preparation

  -- step 2
  unfoldable pub close_existing : Option SplitConfig → Action W CloseResult
  unfolding close_owned
  close_existing none = pure already_closed
  close_existing (some existing) =
      return_if (not (existing.authority === wallet))
        (blocked not_authority (not_authority_message existing.authority wallet))
        (close_owned existing)

  unfoldable pub close_impl : Action W CloseResult
  unfolding close_existing
  close_impl = do existing ← find_split_config net split_config; close_existing existing
