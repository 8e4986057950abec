-- ===== src/Solana/Client/Ensure.antt =====
-- ensureSplitImpl, packages/splits-sdk/src/client/ensure.ts.
pub mod Outcomes
pub mod Trace
use mathlib.Core.Option
use splits.Prelude.{
  ℕ, Bool, true, false, not, ◌&&◌, Option, none, some, List, [], ◌∷◌, ◌++◌, map, ltb, if◌then◌else◌,
}
use splits.Outcome.{Result, ok, throw, ◌>>=◌ as ◌>>=ʳ◌}
use splits.Solana.Types.{Address, Signature, SplitConfig, MissingAta, Instruction}
use splits.Solana.Network.{Network}
use splits.Solana.Action.{Action, pure, lift, attempt, ◌>>=◌, return_if}
use splits.Solana.Derive.{derive_split_config, derive_vault}
use splits.Solana.Reads.{find_split_config, get_vault_balance}
use splits.Solana.Detect.{detect_token_program}
use splits.Solana.Equality.{recipients_equal}
use splits.Solana.Atas.{check_recipient_atas, get_create_ata_instructions}
use splits.Solana.Instructions.{
  CreateParams, create_split_config_instruction, update_split_config_instruction,
}
use splits.Solana.Client.Results.{
  EnsureResult, created, no_change, updated, blocked, failed, recipient_atas_missing,
  vault_not_empty, unclaimed_pending, ClientConfig, EnsureParams,
}
use splits.Solana.Client.Messages.{
  recipient_atas_missing_message, vault_not_empty_message, unclaimed_pending_message,
}
use splits.Solana.Client.Failures.{handle_transaction_error}
use splits.Solana.Client.Transaction.{BuildOptions, submit}
use splits.Solana.Client.Shared.{
  is_empty, check_unclaimed_amounts, get_pending_claimant_count, calculate_total_rent,
}

-- `computeUnitPrice !== undefined ? { computeUnitPrice } : undefined`
abbrev pub build_options : ClientConfig → BuildOptions
build_options config = record {
  compute_unit_limit = none;
  compute_unit_price = config.compute_unit_price;
}

-- `atasCreated`, present if an account was created
unfoldable pub atas_created : List MissingAta → Option (List Address)
atas_created [] = none
atas_created (m ∷ ms) = some (map (λ a. a.ata) (m ∷ ms))

-- what the code has found out when it comes to the transaction
pub record Found : Type 0 where
  pub split_config : Address
  pub vault : Address
  pub token_program : Address
  pub missing : List MissingAta

-- the `return` and the `catch` of the two transactions
unfoldable pub update_outcome : Found → Result Signature → Result EnsureResult
unfolding atas_created
update_outcome f (ok signature) =
    ok (updated f.vault f.split_config signature (atas_created f.missing))
update_outcome f (throw e) = ◌>>=ʳ◌ (handle_transaction_error e) (λ r. ok (failed r))

unfoldable pub create_outcome : Found → ℕ → Result Signature → Result EnsureResult
unfolding atas_created
create_outcome f rent (ok signature) =
    ok (created f.vault f.split_config signature rent (atas_created f.missing))
create_outcome f rent (throw e) = ◌>>=ʳ◌ (handle_transaction_error e) (λ r. ok (failed r))

-- the creations of the missing accounts, none if none is missing
unfoldable pub ata_instructions : Address → EnsureParams → Found → List Instruction
ata_instructions wallet params f =
    get_create_ata_instructions wallet f.missing params.mint f.token_program

module _ {W : Type 0} (net : Network W) (wallet : Address) (config : ClientConfig) where
  -- step 4 with the recipients different and nothing left to distribute
  unfoldable pub ensure_updated : EnsureParams → Found → Action W EnsureResult
  unfolding update_outcome ata_instructions
  ensure_updated params f = do
    instruction ←
        update_split_config_instruction net f.split_config wallet params.recipients
          (some f.token_program)
    outcome ← attempt (
        submit net wallet (ata_instructions wallet params f ++ (instruction ∷ []))
          (build_options config) config.commitment false)
    lift (update_outcome f outcome)

  -- step 4
  unfoldable pub ensure_existing : EnsureParams → Found → SplitConfig → Bool → Action W EnsureResult
  unfolding ensure_updated
  ensure_existing params f existing true = pure (no_change f.vault f.split_config)
  ensure_existing params f existing false = do
    balance ← get_vault_balance net f.vault
    return_if (ltb 0 balance) (blocked vault_not_empty (vault_not_empty_message balance)) (
        return_if (ltb 0 (check_unclaimed_amounts existing).total_unclaimed)
          (blocked unclaimed_pending (
            unclaimed_pending_message (get_pending_claimant_count existing)
              (check_unclaimed_amounts existing).total_unclaimed))
          (ensure_updated params f))

  -- step 5
  unfoldable pub ensure_created : EnsureParams → Found → Action W EnsureResult
  unfolding create_outcome ata_instructions
  ensure_created params f = do
    result ← create_split_config_instruction net (record {
      authority = wallet;
      recipients = params.recipients;
      mint = some params.mint;
      unique_id = some params.unique_id;
      token_program = some f.token_program;
      payer = some (Option.get_or params.payer wallet);
    })
    rent ← calculate_total_rent net
    outcome ← attempt (
        submit net wallet (ata_instructions wallet params f ++ (result.instruction ∷ []))
          (build_options config) config.commitment false)
    lift (create_outcome f rent outcome)

  unfoldable pub ensure_found : EnsureParams → Found → Option SplitConfig → Action W EnsureResult
  unfolding ensure_existing ensure_created
  ensure_found params f (some existing) = do
    same ← lift (recipients_equal params.recipients existing.recipients)
    ensure_existing params f existing same
  ensure_found params f none = ensure_created params f

  unfoldable pub ensure_split_impl : EnsureParams → Action W EnsureResult
  unfolding ensure_found
  ensure_split_impl params = do
    split_config ← lift (derive_split_config net wallet params.mint params.unique_id)
    token_program ← detect_token_program net params.mint
    vault ← lift (derive_vault net split_config params.mint token_program)
    existing ← find_split_config net split_config
    missing ← check_recipient_atas net (map (λ r. r.address) params.recipients) params.mint
    return_if (not (is_empty missing) && not (Option.get_or params.create_missing_atas true))
        (blocked recipient_atas_missing
          (recipient_atas_missing_message (map (λ m. m.recipient) missing)))
        (ensure_found params
          (record {
            split_config = split_config;
            vault = vault;
            token_program = token_program;
            missing = missing;
          })
          existing)
