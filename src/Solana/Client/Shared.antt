-- ===== src/Solana/Client/Shared.antt =====
-- packages/splits-sdk/src/client/shared.ts: unclaimed amounts, rent, and the preparation of an
-- execution before an update or a close.
pub mod Silence
pub mod Pending
pub mod Prepared
use splits.Prelude.{
  ℕ, ◌+◌, String, Bool, true, false, not, ◌&&◌, ◌||◌, Option, none, some, List, [], ◌∷◌, map,
  length, keep, ltb, if◌then◌else◌,
}
use splits.Prelude.Text.{◌<>◌}
use splits.Outcome.{Result, ok}
use splits.Solana.Types.{Address, SplitConfig, UnclaimedAmount, MissingAta, Instruction}
use splits.Solana.Network.{Network}
use splits.Solana.Action.{return_if, Action, pure, outside, ◌>>=◌}
use splits.Solana.Reads.{is_unclaimed, get_vault_balance}
use splits.Solana.Atas.{check_recipient_atas}
use splits.Solana.Instructions.{
  ExecuteSplitResult, success, not_found, not_a_split, execute_split_instruction,
}
use splits.Solana.Client.Results.{BlockedReason, recipient_atas_missing, vault_not_empty}
use splits.Solana.Client.Messages.{recipient_atas_missing_message}

unfoldable pub sum_amounts : List UnclaimedAmount → ℕ
sum_amounts [] = 0
sum_amounts (u ∷ us) = u.amount + sum_amounts us

pub record Unclaimed : Type 0 where
  pub unclaimed_count : ℕ
  pub total_unclaimed : ℕ

unfoldable pub check_unclaimed_amounts : SplitConfig → Unclaimed
unfolding is_unclaimed sum_amounts
check_unclaimed_amounts config = record {
  unclaimed_count = length (keep is_unclaimed config.unclaimed_amounts);
  total_unclaimed = sum_amounts config.unclaimed_amounts + config.protocol_unclaimed;
}

unfoldable pub get_pending_claimant_count : SplitConfig → ℕ
unfolding check_unclaimed_amounts
get_pending_claimant_count config =
    (check_unclaimed_amounts config).unclaimed_count
    + (if ltb 0 config.protocol_unclaimed then 1 else 0)

abbrev pub split_config_size : ℕ
split_config_size = 1832

abbrev pub token_account_size : ℕ
token_account_size = 165

pub data ExecutionPreparation : Type 0 where
  not_needed : ExecutionPreparation
  needed : Instruction → List MissingAta → ExecutionPreparation
  prevented : BlockedReason → String → ExecutionPreparation

-- from the outcome of `executeSplit`
unfoldable pub prepared : List MissingAta → ExecuteSplitResult → ExecutionPreparation
unfolding ◌<>◌
prepared missing (success instruction) = needed instruction missing
prepared missing (not_found a) = prevented vault_not_empty ("Cannot execute split: " <> "not_found")
prepared missing (not_a_split a) =
    prevented vault_not_empty ("Cannot execute split: " <> "not_a_split")

unfoldable pub is_empty {ℓ} : {A : Type ℓ} → List A → Bool
is_empty [] = true
is_empty (x ∷ xs) = false

unfoldable pub needs_execute : SplitConfig → ℕ → Bool
unfolding check_unclaimed_amounts
needs_execute config balance =
    ltb 0 balance || ltb 0 (check_unclaimed_amounts config).total_unclaimed

module _ {W : Type 0} (net : Network W) where
  unfoldable pub calculate_total_rent : Action W ℕ
  calculate_total_rent = do
    split_config_rent ← outside (net.get_minimum_balance_for_rent_exemption split_config_size)
    vault_rent ← outside (net.get_minimum_balance_for_rent_exemption token_account_size)
    pure (split_config_rent + vault_rent)

  unfoldable pub prepare_execution :
      Address → Address → SplitConfig → Address → Bool → Action W ExecutionPreparation
  unfolding prepared is_empty
  prepare_execution split_config wallet config token_program create_missing_atas = do
    missing ← check_recipient_atas net (map (λ r. r.address) config.recipients) config.mint
    return_if (not (is_empty missing) && not create_missing_atas)
        (prevented recipient_atas_missing
          (recipient_atas_missing_message (map (λ m. m.recipient) missing)))
        (do
          result ← execute_split_instruction net split_config wallet (some token_program)
          pure (prepared missing result))

  unfoldable pub prepare_execution_if_needed :
      Address → Address → SplitConfig → Address → Bool → Action W ExecutionPreparation
  unfolding prepare_execution needs_execute
  prepare_execution_if_needed split_config wallet config token_program create_missing_atas = do
    balance ← get_vault_balance net config.vault
    return_if (not (needs_execute config balance)) not_needed
        (prepare_execution split_config wallet config token_program create_missing_atas)
