-- ===== src/Solana/Client/Shared/Silence.antt =====
-- The preparations of the client hand nothing to the wallet.
use splits.Prelude.{Bool}
use splits.Solana.Types.{Address, SplitConfig}
use splits.Solana.Network.{Network}
use splits.Solana.Action.Sends.{Quiet, quiet_rules}
use splits.Solana.Reads.Silence.{Quiet-get_vault_balance}
use splits.Solana.Atas.Silence.{Quiet-check_recipient_atas}
use splits.Solana.Instructions.Silence.{Quiet-execute_split_instruction}
use splits.Solana.Client.Shared.{
  calculate_total_rent, prepare_execution, prepare_execution_if_needed,
}

module _ {W : Type 0} (net : Network W) where
  pub Quiet-calculate_total_rent : Quiet (calculate_total_rent net)
  unfolding calculate_total_rent
  Quiet-calculate_total_rent = search quiet_rules depth 8

  Quiet-prepare_execution :
      (a w : Address) (c : SplitConfig) (p : Address) (b : Bool)
      → Quiet (prepare_execution net a w c p b)
  unfolding prepare_execution
  Quiet-prepare_execution a w c p b =
      search (quiet_rules, Quiet-check_recipient_atas, Quiet-execute_split_instruction) depth 8

  pub Quiet-prepare_execution_if_needed :
      (a w : Address) (c : SplitConfig) (p : Address) (b : Bool)
      → Quiet (prepare_execution_if_needed net a w c p b)
  unfolding prepare_execution_if_needed
  Quiet-prepare_execution_if_needed a w c p b =
      search (quiet_rules, Quiet-get_vault_balance, Quiet-prepare_execution) depth 8
