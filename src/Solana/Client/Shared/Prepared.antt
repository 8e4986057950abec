-- ===== src/Solana/Client/Shared/Prepared.antt =====
-- The instruction of a preparation is an execution of the split.
use splits.Prelude.{Bool, List}
use splits.Solana.Types.{Address, SplitConfig, MissingAta}
use splits.Solana.Network.{Network}
use splits.Solana.Action.Yields.{Yields, Yields-pure, Yields-bind, Yields-then, Yields-return_if}
use splits.Solana.Instructions.{ExecuteSplitResult, success, not_found, not_a_split}
use splits.Solana.Instructions.Execution.{Executes, Executable, execute_split_instruction-Yields}
use splits.Solana.Client.Shared.{
  ExecutionPreparation, not_needed, needed, prevented, prepared, prepare_execution,
  prepare_execution_if_needed,
}

module _ {W : Type 0} (net : Network W) (split_config wallet : Address) where
  -- an instruction that is prepared executes the split for the wallet
  abbrev pub Prepares : Address → ExecutionPreparation → Type 0
  Prepares program not_needed = Unit
  Prepares program (prevented reason message) = Unit
  Prepares program (needed i atas) = Executes net wallet program split_config i

  prepared-Prepares :
      (program : Address) (missing : List MissingAta) (r : ExecuteSplitResult)
      → Executable net wallet program split_config r
      → Prepares program (prepared missing r)
  unfolding prepared
  prepared-Prepares program missing (success i) x = x
  prepared-Prepares program missing (not_found a) x = tt
  prepared-Prepares program missing (not_a_split a) x = tt

  prepare_execution-Yields :
      (c : SplitConfig) (program : Address) (create_missing_atas : Bool)
      → Yields
          (Prepares program)
          (prepare_execution net split_config wallet c program create_missing_atas)
  unfolding prepare_execution
  prepare_execution-Yields c program create_missing_atas = Yields-bind _ _ _ (λ missing.
      Yields-return_if _ _ _ _ tt (
        Yields-then _ _ _ _ (execute_split_instruction-Yields net _ _ _)
          (λ r x. Yields-pure _ _ (prepared-Prepares program missing r x))))

  pub prepare_execution_if_needed-Yields :
      (c : SplitConfig) (program : Address) (create_missing_atas : Bool)
      → Yields
          (Prepares program)
          (prepare_execution_if_needed net split_config wallet c program create_missing_atas)
  unfolding prepare_execution_if_needed
  prepare_execution_if_needed-Yields c program create_missing_atas = Yields-bind _ _ _ (λ balance.
      Yields-return_if _ _ _ _ tt (prepare_execution-Yields c program create_missing_atas))
