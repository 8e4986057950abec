-- ===== src/Solana/Instructions/Silence.antt =====
-- Building an instruction hands nothing to the wallet.
use splits.Prelude.{Option, none, some, List}
use splits.Outcome.{Result, ok, throw}
use splits.Solana.Types.{Address, Recipient, SplitConfig}
use splits.Solana.Network.{Network}
use splits.Solana.Action.Sends.{Quiet, quiet_rules}
use splits.Solana.Reads.Silence.{Quiet-get_split_config, Quiet-get_protocol_config}
use splits.Solana.Detect.Silence.{Quiet-detect_token_program}
use splits.Solana.Instructions.{
  given_or_detected, given_or_generated, CreateParams, create_split_config_instruction,
  execute_fetched, execute_split_instruction, update_split_config_instruction,
  close_split_config_instruction,
}

module _ {W : Type 0} (net : Network W) where
  Quiet-given_or_detected :
      (o : Option Address) (mint : Address) → Quiet (given_or_detected net o mint)
  unfolding given_or_detected
  Quiet-given_or_detected (some p) mint = search quiet_rules
  Quiet-given_or_detected none mint = Quiet-detect_token_program net mint

  Quiet-given_or_generated : (o : Option Address) → Quiet (given_or_generated net o)
  unfolding given_or_generated
  Quiet-given_or_generated (some p) = search quiet_rules
  Quiet-given_or_generated none = search quiet_rules

  ruleset step_rules = (
    quiet_rules, Quiet-given_or_detected, Quiet-given_or_generated, Quiet-get_split_config,
    Quiet-get_protocol_config,
  )

  pub Quiet-create_split_config_instruction :
      (p : CreateParams) → Quiet (create_split_config_instruction net p)
  unfolding create_split_config_instruction
  Quiet-create_split_config_instruction p = search step_rules depth 12

  Quiet-execute_fetched :
      (a e : Address) (o : Option Address) (r : Result SplitConfig)
      → Quiet (execute_fetched net a e o r)
  unfolding execute_fetched
  Quiet-execute_fetched a e o (throw x) = search quiet_rules
  Quiet-execute_fetched a e o (ok c) = search step_rules depth 12

  pub Quiet-execute_split_instruction :
      (a e : Address) (o : Option Address) → Quiet (execute_split_instruction net a e o)
  unfolding execute_split_instruction
  Quiet-execute_split_instruction a e o = search (step_rules, Quiet-execute_fetched)

  pub Quiet-update_split_config_instruction :
      (a e : Address) (rs : List Recipient) (o : Option Address)
      → Quiet (update_split_config_instruction net a e rs o)
  unfolding update_split_config_instruction
  Quiet-update_split_config_instruction a e rs o = search step_rules depth 12

  pub Quiet-close_split_config_instruction :
      (a e : Address) (o p : Option Address) → Quiet (close_split_config_instruction net a e o p)
  unfolding close_split_config_instruction
  Quiet-close_split_config_instruction a e o p = search step_rules depth 12
