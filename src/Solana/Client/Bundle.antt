-- ===== src/Solana/Client/Bundle.antt =====
-- What updateImpl and closeImpl have in common, packages/splits-sdk/src/client/update.ts and
-- close.ts: one transaction of account creations, an execution if one is needed, and the
-- instruction of the operation.
use splits.Prelude.{not, false, ◌===◌, eq_iff, arith, ◌≡◌, Option, none, some, List, [], ◌∷◌, ◌++◌}
use splits.Solana.Types.{Address, MissingAta, Instruction, TransactionMessage}
use splits.Solana.Network.{Network}
use splits.Solana.Instructions.Execution.{Executes}
use splits.Solana.Atas.{get_create_ata_instructions}
use splits.Solana.Client.Results.{ClientConfig}
use splits.Solana.Client.Transaction.Trace.{SentOne}
use splits.Solana.Client.Ensure.{build_options, atas_created}

-- `executeInstruction ? [executeInstruction] : []`
unfoldable pub execution : Option Instruction → List Instruction
execution none = []
execution (some instruction) = instruction ∷ []

unfoldable pub all_instructions :
    Address
    → List MissingAta
    → Address
    → Address
    → Option Instruction
    → Instruction
    → List Instruction
unfolding execution
all_instructions wallet missing mint program execute instruction =
    get_create_ata_instructions wallet missing mint program ++ execution execute ++ instruction ∷ []

module _ {W : Type 0} (net : Network W) (wallet split_config : Address) where
  -- if there is one, it executes the split for the wallet
  abbrev pub IsExecution : Address → Option Instruction → Type 0
  IsExecution program none = Unit
  IsExecution program (some i) = Executes net wallet program split_config i

  -- One message was sent: the creations, the execution, then `instruction`; the creations are the
  -- ones that are reported.
  pub record SentBundle (config : ClientConfig) (mint program : Address) (instruction : Instruction)
      (atas : Option (List Address)) (new : List TransactionMessage) : Type 0 where
    pub missing : List MissingAta
    pub execute : Option Instruction
    pub executes : IsExecution program execute
    pub reported : atas ≡ atas_created missing
    pub sent_one :
        SentOne wallet
          (all_instructions wallet missing mint program execute instruction)
          (build_options config)
          new

-- the authority's guard has let the wallet pass
pub is_owner :
    (authority wallet : Address) → not (authority === wallet) ≡ false → authority ≡ wallet
is_owner authority wallet h = ground (arith, eq_iff authority wallet)
