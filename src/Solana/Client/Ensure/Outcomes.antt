-- ===== src/Solana/Client/Ensure/Outcomes.antt =====
-- What each outcome of ensureSplitImpl says of the sent messages.
use mathlib.Core.Option
use splits.Prelude.{◌≡◌, Bool, true, false, Option, none, some, List, [], ◌∷◌, ◌++◌, map}
use splits.Solana.Action.{Store}
use splits.Solana.Reads.{find_split_config}
use splits.Solana.Detect.{detect_token_program}
use splits.Solana.Atas.{check_recipient_atas}
use splits.Outcome.{Result, ok, throw}
use splits.Solana.Types.{Address, SplitConfig, MissingAta, Instruction, TransactionMessage}
use splits.Solana.Network.{Network}
use splits.Solana.Derive.{derive_split_config, derive_vault}
use splits.Solana.Atas.{get_create_ata_instructions}
use splits.Solana.Equality.{recipients_equal}
use splits.Solana.Instructions.Shape.{Creates}
use splits.Solana.Instructions.Changes.{Updates}
use splits.Solana.Client.Results.{
  EnsureResult, created, no_change, updated, blocked, failed, ClientConfig, EnsureParams,
}
use splits.Solana.Client.Transaction.Trace.{AtMostOne, SentOne}
use splits.Solana.Client.Ensure.{build_options, atas_created}

module _ {W : Type 0} (net : Network W) (wallet : Address) (config : ClientConfig)
    (params : EnsureParams) (s : Store W) where
  -- what a run from the state `s` was answered: the mint's program, the config at the derived
  -- address, and the token accounts that are missing
  abbrev pub IsDetected : Address → Type 0
  IsDetected program = (detect_token_program net params.mint s).0 ≡ ok program

  abbrev pub HasRead : Address → Option SplitConfig → Type 0
  HasRead split_config existing =
      (find_split_config net split_config (detect_token_program net params.mint s).1).0
      ≡ ok existing

  abbrev pub IsMissing : Address → List MissingAta → Type 0
  IsMissing split_config missing =
      (check_recipient_atas net (map (λ r. r.address) params.recipients) params.mint
        (find_split_config net split_config (detect_token_program net params.mint s).1).1).0
      ≡ ok missing

  -- One message was sent: the creations of the missing accounts, then `instruction`.
  pub record SentWith (split_config program : Address) (instruction : Instruction)
      (atas : Option (List Address)) (new : List TransactionMessage) : Type 0 where
    pub missing : List MissingAta
    pub detected : IsDetected program
    pub checked : IsMissing split_config missing
    pub reported : atas ≡ atas_created missing
    pub sent_one :
        SentOne wallet
          (get_create_ata_instructions wallet missing params.mint program ++ (instruction ∷ []))
          (build_options config)
          new

  pub record SentCreation (vault split_config : Address) (atas : Option (List Address))
      (new : List TransactionMessage) : Type 0 where
    pub absent : HasRead split_config none
    pub program : Address
    pub instruction : Instruction
    pub creates :
        Creates net wallet params.mint params.unique_id program
          (Option.get_or params.payer wallet)
          params.recipients
          split_config
          vault
          instruction
    pub sent_with : SentWith split_config program instruction atas new

  -- The comparison with the recipients of the config that the run read answered `same`.
  pub record Compared (split_config : Address) (same : Bool) : Type 0 where
    pub existing : SplitConfig
    pub read : HasRead split_config (some existing)
    pub compared : recipients_equal params.recipients existing.recipients ≡ ok same

  pub record SentUpdate (vault split_config : Address) (atas : Option (List Address))
      (new : List TransactionMessage) : Type 0 where
    pub differ : Compared split_config false
    pub program : Address
    pub instruction : Instruction
    pub updates : Updates net wallet program split_config params.recipients instruction
    pub config_derived :
        derive_split_config net wallet params.mint params.unique_id ≡ ok split_config
    pub vault_derived : derive_vault net split_config params.mint program ≡ ok vault
    pub sent_with : SentWith split_config program instruction atas new

  abbrev pub EnsureTrace : Result EnsureResult → List TransactionMessage → Type 0
  EnsureTrace (ok (created vault split_config signature rent atas)) new =
      SentCreation vault split_config atas new
  EnsureTrace (ok (updated vault split_config signature atas)) new =
      SentUpdate vault split_config atas new
  EnsureTrace (ok (no_change vault split_config)) new = Compared split_config true × (new ≡ [])
  EnsureTrace (ok (blocked reason message)) new = new ≡ []
  EnsureTrace (ok (failed r)) new = AtMostOne wallet new
  EnsureTrace (throw e) new = AtMostOne wallet new
