-- ===== src/Solana/Client/Update/Trace.antt =====
-- What updateImpl hands to the wallet, for each outcome.
use splits.Solana.Equality.{recipients_equal}
use splits.Prelude.{true, false, ◌≡◌, Option, none, some, List, []}
use splits.Outcome.{Result, ok, throw, ◌>>=◌ as ◌>>=ʳ◌}
use splits.Solana.Types.{Address, SplitConfig, Instruction, TransactionMessage}
use splits.Solana.Network.{Network}
use splits.Solana.Action.Sends.{Sends}
use splits.Solana.Instructions.Changes.{Updates}
use splits.Solana.Client.Results.{
  not_authority, UpdateResult, updated, no_change, blocked, failed, ClientConfig, UpdateParams,
}
use splits.Solana.Client.Transaction.Trace.{AtMostOne}
use splits.Solana.Client.Bundle.{SentBundle}
use splits.Solana.Client.Update.{split_not_found_message}

module _ {W : Type 0} (net : Network W) (wallet : Address) (config : ClientConfig)
    (split_config : Address) (params : UpdateParams) where
  -- One message was sent: the creations, the execution, then an update to recipients that differ
  -- from those of `c`.
  pub record SentUpdate (c : SplitConfig) (atas : Option (List Address))
      (new : List TransactionMessage) : Type 0 where
    pub authority : c.authority ≡ wallet
    pub differ : recipients_equal params.recipients c.recipients ≡ ok false
    pub program : Address
    pub instruction : Instruction
    pub updates : Updates net wallet program split_config params.recipients instruction
    pub bundle : SentBundle net wallet split_config config c.mint program instruction atas new

  abbrev pub FoundTrace : SplitConfig → Result UpdateResult → List TransactionMessage → Type 0
  FoundTrace c (ok (updated signature atas)) new = SentUpdate c atas new
  FoundTrace c (ok no_change) new =
      (recipients_equal params.recipients c.recipients ≡ ok true) × (new ≡ [])
  FoundTrace c (ok (blocked reason message)) new = new ≡ []
  FoundTrace c (ok (failed r)) new = AtMostOne wallet new
  FoundTrace c (throw e) new = AtMostOne wallet new

  -- by what the first read has given
  abbrev pub UpdateTrace :
      Result (Option SplitConfig) → Result UpdateResult → List TransactionMessage → Type 0
  UpdateTrace (ok (some c)) r new = FoundTrace c r new
  UpdateTrace (ok none) r new =
      (r ≡ ok (blocked not_authority (split_not_found_message split_config))) × (new ≡ [])
  UpdateTrace (throw e) r new = (r ≡ throw e) × (new ≡ [])

  -- the guards of steps 2 and 3 have let the update pass
  record Passes (c : SplitConfig) : Type 0 where
    authority : c.authority ≡ wallet
    differ : recipients_equal params.recipients c.recipients ≡ ok false
