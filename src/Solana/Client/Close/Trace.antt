-- ===== src/Solana/Client/Close/Trace.antt =====
-- What closeImpl hands to the wallet, for each outcome.
use splits.Prelude.{Bool, ◌≡◌, Option, none, some, List, []}
use splits.Outcome.{Result, ok, throw, ◌>>=◌ as ◌>>=ʳ◌}
use splits.Solana.Types.{Address, SplitConfig, Instruction, TransactionMessage}
use splits.Solana.Network.{Network}
use splits.Solana.Action.Sends.{Sends}
use splits.Solana.Instructions.Changes.{Closes}
use splits.Solana.Client.Results.{
  CloseResult, closed, already_closed, blocked, failed, ClientConfig,
}
use splits.Solana.Client.Transaction.Trace.{AtMostOne}
use splits.Solana.Client.Bundle.{SentBundle}

module _ {W : Type 0} (net : Network W) (wallet : Address) (config : ClientConfig)
    (split_config : Address) (create_missing_atas : Option Bool) where
  -- One message was sent: the creations, the execution, then the closing of `c`, whose rent goes
  -- to the one who paid it.
  pub record SentClose (c : SplitConfig) (atas : Option (List Address))
      (new : List TransactionMessage) : Type 0 where
    pub authority : c.authority ≡ wallet
    pub program : Address
    pub instruction : Instruction
    pub closes : Closes net wallet c.rent_payer program split_config instruction
    pub bundle : SentBundle net wallet split_config config c.mint program instruction atas new

  abbrev pub FoundTrace : SplitConfig → Result CloseResult → List TransactionMessage → Type 0
  FoundTrace c (ok (closed signature rent atas)) new = SentClose c atas new
  FoundTrace c (ok already_closed) new = ⊥
  FoundTrace c (ok (blocked reason message)) new = new ≡ []
  FoundTrace c (ok (failed r)) new = AtMostOne wallet new
  FoundTrace c (throw e) new = AtMostOne wallet new

  -- by what the first read has given
  abbrev pub CloseTrace :
      Result (Option SplitConfig) → Result CloseResult → List TransactionMessage → Type 0
  CloseTrace (ok (some c)) r new = FoundTrace c r new
  CloseTrace (ok none) r new = (r ≡ ok already_closed) × (new ≡ [])
  CloseTrace (throw e) r new = (r ≡ throw e) × (new ≡ [])
