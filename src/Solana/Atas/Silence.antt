-- ===== src/Solana/Atas/Silence.antt =====
-- The check of the recipients' accounts hands nothing to the wallet.
use splits.Prelude.{List}
use splits.Solana.Types.{Address}
use splits.Solana.Network.{Network}
use splits.Solana.Action.Sends.{Quiet, quiet_rules}
use splits.Solana.Detect.Silence.{Quiet-detect_token_program}
use splits.Solana.Atas.{check_recipient_atas}

module _ {W : Type 0} (net : Network W) where
  pub Quiet-check_recipient_atas :
      (rs : List Address) (mint : Address) → Quiet (check_recipient_atas net rs mint)
  unfolding check_recipient_atas
  Quiet-check_recipient_atas rs mint = search (quiet_rules, Quiet-detect_token_program) depth 8
