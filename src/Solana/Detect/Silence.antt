-- ===== src/Solana/Detect/Silence.antt =====
-- The detections hand nothing to the wallet.
use splits.Prelude.{Option, none, some}
use splits.Solana.Types.{Address}
use splits.Solana.Network.{Network, AccountInfo}
use splits.Solana.Action.Sends.{Quiet, quiet_rules}
use splits.Solana.Detect.{
  detected_program, fetch_token_program, cached_or_fetched_program, detect_token_program,
}

Quiet-detected_program :
    {W : Type 0} (mint : Address) (o : Option AccountInfo) → Quiet {W = W} (detected_program mint o)
unfolding detected_program
Quiet-detected_program mint none = search quiet_rules
Quiet-detected_program mint (some a) = search quiet_rules

module _ {W : Type 0} (net : Network W) where
  Quiet-fetch_token_program : (mint : Address) → Quiet (fetch_token_program net mint)
  unfolding fetch_token_program
  Quiet-fetch_token_program mint = search (quiet_rules, Quiet-detected_program)

  Quiet-cached_or_fetched_program :
      (mint : Address) (o : Option Address) → Quiet (cached_or_fetched_program net mint o)
  unfolding cached_or_fetched_program
  Quiet-cached_or_fetched_program mint none = Quiet-fetch_token_program mint
  Quiet-cached_or_fetched_program mint (some p) = search (quiet_rules, Quiet-fetch_token_program)

  pub Quiet-detect_token_program : (mint : Address) → Quiet (detect_token_program net mint)
  unfolding detect_token_program
  Quiet-detect_token_program mint = search (quiet_rules, Quiet-cached_or_fetched_program)
