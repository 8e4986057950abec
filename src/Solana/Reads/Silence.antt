-- ===== src/Solana/Reads/Silence.antt =====
-- The reads hand nothing to the wallet.
use splits.Prelude.{Option, none, some}
use splits.Outcome.{Result, ok, throw, splits_error, split_config_not_found_error}
use splits.Solana.Types.{Address, ProtocolConfig, SplitConfig}
use splits.Solana.Network.{Network, ProtocolConfigData}
use splits.Solana.Action.Sends.{Quiet, quiet_rules}
use splits.Solana.Reads.{
  absent_if_not_found, find_split_config, get_split_config, get_vault_balance,
  fetched_protocol_config, cached_or_fetched, get_protocol_config,
}

module _ {W : Type 0} where
  Quiet-fetched_protocol_config :
      (a : Address) (r : Result ProtocolConfigData) → Quiet {W = W} (fetched_protocol_config a r)
  unfolding fetched_protocol_config
  Quiet-fetched_protocol_config a (ok d) = search quiet_rules
  Quiet-fetched_protocol_config a (throw e) = search quiet_rules

module _ {W : Type 0} (net : Network W) where
  pub Quiet-get_split_config : (a : Address) → Quiet (get_split_config net a)
  unfolding get_split_config
  Quiet-get_split_config a = search quiet_rules

  pub Quiet-get_vault_balance : (a : Address) → Quiet (get_vault_balance net a)
  unfolding get_vault_balance
  Quiet-get_vault_balance a = search quiet_rules

  Quiet-cached_or_fetched : (c : Option ProtocolConfig) → Quiet (cached_or_fetched net c)
  unfolding cached_or_fetched
  Quiet-cached_or_fetched (some c) = search quiet_rules
  Quiet-cached_or_fetched none = search (quiet_rules, Quiet-fetched_protocol_config)

  pub Quiet-get_protocol_config : Quiet (get_protocol_config net)
  unfolding get_protocol_config
  Quiet-get_protocol_config = search (quiet_rules, Quiet-cached_or_fetched)

Quiet-absent_if_not_found :
    {W : Type 0} (r : Result SplitConfig) → Quiet {W = W} (absent_if_not_found r)
unfolding absent_if_not_found
Quiet-absent_if_not_found (ok c) = search quiet_rules
Quiet-absent_if_not_found (throw (splits_error (split_config_not_found_error a))) =
    search quiet_rules
Quiet-absent_if_not_found (throw (splits_error _)) = search quiet_rules
Quiet-absent_if_not_found (throw _) = search quiet_rules

pub Quiet-find_split_config :
    {W : Type 0} (net : Network W) (a : Address) → Quiet (find_split_config net a)
unfolding find_split_config
Quiet-find_split_config net a =
    search (quiet_rules, Quiet-get_split_config, Quiet-absent_if_not_found) depth 8
