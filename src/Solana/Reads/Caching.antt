-- ===== src/Solana/Reads/Caching.antt =====
-- What the cache of getProtocolConfig promises.
use splits.Prelude.{◌≡◌, arith, some}
use splits.Outcome.{ok}
use splits.Solana.Types.{ProtocolConfig}
use splits.Solana.Network.{Network}
use splits.Solana.Action.{Store, ◌>>=◌}
use splits.Solana.Reads.{fetched_protocol_config, cached_or_fetched, get_protocol_config}

module _ {W : Type 0} (net : Network W) where
  protocol_hit :
      (s : Store W) {c : ProtocolConfig}
      → s.cached_protocol_config ≡ some c
      → get_protocol_config net s ≡ (ok c, s)
  unfolding get_protocol_config ◌>>=◌
  protocol_hit s h = rw (h, cached_or_fetched)

  protocol_is_cached :
      (s : Store W) {c : ProtocolConfig}
      → (get_protocol_config net s).0 ≡ ok c
      → (get_protocol_config net s).1.cached_protocol_config ≡ some c
  unfolding get_protocol_config cached_or_fetched fetched_protocol_config ◌>>=◌
  protocol_is_cached s h = ground arith

  -- A protocol config that `getProtocolConfig` returned is in the cache: asking again returns it
  -- and leaves the state, the world outside included, as it is.
  pub get_protocol_config_again :
      (s : Store W) {c : ProtocolConfig}
      → (get_protocol_config net s).0 ≡ ok c
      → get_protocol_config net (get_protocol_config net s).1
        ≡ (ok c, (get_protocol_config net s).1)
  get_protocol_config_again s h =
      protocol_hit (get_protocol_config net s).1 (protocol_is_cached s h)
