-- ===== src/Solana/Detect.antt =====
-- The cached detections of packages/splits-sdk/src/helpers.ts: the token program of a mint, and
-- whether an address is a split.
pub mod Silence
pub mod Caching
use splits.Prelude.{[], Bool, true, false, Option, none, some, ◌===◌, if◌then◌else◌}
use splits.Prelude.Map
use splits.Outcome.{
  Result, ok, throw, Thrown, splits_error, split_config_not_found_error, mint_not_found_error,
}
use splits.Solana.Types.{Address, SplitConfig}
use splits.Solana.Network.{Network, AccountInfo}
use splits.Solana.Action.{
  Action, pure, raise, gets, attempt, outside, set_split_cache, set_mint_program, ◌>>=◌, ◌>>◌,
}
use splits.Solana.Reads.{get_split_config}

module _ {W : Type 0} where
  unfoldable pub invalidate_split_cache : Address → Action W Unit
  invalidate_split_cache vault = set_split_cache (Map.delete vault)

  unfoldable pub clear_split_cache : Action W Unit
  clear_split_cache = set_split_cache (λ _. [])

  unfoldable pub detected_program : Address → Option AccountInfo → Action W Address
  detected_program mint none = raise (splits_error (mint_not_found_error mint))
  detected_program mint (some a) = do set_mint_program (Map.set mint a.owner); pure a.owner

  -- the outcome of the `try` of `isCascadeSplit`, and its handler
  unfoldable pub cascade_outcome : Address → Result SplitConfig → Action W Bool
  cascade_outcome key (ok config) = do set_split_cache (Map.set key true); pure true
  cascade_outcome key (throw (splits_error (split_config_not_found_error a))) = pure false
  cascade_outcome key (throw e) = raise e

module _ {W : Type 0} (net : Network W) where
  unfoldable pub fetch_token_program : Address → Action W Address
  unfolding detected_program
  fetch_token_program mint = do
    info ← outside (net.get_account_info mint)
    detected_program mint info

  -- `if (cached) return cached`: the empty string is no hit
  unfoldable pub cached_or_fetched_program : Address → Option Address → Action W Address
  unfolding fetch_token_program
  cached_or_fetched_program mint none = fetch_token_program mint
  cached_or_fetched_program mint (some cached) =
      if cached === "" then fetch_token_program mint else pure cached

  unfoldable pub detect_token_program : Address → Action W Address
  unfolding cached_or_fetched_program
  detect_token_program mint = do
    cached ← gets (λ s. Map.get mint s.mint_program_cache)
    cached_or_fetched_program mint cached

  unfoldable pub cached_or_checked : Address → Option Bool → Action W Bool
  unfolding cascade_outcome
  cached_or_checked split_config (some cached) = pure cached
  cached_or_checked split_config none = do
    outcome ← attempt (get_split_config net split_config)
    cascade_outcome split_config outcome

  unfoldable pub is_cascade_split : Address → Action W Bool
  unfolding cached_or_checked
  is_cascade_split split_config = do
    cached ← gets (λ s. Map.get split_config s.split_cache)
    cached_or_checked split_config cached
