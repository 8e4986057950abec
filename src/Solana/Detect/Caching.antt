-- ===== src/Solana/Detect/Caching.antt =====
-- What the caches of detectTokenProgram and isCascadeSplit promise.
use splits.Prelude.{◌≡◌, ◌≢◌, Bool, true, some, arith, eq_iff}
use splits.Prelude.Map
use splits.Prelude.Map.{get-set, map_laws}
use splits.Outcome.{ok}
use splits.Solana.Types.{Address}
use splits.Solana.Network.{Network}
use splits.Solana.Action.{Store, ◌>>=◌}
use splits.Solana.Detect.{
  cached_or_checked, is_cascade_split, cached_or_fetched_program, fetch_token_program,
  detect_token_program,
}

module _ {W : Type 0} (net : Network W) where
  -- a hit answers, and leaves the state as it is
  program_hit :
      (mint : Address) (s : Store W) {p : Address}
      → Map.get mint s.mint_program_cache ≡ some p
      → p ≢ ""
      → detect_token_program net mint s ≡ (ok p, s)
  unfolding detect_token_program ◌>>=◌
  program_hit mint s {p} e ne = rw (e, cached_or_fetched_program) (ground (arith, eq_iff p ""))

  fetched_is_cached :
      (mint : Address) (s : Store W) {p : Address}
      → (fetch_token_program net mint s).0 ≡ ok p
      → Map.get mint (fetch_token_program net mint s).1.mint_program_cache ≡ some p
  unfolding fetch_token_program ◌>>=◌
  fetched_is_cached mint s h = grind (arith, Map.get-set_self)

  program_is_cached :
      (mint : Address) (s : Store W) {p : Address}
      → (detect_token_program net mint s).0 ≡ ok p
      → Map.get mint (detect_token_program net mint s).1.mint_program_cache ≡ some p
  unfolding detect_token_program cached_or_fetched_program ◌>>=◌
  program_is_cached mint s {p} h = ground (arith, fetched_is_cached mint s {p = p})

  -- A program that was detected, and is not the empty text, is in the cache: the next detection of
  -- the mint answers it and leaves the state, the world outside included, as it is.
  pub detect_token_program_again :
      (mint : Address) (s : Store W) {p : Address}
      → (detect_token_program net mint s).0 ≡ ok p
      → p ≢ ""
      → detect_token_program net mint (detect_token_program net mint s).1
        ≡ (ok p, (detect_token_program net mint s).1)
  detect_token_program_again mint s h ne =
      program_hit mint (detect_token_program net mint s).1 (program_is_cached mint s h) ne

  split_hit :
      (a : Address) (s : Store W) {b : Bool}
      → Map.get a s.split_cache ≡ some b
      → is_cascade_split net a s ≡ (ok b, s)
  unfolding is_cascade_split ◌>>=◌
  split_hit a s e = rw (e, cached_or_checked)

  split_is_cached :
      (a : Address) (s : Store W)
      → (is_cascade_split net a s).0 ≡ ok true
      → Map.get a (is_cascade_split net a s).1.split_cache ≡ some true
  unfolding is_cascade_split cached_or_checked ◌>>=◌
  split_is_cached a s h = grind (arith, Map.get-set_self)

  -- After an answer `true` of `isCascadeSplit`, asking again answers `true` from the cache and
  -- leaves the state, the world outside included, as it is.
  pub is_cascade_split_again :
      (a : Address) (s : Store W)
      → (is_cascade_split net a s).0 ≡ ok true
      → is_cascade_split net a (is_cascade_split net a s).1
        ≡ (ok true, (is_cascade_split net a s).1)
  is_cascade_split_again a s h = split_hit a (is_cascade_split net a s).1 (split_is_cached a s h)
