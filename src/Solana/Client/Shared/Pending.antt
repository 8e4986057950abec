-- ===== src/Solana/Client/Shared/Pending.antt =====
-- When an execution has to precede an update or a close.
use splits.Prelude.{arith, ℕ, ◌<◌, ◌≡◌, ◌↔◌, ◌⊎◌, true, List, [], ◌∷◌, length, keep}
use splits.Solana.Types.{SplitConfig, UnclaimedAmount}
use splits.Solana.Reads.{is_unclaimed}
use splits.Solana.Client.Shared.{
  sum_amounts, check_unclaimed_amounts, get_pending_claimant_count, needs_execute,
}

-- no unclaimed entry, no sum; an entry, a sum
sum_amounts_lem :
    (us : List UnclaimedAmount) → (0 < length (keep is_unclaimed us)) ↔ (0 < sum_amounts us)
unfolding sum_amounts is_unclaimed
sum_amounts_lem [] = ground arith
sum_amounts_lem (u ∷ us) = let rest = sum_amounts_lem us in ground arith

-- A pending claimant is counted exactly if the total of the unclaimed amounts is positive.
pub get_pending_claimant_count-IsPositive :
    (c : SplitConfig)
    → (0 < get_pending_claimant_count c) ↔ (0 < (check_unclaimed_amounts c).total_unclaimed)
unfolding get_pending_claimant_count check_unclaimed_amounts
get_pending_claimant_count-IsPositive c =
    let l = sum_amounts_lem c.unclaimed_amounts in ground arith

-- An update or a close needs an execution exactly if the vault holds tokens or a pending claimant
-- is counted.
pub needs_execute_iff :
    (c : SplitConfig) (balance : ℕ)
    → (needs_execute c balance ≡ true) ↔ ((0 < balance) ⊎ (0 < get_pending_claimant_count c))
unfolding needs_execute
needs_execute_iff c balance = let l = get_pending_claimant_count-IsPositive c in ground arith
