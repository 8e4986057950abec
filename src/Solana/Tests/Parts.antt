-- ===== src/Solana/Tests/Parts.antt =====
-- The theorems on the parts of the Solana SDK at concrete inputs.
use mathlib.Core.List.{Perm}
use splits.Prelude.{
  ◌≢◌, false, ℕ, String, sym, eq_iff, map, ◌≡◌, refl, ◌↔◌, ◌⊎◌, ◌<◌, ◌≤◌, ◌+◌, ◌*◌, arith, true,
  ◌||◌, none, List, [], ◌∷◌, ◌++◌, length,
}
use splits.Prelude.Map.{Map}
use splits.Outcome.{ok}
use splits.Solana.Types.{JsNumber, natural, MissingAta, SplitRecipient}
use splits.Solana.Recipients.{share_to_percentage_bps, percentage_bps_to_shares, to_percentage_bps}
use splits.Solana.Recipients.Bounds.{
  to_percentage_bps_bounds, percentage_bps_to_shares-share_to_percentage_bps,
  percentage_bps_to_shares_near,
}
use splits.Solana.Reads.{read_u64_le}
use splits.Solana.Reads.Words.{le_bytes, read_u64_le-le_bytes}
use splits.Solana.Atas.{has_ata, deduplicate_atas, missing_of}
use splits.Solana.Atas.Missing.{
  exists_at, has_ata-deduplicate_atas, Unique, deduplicate_atas-Unique, missing_of_complete,
}
use splits.Solana.Equality.{recipients_equal}
use splits.Solana.Equality.Entries.{Distinct}
use splits.Solana.Equality.Permutes.{entries, on_chain, recipients_equal_iff}
use splits.Solana.Client.Shared.{needs_execute, check_unclaimed_amounts, get_pending_claimant_count}
use splits.Solana.Client.Shared.Pending.{get_pending_claimant_count-IsPositive, needs_execute_iff}
use splits.Solana.Tests.Inputs.{recipients, alice, bob_split}

alice_bps : to_percentage_bps alice ≡ ok 5940
unfolding to_percentage_bps
alice_bps = refl

to_percentage_bps_bounds_example : (1 ≤ 5940) × (5940 ≤ 9900)
to_percentage_bps_bounds_example = to_percentage_bps_bounds alice alice_bps

share_bps_test : share_to_percentage_bps (natural 60) ≡ ok 5940
unfolding share_to_percentage_bps
share_bps_test = refl

percentage_bps_to_shares-share_to_percentage_bps_example : percentage_bps_to_shares 5940 ≡ 60
percentage_bps_to_shares-share_to_percentage_bps_example =
    percentage_bps_to_shares-share_to_percentage_bps 60 share_bps_test

percentage_bps_to_shares_near_example :
    (percentage_bps_to_shares 3333 * 99 ≤ 3333 + 49)
    × (3333 ≤ percentage_bps_to_shares 3333 * 99 + 49)
percentage_bps_to_shares_near_example = percentage_bps_to_shares_near 3333

abbrev before : List ℕ
before = 1 ∷ 2 ∷ []

abbrev after : List ℕ
after = 9 ∷ []

read_u64_le-le_bytes_example :
    read_u64_le (before ++ (le_bytes 8 1000000 ++ after)) (length before) ≡ 1000000
read_u64_le-le_bytes_example = read_u64_le-le_bytes before after 1000000 (omega arith)

abbrev alices : MissingAta
alices = record { recipient = "alice"; ata = "alice's" }

abbrev bobs : MissingAta
bobs = record { recipient = "bob"; ata = "bob's" }

abbrev current : List MissingAta
current = alices ∷ []

abbrev wanted : List MissingAta
wanted = bobs ∷ alices ∷ []

has_ata-deduplicate_atas_example :
    has_ata (current ++ deduplicate_atas current wanted) "bob's"
    ≡ (has_ata current "bob's" || has_ata wanted "bob's")
has_ata-deduplicate_atas_example = has_ata-deduplicate_atas current wanted "bob's"

current-Unique : Unique current
unfolding has_ata
current-Unique = (refl, tt)

wanted-Unique : Unique wanted
unfolding has_ata
wanted-Unique = (refl, (refl, tt))

deduplicate_atas-Unique_example : Unique (current ++ deduplicate_atas current wanted)
deduplicate_atas-Unique_example =
    deduplicate_atas-Unique current wanted current-Unique wanted-Unique

not_there : exists_at (none ∷ []) 1 ≡ false
unfolding exists_at
not_there = refl

missing_of_complete_example : has_ata (missing_of wanted (none ∷ [])) "alice's" ≡ true
missing_of_complete_example = missing_of_complete wanted (none ∷ []) 1 {a = alices} refl not_there

get_pending_claimant_count-IsPositive_example :
    (0 < get_pending_claimant_count bob_split)
    ↔ (0 < (check_unclaimed_amounts bob_split).total_unclaimed)
get_pending_claimant_count-IsPositive_example = get_pending_claimant_count-IsPositive bob_split

needs_execute_iff_example :
    (needs_execute bob_split 0 ≡ true) ↔ ((0 < 0) ⊎ (0 < get_pending_claimant_count bob_split))
needs_execute_iff_example = needs_execute_iff bob_split 0

abbrev given : Map JsNumber
given = ("alice", natural 5940) ∷ ("bob", natural 3960) ∷ []

abbrev stored : List SplitRecipient
stored =
    record { address = "bob"; percentage_bps = 3960; share = 40 }
    ∷ record { address = "alice"; percentage_bps = 5940; share = 60 }
    ∷ []

abbrev a_name : String
a_name = "alice"

abbrev b_name : String
b_name = "bob"

apart : a_name ≢ b_name
apart e = let same = (eq_iff a_name b_name).1 e in cc

given-entries : entries recipients ≡ ok given
unfolding entries splits.Solana.Equality.entry_bps to_percentage_bps
given-entries = refl

given-Distinct : Distinct given
given-Distinct = (((λ e. apart (sym e)), tt), (tt, tt))

stored-Distinct : Distinct (map on_chain stored)
unfolding on_chain
stored-Distinct = ((apart, tt), (tt, tt))

recipients_equal_iff_example :
    (recipients_equal recipients stored ≡ ok true) ↔ Perm given (map on_chain stored)
recipients_equal_iff_example =
    recipients_equal_iff recipients stored given-entries given-Distinct stored-Distinct
