-- ===== src/Solana/Equality.antt =====
-- `recipientsEqual` of packages/splits-sdk/src/helpers.ts.
pub mod Entries
pub mod Permutes
use splits.Prelude.{
  ℕ, ◌==◌, Bool, true, false, ◌&&◌, Option, none, some, List, [], ◌∷◌, length, if◌then◌else◌,
}
use splits.Prelude.Map
use splits.Prelude.Map.{Map}
use splits.Outcome.{Result, ok, ◌>>=◌}
use splits.Solana.Types.{
  Address, JsNumber, natural, negative, not_integer, Recipient, SplitRecipient,
}
use splits.Solana.Recipients.{to_percentage_bps}

-- `===` between numbers, the second an on-chain integer
unfoldable pub number_eq : JsNumber → ℕ → Bool
number_eq (natural n) m = n == m
number_eq (negative n) m = false
number_eq (not_integer text) m = false

-- `r.percentageBps ?? toPercentageBps(r)`: basis points that are given are not checked
unfoldable pub entry_bps : Recipient → Result JsNumber
entry_bps r = elim r.percentage_bps [
  | some bps ↦ ok bps
  | none ↦ do bps ← to_percentage_bps r; ok (natural bps)
]

-- the first loop
unfoldable pub build_map : Map JsNumber → List Recipient → Result (Map JsNumber)
unfolding entry_bps
build_map m [] = ok m
build_map m (r ∷ rs) = do bps ← entry_bps r; build_map (Map.set r.address bps m) rs

-- the second loop
unfoldable pub has_entry : Map JsNumber → SplitRecipient → Bool
unfolding number_eq
has_entry m r = elim (Map.get r.address m) [
  | none ↦ false
  | some bps ↦ number_eq bps r.percentage_bps
]

unfoldable pub has_entries : Map JsNumber → List SplitRecipient → Bool
unfolding has_entry
has_entries m [] = true
has_entries m (r ∷ rs) = has_entry m r && has_entries m rs

unfoldable pub recipients_equal : List Recipient → List SplitRecipient → Result Bool
unfolding build_map has_entries
recipients_equal a b =
    if length a == length b then (do m ← build_map [] a; ok (has_entries m b)) else ok false
