-- ===== src/Solana/Tests/Built.antt =====
-- The theorems on the built instructions and on the caches at concrete inputs.
use splits.Prelude.{String, List, ◌≡◌, ◌≢◌, refl, eq_iff, true, none, some, [], ◌∷◌}
use splits.Prelude.Map
use splits.Outcome.{ok}
use splits.Solana.Reads.{get_protocol_config}
use splits.Solana.Reads.Caching.{get_protocol_config_again}
use splits.Solana.Types.{ProtocolConfig, Instruction, OnChainRecipient}
use splits.Solana.Instructions.{
  CreateSplitConfigResult, ExecuteSplitResult, success, create_split_config_instruction,
  update_split_config_instruction, close_split_config_instruction, execute_split_instruction,
  create_instruction, update_instruction, close_instruction, execute_instruction,
}
use splits.Solana.Instructions.Shape.{Creates, create_split_config_instruction_lem}
use splits.Solana.Instructions.Changes.{
  Updates, Closes, update_split_config_instruction_lem, close_split_config_instruction_lem,
}
use splits.Solana.Instructions.Execution.{ExecutableAt, execute_split_instruction_lem}
use splits.Solana.Detect.{detect_token_program, is_cascade_split}
use splits.Solana.Detect.Caching.{detect_token_program_again, is_cascade_split_again}
use splits.Solana.Tests.Inputs.{node, start, split_data, bob_split, recipients}

abbrev converted : List OnChainRecipient
converted =
    record { address = "alice"; percentage_bps = 5940 }
    ∷ record { address = "bob"; percentage_bps = 3960 }
    ∷ []

abbrev creation : CreateSplitConfigResult
creation = record {
  instruction =
      create_instruction "derived" "id" "owner" "payer" "mint" "derived" "token program" converted
        ("derived" ∷ "derived" ∷ []);
  split_config = "derived";
  vault = "derived";
}

creation_is_built :
    (create_split_config_instruction
      (node none)
      (record {
        authority = "owner";
        recipients = recipients;
        mint = some "mint";
        unique_id = some "id";
        token_program = some "token program";
        payer = some "payer";
      })
      start).0
    ≡ ok creation
unfolding create_split_config_instruction splits.Solana.Action.◌>>=◌
    splits.Solana.Recipients.to_percentage_bps splits.Solana.Derive.derive_split_config
    splits.Solana.Derive.derive_vault splits.Solana.Derive.derive_ata
creation_is_built = refl

create_split_config_instruction_lem_example :
    Creates
      (node none)
      "owner"
      "mint"
      "id"
      "token program"
      "payer"
      recipients
      "derived"
      "derived"
      creation.instruction
create_split_config_instruction_lem_example =
    create_split_config_instruction_lem (node none) "owner" "mint" "id" "token program" "payer"
      recipients start creation creation_is_built

abbrev change : Instruction
change = update_instruction bob_split "owner" "token program" converted ("derived" ∷ "derived" ∷ [])

change_is_built :
    (update_split_config_instruction
      (node (some split_data))
      "split"
      "owner"
      recipients
      (some "token program")
      start).0
    ≡ ok change
unfolding update_split_config_instruction splits.Solana.Action.◌>>=◌
    splits.Solana.Reads.get_split_config splits.Solana.Reads.existing_split_config
    splits.Solana.Recipients.to_percentage_bps splits.Solana.Derive.derive_ata
change_is_built = refl

update_split_config_instruction_lem_example :
    (u : Updates (node (some split_data)) "owner" "token program" "split" recipients change)
    × (u.state ≡ start)
update_split_config_instruction_lem_example =
    update_split_config_instruction_lem (node (some split_data)) "split" "owner" recipients
      "token program" start change change_is_built

abbrev closing : Instruction
closing = close_instruction bob_split "owner" "payer" "token program"

closing_is_built :
    (close_split_config_instruction
      (node (some split_data))
      "split"
      "owner"
      (some "payer")
      (some "token program")
      start).0
    ≡ ok closing
unfolding close_split_config_instruction splits.Solana.Action.◌>>=◌
    splits.Solana.Reads.get_split_config splits.Solana.Reads.existing_split_config
closing_is_built = refl

close_split_config_instruction_lem_example :
    (c : Closes (node (some split_data)) "owner" "payer" "token program" "split" closing) × (c.state
      ≡ start)
close_split_config_instruction_lem_example =
    close_split_config_instruction_lem (node (some split_data)) "split" "owner" "payer"
      "token program" start closing closing_is_built

abbrev distribution : ExecuteSplitResult
distribution = success (
    execute_instruction bob_split
      (record {
        address = "derived";
        authority = "admin";
        pending_authority = "admin";
        fee_wallet = "fees";
        bump = 254;
      })
      "anyone" "token program" ("derived" ∷ []) "derived")

distribution_is_built :
    (execute_split_instruction
      (node (some split_data))
      "split"
      "anyone"
      (some "token program")
      start).0
    ≡ ok distribution
unfolding execute_split_instruction splits.Solana.Action.◌>>=◌ splits.Solana.Reads.get_split_config
    splits.Solana.Reads.existing_split_config splits.Solana.Reads.get_protocol_config
    splits.Solana.Derive.derive_protocol_config splits.Solana.Derive.derive_ata
distribution_is_built = refl

execute_split_instruction_lem_example :
    ExecutableAt (node (some split_data)) start "anyone" "token program" "split" distribution
execute_split_instruction_lem_example =
    execute_split_instruction_lem (node (some split_data)) "split" "anyone" "token program" start
      distribution distribution_is_built

detected : (detect_token_program (node none) "mint" start).0 ≡ ok "token program"
unfolding detect_token_program splits.Solana.Action.◌>>=◌ Map.get
detected = refl

abbrev token_program : String
token_program = "token program"

not_empty : token_program ≢ ""
not_empty e = let same = (eq_iff token_program "").1 e in cc

detect_token_program_again_example :
    detect_token_program (node none) "mint" (detect_token_program (node none) "mint" start).1
    ≡ (ok "token program", (detect_token_program (node none) "mint" start).1)
detect_token_program_again_example =
    detect_token_program_again (node none) "mint" start detected not_empty

is_split : (is_cascade_split (node (some split_data)) "split" start).0 ≡ ok true
unfolding is_cascade_split splits.Solana.Action.◌>>=◌ Map.get splits.Solana.Reads.get_split_config
    splits.Solana.Reads.existing_split_config
is_split = refl

is_cascade_split_again_example :
    is_cascade_split
      (node (some split_data))
      "split"
      (is_cascade_split (node (some split_data)) "split" start).1
    ≡ (ok true, (is_cascade_split (node (some split_data)) "split" start).1)
is_cascade_split_again_example =
    is_cascade_split_again (node (some split_data)) "split" start is_split

abbrev fees : ProtocolConfig
fees = record {
  address = "derived";
  authority = "admin";
  pending_authority = "admin";
  fee_wallet = "fees";
  bump = 254;
}

fees_are_fetched : (get_protocol_config (node none) start).0 ≡ ok fees
unfolding get_protocol_config splits.Solana.Action.◌>>=◌ splits.Solana.Derive.derive_protocol_config
fees_are_fetched = refl

get_protocol_config_again_example :
    get_protocol_config (node none) (get_protocol_config (node none) start).1
    ≡ (ok fees, (get_protocol_config (node none) start).1)
get_protocol_config_again_example = get_protocol_config_again (node none) start fees_are_fetched
