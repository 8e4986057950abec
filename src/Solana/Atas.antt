-- ===== src/Solana/Atas.antt =====
-- Recipients' token accounts: checkRecipientAtas and getCreateAtaInstructions of
-- packages/splits-sdk/src/helpers.ts, deduplicateAtas of client/shared.ts.
pub mod Missing
pub mod Silence
use splits.Prelude.{
  Bool, true, false, not, ◌||◌, Option, none, some, List, [], ◌∷◌, map, keep, ◌===◌, if◌then◌else◌,
}
use splits.Outcome.{Result, ok, ◌>>=◌ as ◌>>=ʳ◌, map_result}
use splits.Solana.Types.{
  Address, MissingAta, Instruction, create_ata_idempotent, readonly, writable, writable_signer,
  associated_token_program_address, system_program_address,
}
use splits.Solana.Network.{Network, AccountInfo}
use splits.Solana.Action.{Action, pure, lift, outside, ◌>>=◌}
use splits.Solana.Derive.{derive_ata}
use splits.Solana.Detect.{detect_token_program}

-- the loop over the answers: an account that is null, or beyond the answers, is missing
unfoldable pub missing_of : List MissingAta → List (Option AccountInfo) → List MissingAta
missing_of [] accounts = []
missing_of (a ∷ atas) [] = a ∷ missing_of atas []
missing_of (a ∷ atas) (none ∷ accounts) = a ∷ missing_of atas accounts
missing_of (a ∷ atas) (some _ ∷ accounts) = missing_of atas accounts

unfoldable pub create_ata_instruction : Address → Address → Address → MissingAta → Instruction
create_ata_instruction payer mint token_program m = record {
  program_address = associated_token_program_address;
  accounts =
      record { address = payer; role = writable_signer }
      ∷ record { address = m.ata; role = writable }
      ∷ record { address = m.recipient; role = readonly }
      ∷ record { address = mint; role = readonly }
      ∷ record { address = system_program_address; role = readonly }
      ∷ record { address = token_program; role = readonly }
      ∷ [];
  payload = create_ata_idempotent;
}

unfoldable pub get_create_ata_instructions :
    Address → List MissingAta → Address → Address → List Instruction
unfolding create_ata_instruction
get_create_ata_instructions payer missing mint token_program =
    map (create_ata_instruction payer mint token_program) missing

-- `existingAddresses.has(a.ata)`
unfoldable pub has_ata : List MissingAta → Address → Bool
has_ata [] ata = false
has_ata (m ∷ ms) ata = m.ata === ata || has_ata ms ata

unfoldable pub deduplicate_atas : List MissingAta → List MissingAta → List MissingAta
unfolding has_ata
deduplicate_atas existing new = keep (λ a. not (has_ata existing a.ata)) new

module _ {W : Type 0} (net : Network W) where
  unfoldable pub recipient_ata : Address → Address → Address → Result MissingAta
  recipient_ata mint token_program recipient =
      ◌>>=ʳ◌ (derive_ata net recipient mint token_program)
        (λ ata. ok (record { recipient = recipient; ata = ata }))

  unfoldable pub check_recipient_atas : List Address → Address → Action W (List MissingAta)
  unfolding recipient_ata missing_of
  check_recipient_atas recipients mint = do
    token_program ← detect_token_program net mint
    atas ← lift (map_result (recipient_ata mint token_program) recipients)
    accounts ← outside (net.get_multiple_accounts (map (λ a. a.ata) atas))
    pure (missing_of atas accounts)
