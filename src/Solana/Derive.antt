-- ===== src/Solana/Derive.antt =====
-- The derived addresses of packages/splits-sdk/src/helpers.ts.
use splits.Prelude.{[], ◌∷◌}
use splits.Outcome.{Result}
use splits.Solana.Types.{
  Address, program_id, associated_token_program_address, protocol_config_seed, split_config_seed,
}
use splits.Solana.Network.{Network, text_seed, address_seed}

module _ {W : Type 0} (net : Network W) where
  unfoldable pub derive_protocol_config : Result Address
  derive_protocol_config =
      net.get_program_derived_address program_id (text_seed protocol_config_seed ∷ [])

  unfoldable pub derive_split_config : Address → Address → Address → Result Address
  derive_split_config authority mint unique_id = net.get_program_derived_address program_id (
      text_seed split_config_seed
      ∷ address_seed authority
      ∷ address_seed mint
      ∷ address_seed unique_id
      ∷ [])

  unfoldable pub derive_ata : Address → Address → Address → Result Address
  derive_ata owner mint token_program =
      net.get_program_derived_address associated_token_program_address
        (address_seed owner ∷ address_seed token_program ∷ address_seed mint ∷ [])

  unfoldable pub derive_vault : Address → Address → Address → Result Address
  derive_vault split_config mint token_program = derive_ata split_config mint token_program
