-- ===== src/Solana/Instructions/Shape.antt =====
-- What the instruction that creates a config is made of, and which config is read.
use splits.Solana.Action.{Store}
use splits.Prelude.{arith, ◌≡◌, refl, Option, some, List, [], ◌∷◌, ◌++◌, map}
use splits.Outcome.{ok}
use splits.Solana.Types.{
  Address, Recipient, OnChainRecipient, SplitConfig, Instruction, create_split_config, program_id,
  associated_token_program_address, system_program_address,
}
use splits.Solana.Network.{Network, SplitConfigData}
use splits.Solana.Action.Yields.{
  Yields, Yields-pure, Yields-lift, Yields-bind, Yields-bind_lift, Yields-bind_pure,
}
use splits.Solana.Derive.{derive_split_config, derive_vault, derive_ata}
use splits.Solana.Reads.{existing_split_config, get_split_config}
use splits.Solana.Instructions.{
  CreateSplitConfigResult, create_instruction, given_or_generated, recipient_atas,
  create_split_config_instruction,
}
use splits.Solana.Instructions.Parts.{
  reads, writes, signs, pays, Pairwise, Converted, map_result-Pairwise,
  to_on_chain_recipients-Converted,
}

abbrev pub addresses : List OnChainRecipient → List Address
addresses = map (λ r. r.address)

module _ {W : Type 0} (net : Network W) where
  -- a config that was read names the address that was asked for
  pub get_split_config-Yields : (a : Address) → Yields (λ c. c.address ≡ a) (get_split_config net a)
  unfolding get_split_config
  get_split_config-Yields a = Yields-bind _ _ _ (λ o. Yields-lift _ _ (named o))
    where
      named :
          (o : Option SplitConfigData) (c : SplitConfig)
          → existing_split_config a o ≡ ok c
          → c.address ≡ a
      named o c h = unfold existing_split_config in ground arith

  -- The instruction of a creation with all optional parameters given.
  pub record Creates (authority mint unique_id program payer : Address)
      (recipients : List Recipient) (split_config vault : Address) (instruction : Instruction)
      : Type 0 where
    pub on_chain : List OnChainRecipient
    pub atas : List Address
    pub converted : Pairwise Converted recipients on_chain
    pub derived :
        Pairwise (λ owner ata. derive_ata net owner mint program ≡ ok ata) (addresses on_chain) atas
    pub config_derived : derive_split_config net authority mint unique_id ≡ ok split_config
    pub vault_derived : derive_vault net split_config mint program ≡ ok vault
    pub built : instruction ≡ record {
      program_address = program_id;
      accounts =
          (writes split_config
            ∷ reads unique_id
            ∷ signs authority
            ∷ pays payer
            ∷ reads mint
            ∷ writes vault
            ∷ reads program
            ∷ reads associated_token_program_address
            ∷ reads system_program_address
            ∷ [])
          ++ map reads atas;
      payload = create_split_config mint on_chain;
    }

  pub create_split_config_instruction-Yields :
      (authority mint unique_id program payer : Address) (recipients : List Recipient)
      → Yields
          (λ r.
            Creates authority mint unique_id program payer recipients r.split_config r.vault
              r.instruction)
          (create_split_config_instruction net (record {
            authority = authority;
            recipients = recipients;
            mint = some mint;
            unique_id = some unique_id;
            token_program = some program;
            payer = some payer;
          }))
  unfolding create_split_config_instruction given_or_generated create_instruction recipient_atas
  create_split_config_instruction-Yields authority mint unique_id program payer recipients =
      Yields-bind_pure _ unique_id _ (
        Yields-bind_lift _ _ _ (λ rs converted. Yields-bind_lift _ _ _ (λ sc config_derived.
          Yields-bind_lift _ _ _ (λ v vault_derived. Yields-bind_lift _ _ _ (λ atas derived.
            Yields-pure _ _ (record {
              on_chain = rs;
              atas = atas;
              converted = to_on_chain_recipients-Converted _ _ converted;
              derived = map_result-Pairwise _ _ (λ owner ata e. e) _ _ derived;
              config_derived = config_derived;
              vault_derived = vault_derived;
              built = refl;
            }))))))

  -- Where `createSplitConfig`, given all its optional parameters, returns in any state, its config
  -- and vault are the derived addresses that it reports, and its instruction's accounts are written
  -- out: the config, the id, the authority as a signer, the payer, the mint, the vault, three
  -- programs, and last the token accounts derived for the given recipients, one for each, in their
  -- order; its data is the mint and those recipients, each converted.
  pub create_split_config_instruction_lem :
      (authority mint unique_id program payer : Address) (recipients : List Recipient) (s : Store W)
      (r : CreateSplitConfigResult)
      → (create_split_config_instruction net
          (record {
            authority = authority;
            recipients = recipients;
            mint = some mint;
            unique_id = some unique_id;
            token_program = some program;
            payer = some payer;
          })
          s).0
        ≡ ok r
      → Creates authority mint unique_id program payer recipients r.split_config r.vault
          r.instruction
  create_split_config_instruction_lem authority mint unique_id program payer recipients s r h =
      (create_split_config_instruction-Yields authority mint unique_id program payer recipients).at
        s r h
