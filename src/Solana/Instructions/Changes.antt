-- ===== src/Solana/Instructions/Changes.antt =====
-- What the instructions that update and close a config are made of.
use splits.Solana.Action.{Store}
use splits.Prelude.{◌≡◌, refl, some, List, [], ◌∷◌, ◌++◌, map}
use splits.Outcome.{ok}
use splits.Solana.Types.{
  Address, Recipient, OnChainRecipient, SplitConfig, Instruction, update_split_config,
  close_split_config, program_id,
}
use splits.Solana.Network.{Network}
use splits.Solana.Action.Yields.{
  Yields, Yields-pure, Yields-bind_lift, Yields-bind_pure, YieldsAt, YieldsAt-bind,
}
use splits.Solana.Derive.{derive_ata}
use splits.Solana.Reads.{get_split_config}
use splits.Solana.Instructions.{
  update_instruction, close_instruction, given_or_detected, recipient_atas,
  update_split_config_instruction, close_split_config_instruction,
}
use splits.Solana.Instructions.Parts.{
  reads, writes, signs, Pairwise, Converted, map_result-Pairwise, to_on_chain_recipients-Converted,
}
use splits.Solana.Instructions.Shape.{addresses, get_split_config-Yields}

module _ {W : Type 0} (net : Network W) where
  pub record Updates (authority program split_config : Address) (recipients : List Recipient)
      (instruction : Instruction) : Type 0 where
    pub state : Store W
    pub config : SplitConfig
    pub on_chain : List OnChainRecipient
    pub atas : List Address
    pub read : (get_split_config net split_config state).0 ≡ ok config
    pub of_config : config.address ≡ split_config
    pub converted : Pairwise Converted recipients on_chain
    pub derived :
        Pairwise
          (λ owner ata. derive_ata net owner config.mint program ≡ ok ata)
          (addresses on_chain)
          atas
    pub built : instruction ≡ record {
      program_address = program_id;
      accounts =
          (writes split_config
            ∷ reads config.vault
            ∷ reads config.mint
            ∷ signs authority
            ∷ reads program
            ∷ [])
          ++ map reads atas;
      payload = update_split_config on_chain;
    }

  abbrev UpdatesAt : Store W → Address → Address → Address → List Recipient → Instruction → Type 0
  UpdatesAt s authority program split_config recipients i =
      (u : Updates authority program split_config recipients i) × (u.state ≡ s)

  update_split_config_instruction-At :
      (split_config authority : Address) (recipients : List Recipient) (program : Address)
      (s : Store W)
      → YieldsAt
          (UpdatesAt s authority program split_config recipients)
          (update_split_config_instruction net split_config authority recipients (some program))
          s
  unfolding update_split_config_instruction given_or_detected update_instruction recipient_atas
  update_split_config_instruction-At split_config authority recipients program s =
      YieldsAt-bind _ _ _ s (λ c read.
        let named = (get_split_config-Yields net split_config).at s c read in
        (Yields-bind_pure _ program _ (
            Yields-bind_lift _ _ _ (λ rs converted. Yields-bind_lift _ _ _ (λ atas derived.
              Yields-pure _ _ (
                record {
                  state = s;
                  config = c;
                  on_chain = rs;
                  atas = atas;
                  read = read;
                  of_config = named;
                  converted = to_on_chain_recipients-Converted _ _ converted;
                  derived = map_result-Pairwise _ _ (λ owner ata e. e) _ _ derived;
                  built = rw named refl;
                },
                refl,
              ))))).at
          (get_split_config net split_config s).1)

  pub update_split_config_instruction-Yields :
      (split_config authority : Address) (recipients : List Recipient) (program : Address)
      → Yields
          (Updates authority program split_config recipients)
          (update_split_config_instruction net split_config authority recipients (some program))
  update_split_config_instruction-Yields split_config authority recipients program = record {
    at = λ s i e.
        (update_split_config_instruction-At split_config authority recipients program s i e).0;
  }

  pub record Closes (authority rent_receiver program split_config : Address)
      (instruction : Instruction) : Type 0 where
    pub state : Store W
    pub config : SplitConfig
    pub read : (get_split_config net split_config state).0 ≡ ok config
    pub of_config : config.address ≡ split_config
    pub built : instruction ≡ record {
      program_address = program_id;
      accounts =
          writes split_config
          ∷ writes config.vault
          ∷ signs authority
          ∷ writes rent_receiver
          ∷ reads program
          ∷ [];
      payload = close_split_config;
    }

  abbrev ClosesAt : Store W → Address → Address → Address → Address → Instruction → Type 0
  ClosesAt s authority rent_receiver program split_config i =
      (c : Closes authority rent_receiver program split_config i) × (c.state ≡ s)

  close_split_config_instruction-At :
      (split_config authority rent_receiver program : Address) (s : Store W)
      → YieldsAt
          (ClosesAt s authority rent_receiver program split_config)
          (close_split_config_instruction net split_config authority
            (some rent_receiver)
            (some program))
          s
  unfolding close_split_config_instruction given_or_detected close_instruction
  close_split_config_instruction-At split_config authority rent_receiver program s =
      YieldsAt-bind _ _ _ s (λ c read.
        let named = (get_split_config-Yields net split_config).at s c read in
        (Yields-bind_pure _ program _ (
            Yields-pure _ _ (
              record {
                state = s;
                config = c;
                read = read;
                of_config = named;
                built = rw named refl;
              },
              refl,
            ))).at
          (get_split_config net split_config s).1)

  pub close_split_config_instruction-Yields :
      (split_config authority rent_receiver program : Address)
      → Yields (Closes authority rent_receiver program split_config) (
          close_split_config_instruction net split_config authority
            (some rent_receiver)
            (some program))
  close_split_config_instruction-Yields split_config authority rent_receiver program = record {
    at = λ s i e.
        (close_split_config_instruction-At split_config authority rent_receiver program s i e).0;
  }

  -- Where `updateSplitConfig`, given a token program, returns in a state, its instruction is the
  -- update of the config read in that state: its accounts are written out, among them that config's
  -- vault and mint, the authority as a signer, and last the token accounts derived for the given
  -- recipients, one for each, in their order; its data is those recipients, each converted.
  pub update_split_config_instruction_lem :
      (split_config authority : Address) (recipients : List Recipient) (program : Address)
      (s : Store W) (i : Instruction)
      → (update_split_config_instruction net split_config authority recipients (some program) s).0
        ≡ ok i
      → (u : Updates authority program split_config recipients i) × (u.state ≡ s)
  update_split_config_instruction_lem split_config authority recipients program s i h =
      update_split_config_instruction-At split_config authority recipients program s i h

  -- Where `closeSplitConfig`, given a rent receiver and a token program, returns in a state, its
  -- instruction is the closing of the config read in that state: its accounts are written out,
  -- among them that config's vault as writable, the authority as a signer and the rent receiver as
  -- writable.
  pub close_split_config_instruction_lem :
      (split_config authority rent_receiver program : Address) (s : Store W) (i : Instruction)
      → (close_split_config_instruction net split_config authority
          (some rent_receiver)
          (some program)
          s).0
        ≡ ok i
      → (c : Closes authority rent_receiver program split_config i) × (c.state ≡ s)
  close_split_config_instruction_lem split_config authority rent_receiver program s i h =
      close_split_config_instruction-At split_config authority rent_receiver program s i h
