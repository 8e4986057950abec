-- ===== src/Solana/Instructions/Execution.antt =====
-- What an execution instruction is made of.
use splits.Solana.Action.{Store}
use splits.Prelude.{◌≡◌, refl, some, List, [], ◌∷◌, ◌++◌, map}
use splits.Outcome.{Result, ok, throw, Thrown}
use splits.Solana.Types.{
  Address, SplitConfig, ProtocolConfig, Instruction, execute_split, program_id,
}
use splits.Solana.Network.{Network}
use splits.Solana.Derive.{derive_ata}
use splits.Solana.Reads.{get_split_config, get_protocol_config}
use splits.Solana.Action.Yields.{
  YieldsAt-bind_attempt, Yields, Yields-pure, Yields-bind_lift, YieldsAt, YieldsAt-bind,
  YieldsAt-bind_pure,
}
use splits.Solana.Instructions.{
  ExecuteSplitResult, success, not_found, not_a_split, execute_instruction, given_or_detected,
  recipient_atas, execute_fetched, execute_split_instruction,
}
use splits.Solana.Instructions.Parts.{reads, writes, Pairwise, map_result-Pairwise}
use splits.Solana.Instructions.Shape.{get_split_config-Yields}

module _ {W : Type 0} (net : Network W) where
  -- The instruction of an execution, from a config and a protocol config that were read.
  pub record Executes (executor program split_config : Address) (instruction : Instruction)
      : Type 0 where
    pub state : Store W
    pub config : SplitConfig
    pub protocol : ProtocolConfig
    pub atas : List Address
    pub protocol_ata : Address
    pub read : (get_split_config net split_config state).0 ≡ ok config
    pub protocol_read :
        (get_protocol_config net (get_split_config net split_config state).1).0 ≡ ok protocol
    pub of_config : config.address ≡ split_config
    pub derived :
        Pairwise
          (λ owner ata. derive_ata net owner config.mint program ≡ ok ata)
          (map (λ r. r.address) config.recipients)
          atas
    pub protocol_derived : derive_ata net protocol.fee_wallet config.mint program ≡ ok protocol_ata
    pub built : instruction ≡ record {
      program_address = program_id;
      accounts =
          (writes split_config
            ∷ writes config.vault
            ∷ reads config.mint
            ∷ reads protocol.address
            ∷ reads executor
            ∷ reads program
            ∷ [])
          ++ (map writes atas ++ (writes protocol_ata ∷ []));
      payload = execute_split;
    }

  abbrev pub Executable : Address → Address → Address → ExecuteSplitResult → Type 0
  Executable executor program split_config (success i) = Executes executor program split_config i
  Executable executor program split_config (not_found a) = a ≡ split_config
  Executable executor program split_config (not_a_split a) = ⊥

  -- the same of a call in the state `s`, with what was read there
  abbrev pub ExecutableAt : Store W → Address → Address → Address → ExecuteSplitResult → Type 0
  ExecutableAt s executor program split_config (success i) =
      (x : Executes executor program split_config i) × (x.state ≡ s)
  ExecutableAt s executor program split_config (not_found a) =
      (a ≡ split_config) × ((e : Thrown) × ((get_split_config net split_config s).0 ≡ throw e))
  ExecutableAt s executor program split_config (not_a_split a) = ⊥

  execute_fetched-At :
      (split_config executor program : Address) (r : Result SplitConfig) (s : Store W)
      → (get_split_config net split_config s).0 ≡ r
      → YieldsAt
          (ExecutableAt s executor program split_config)
          (execute_fetched net split_config executor (some program) r)
          (get_split_config net split_config s).1
  unfolding execute_fetched given_or_detected execute_instruction recipient_atas
  execute_fetched-At split_config executor program (throw e) s read =
      (Yields-pure (ExecutableAt s executor program split_config) _ (refl, (e, read))).at _
  execute_fetched-At split_config executor program (ok c) s read =
      let named = (get_split_config-Yields net split_config).at s c read in
      YieldsAt-bind_pure (ExecutableAt s executor program split_config) program _ _ (
        YieldsAt-bind _ _ _ _ (λ protocol protocol_read.
          (Yields-bind_lift _ _ _ (λ atas derived. Yields-bind_lift _ _ _ (λ ata protocol_derived.
              Yields-pure _ _ (
                record {
                  state = s;
                  config = c;
                  protocol = protocol;
                  atas = atas;
                  protocol_ata = ata;
                  read = read;
                  protocol_read = protocol_read;
                  of_config = named;
                  derived = map_result-Pairwise _ _ (λ owner ata e. e) _ _ derived;
                  protocol_derived = protocol_derived;
                  built = rw named refl;
                },
                refl,
              )))).at
            _))

  execute_split_instruction-At :
      (split_config executor program : Address) (s : Store W)
      → YieldsAt
          (ExecutableAt s executor program split_config)
          (execute_split_instruction net split_config executor (some program))
          s
  unfolding execute_split_instruction
  execute_split_instruction-At split_config executor program s =
      YieldsAt-bind_attempt _ _ _ s (execute_fetched-At split_config executor program _ s refl)

  executable :
      (split_config executor program : Address) (s : Store W) (r : ExecuteSplitResult)
      → ExecutableAt s executor program split_config r
      → Executable executor program split_config r
  executable split_config executor program s (success i) x = x.0
  executable split_config executor program s (not_found a) x = x.0
  executable split_config executor program s (not_a_split a) x = x

  pub execute_split_instruction-Yields :
      (split_config executor program : Address)
      → Yields
          (Executable executor program split_config)
          (execute_split_instruction net split_config executor (some program))
  execute_split_instruction-Yields split_config executor program = record {
    at = λ s r e.
        executable split_config executor program s r
          (execute_split_instruction-At split_config executor program s r e);
  }

  -- Where `executeSplit`, given a token program, returns in a state, its result is `success` where
  -- the config was read in that state: the execution of that config, with its accounts written out,
  -- the token account derived for each of its recipients, and that of the fee wallet of the
  -- protocol config read after it; or it is `not_found` for the given address, where the read of
  -- the config threw; it is never `not_a_split`.
  pub execute_split_instruction_lem :
      (split_config executor program : Address) (s : Store W) (r : ExecuteSplitResult)
      → (execute_split_instruction net split_config executor (some program) s).0 ≡ ok r
      → ExecutableAt s executor program split_config r
  execute_split_instruction_lem split_config executor program s r h =
      execute_split_instruction-At split_config executor program s r h
