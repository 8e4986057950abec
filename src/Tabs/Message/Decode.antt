-- ===== src/Tabs/Message/Decode.antt =====
-- The reader of compiled instructions, as the format describes it, and what it makes of the bytes
-- that the serializer writes.
use splits.Prelude.{
  ℕ, zero, suc, ◌+◌, ◌*◌, ◌/◌, ◌%◌, ◌<◌, ◌≡◌, refl, Option, none, some, List, [], ◌∷◌, ◌++◌, map,
  length, take, drop, All, arith, take_append_self, append_assoc,
}
use splits.Solana.Reads.Words.{drop_append_self}
use splits.Tabs.Message.{byte, serialize_compiled_instruction, joined}

-- what a compiled instruction is: indices into the accounts, and its data
pub record Compiled : Type 0 where
  pub program : ℕ
  pub indexes : List ℕ
  pub payload : List ℕ

abbrev pub bytes_of : Compiled → List ℕ
bytes_of c = serialize_compiled_instruction c.program c.indexes c.payload

-- a length of one byte with its items, then a length of two bytes, the low one first, with its
unfoldable pub read_payload : ℕ → List ℕ → List ℕ → Option (Compiled × List ℕ)
read_payload program indexes (lo ∷ hi ∷ bytes) = some (
  record { program = program; indexes = indexes; payload = take (lo + 256 * hi) bytes },
  drop (lo + 256 * hi) bytes,
)
read_payload program indexes bytes = none

unfoldable pub read_instruction : List ℕ → Option (Compiled × List ℕ)
unfolding read_payload
read_instruction (program ∷ count ∷ bytes) =
    read_payload program (take count bytes) (drop count bytes)
read_instruction bytes = none

unfoldable pub and_then : Compiled → Option (List Compiled) → Option (List Compiled)
and_then c none = none
and_then c (some cs) = some (c ∷ cs)

unfoldable pub read_instructions : ℕ → List ℕ → Option (List Compiled)
unfolding read_instruction and_then
read_instructions zero bytes = some []
read_instructions (suc n) bytes = elim (read_instruction bytes) [
  | none ↦ none
  | some (c, rest) ↦ and_then c (read_instructions n rest)
]

unfoldable pub decode : List ℕ → Option (List Compiled)
unfolding read_instructions
decode [] = none
decode (count ∷ bytes) = read_instructions count bytes

-- the lengths and the indices fit their fields
abbrev pub Fits : Compiled → Type 0
Fits c =
    (c.program < 256)
    × (length c.indexes < 256)
    × (length c.payload < 65536)
    × All (λ i. i < 256) c.indexes

map-byte : (is : List ℕ) → All (λ i. i < 256) is → map byte is ≡ is
map-byte [] h = refl
map-byte (i ∷ is) h = let low : i % 256 ≡ i = omega (arith, h.0) in cc (low, map-byte is h.1)

read_payload_lem :
    (program : ℕ) (indexes payload rest : List ℕ)
    → length payload < 65536
    → read_payload program indexes
        (byte (length payload) ∷ byte (length payload / 256) ∷ (payload ++ rest))
      ≡ some (record { program = program; indexes = indexes; payload = payload }, rest)
unfolding read_payload
read_payload_lem program indexes payload rest h =
    let n : length payload ≡ length payload % 256 + 256 * ((length payload / 256) % 256) =
      omega (arith, h) in
    rw (take_append_self payload rest _ n, drop_append_self payload rest _ n) refl

pub read_instruction_lem :
    (c : Compiled) (rest : List ℕ) → Fits c → read_instruction (bytes_of c ++ rest) ≡ some (c, rest)
unfolding read_instruction serialize_compiled_instruction
read_instruction_lem c rest (p, n, l, is) =
    let program : c.program % 256 ≡ c.program = omega (arith, p) in
    let count : length c.indexes ≡ length c.indexes % 256 = omega (arith, n) in
    rw
      (
        program,
        map-byte c.indexes is,
        ← count,
        append_assoc,
        take_append_self c.indexes _ (length c.indexes) refl,
        drop_append_self c.indexes _ (length c.indexes) refl,
      )
      (read_payload_lem c.program c.indexes c.payload rest l)

read_instructions-suc :
    (n : ℕ) (bytes rest : List ℕ) (c : Compiled) (cs : List Compiled)
    → read_instruction bytes ≡ some (c, rest)
    → read_instructions n rest ≡ some cs
    → read_instructions (suc n) bytes ≡ some (c ∷ cs)
unfolding read_instructions and_then
read_instructions-suc n bytes rest c cs e h = rw (e, read_instructions, h) refl

pub read_instructions_lem :
    (cs : List Compiled)
    → All Fits cs
    → read_instructions (length cs) (joined (map bytes_of cs)) ≡ some cs
unfolding read_instructions joined and_then
read_instructions_lem [] h = refl
read_instructions_lem (c ∷ cs) (f, fs) =
    read_instructions-suc (length cs) (bytes_of c ++ joined (map bytes_of cs))
      (joined (map bytes_of cs)) c cs (read_instruction_lem c (joined (map bytes_of cs)) f)
      (read_instructions_lem cs fs)
