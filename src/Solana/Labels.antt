-- ===== src/Solana/Labels.antt =====
-- labelToSeed and seedToLabel of packages/splits-sdk/src/helpers.ts.
pub mod Roundtrip
use splits.Prelude.{
  ℕ, zero, suc, ◌-◌, String, Bool, true, false, ◌&&◌, Option, none, some, List, [], ◌∷◌, ◌++◌,
  length, drop, replicate, ltb, ◌==◌, if◌then◌else◌,
}
use splits.Prelude.Text.{◌<>◌, show, has_prefix}
use splits.Outcome.{Result, ok, throw, error}

-- The runtime's and the library's codecs; `Seed` stands for the library's addresses.
pub record Codecs (Seed : Type 0) : Type 0 where
  -- `label.length`
  pub units : String → ℕ
  -- `TextEncoder.encode`, `TextDecoder.decode`
  pub encode : String → List ℕ
  pub decode : List ℕ → String
  -- `addressDecoder.decode`, `addressEncoder.encode`
  pub decode_address : List ℕ → Seed
  pub encode_address : Seed → List ℕ
  -- the message of the RangeError of `Uint8Array.set`
  pub out_of_bounds : String

-- `LABEL_PREFIX_BYTES`, the text "CSPL:"
abbrev pub label_prefix_bytes : List ℕ
label_prefix_bytes = 67 ∷ 83 ∷ 80 ∷ 76 ∷ 58 ∷ []

abbrev pub max_label_length : ℕ
max_label_length = 27

-- the 32 bytes, padded with zeros
unfoldable pub padded : List ℕ → List ℕ
padded label = label_prefix_bytes ++ (label ++ replicate (27 - length label) 0)

-- the bytes up to the first null byte
unfoldable pub until_null : List ℕ → List ℕ
until_null [] = []
until_null (zero ∷ bytes) = []
until_null (suc b ∷ bytes) = suc b ∷ until_null bytes

module _ {Seed : Type 0} (codecs : Codecs Seed) where
  -- `bytes.set(labelBytes, 5)` throws where the label does not fit
  unfoldable pub placed : List ℕ → Result Seed
  unfolding padded
  placed label =
      if ltb 27 (length label)
      then throw (error codecs.out_of_bounds)
      else ok (codecs.decode_address (padded label))

  unfoldable pub label_to_seed : String → Result Seed
  unfolding placed show ◌<>◌
  label_to_seed label =
      if ltb max_label_length (codecs.units label)
      then throw (error ("Label too long: " <> show (codecs.units label) <> " chars (max 27)"))
      else placed (codecs.encode label)

  unfoldable pub label_of : List ℕ → Option String
  unfolding has_prefix until_null
  label_of bytes =
      if has_prefix label_prefix_bytes bytes
      then some (codecs.decode (until_null (drop 5 bytes)))
      else none

  unfoldable pub seed_to_label : Seed → Option String
  unfolding label_of
  seed_to_label seed = label_of (codecs.encode_address seed)
