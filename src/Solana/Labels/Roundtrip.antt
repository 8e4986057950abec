-- ===== src/Solana/Labels/Roundtrip.antt =====
-- A label is read back from its seed, and nothing else is taken for one.
use splits.Prelude.{
  ℕ, zero, suc, ◌-◌, ◌<◌, ◌≤◌, ◌≡◌, refl, ap, ◌∙◌, String, some, List, [], ◌∷◌, ◌++◌, length,
  replicate, arith, All, length-append, length-replicate,
}
use splits.Prelude.Text.{has_prefix}
use splits.Outcome.{ok}
use splits.Solana.Labels.{
  Codecs, padded, until_null, placed, label_to_seed, label_of, seed_to_label,
}

until_null-padding :
    (label : List ℕ) (n : ℕ) → All (λ b. 0 < b) label → until_null (label ++ replicate n 0) ≡ label
unfolding until_null
until_null-padding [] zero p = refl
until_null-padding [] (suc n) p = refl
until_null-padding (zero ∷ bs) n p = absurd (omega (arith, p.0))
until_null-padding (suc b ∷ bs) n p = ap (◌∷◌ (suc b)) (until_null-padding bs n p.1)

length-padded : (label : List ℕ) → length label ≤ 27 → length (padded label) ≡ 32
unfolding padded
length-padded label h = omega (
  arith,
  length-append label (replicate (27 - length label) 0),
  length-replicate {A = ℕ} (27 - length label) 0,
)

module _ {Seed : Type 0} (codecs : Codecs Seed) where
  placed_lem :
      (label : List ℕ) {seed : Seed}
      → placed codecs label ≡ ok seed
      → (length label ≤ 27) × (seed ≡ codecs.decode_address (padded label))
  unfolding placed
  placed_lem label h = ground arith

  label_to_seed_lem :
      (label : String) {seed : Seed}
      → label_to_seed codecs label ≡ ok seed
      → placed codecs (codecs.encode label) ≡ ok seed
  unfolding label_to_seed
  label_to_seed_lem label h = ground arith

  label_of-padded :
      (label : List ℕ)
      → All (λ b. 0 < b) label
      → label_of codecs (padded label) ≡ some (codecs.decode label)
  unfolding label_of padded has_prefix
  label_of-padded label p = ap (λ bs. some (codecs.decode bs)) (until_null-padding label _ p)

  -- Where the library's addresses decode to the 32 bytes that they were made of, the decoder of
  -- texts undoes the encoder on the label, and the label's bytes hold no null, a seed that
  -- `labelToSeed` makes of the label is read back by `seedToLabel` as that label.
  pub seed_to_label-label_to_seed :
      (label : String) {seed : Seed}
      → ((bytes : List ℕ)
          → length bytes ≡ 32
          → codecs.encode_address (codecs.decode_address bytes) ≡ bytes)
      → codecs.decode (codecs.encode label) ≡ label
      → All (λ b. 0 < b) (codecs.encode label)
      → label_to_seed codecs label ≡ ok seed
      → seed_to_label codecs seed ≡ some label
  unfolding seed_to_label
  seed_to_label-label_to_seed label {seed} addresses texts no_null h =
      let (short, same) = placed_lem (codecs.encode label) (label_to_seed_lem label h) in
      let bytes : codecs.encode_address seed ≡ padded (codecs.encode label) =
        ap codecs.encode_address same
        ∙ addresses (padded (codecs.encode label)) (length-padded (codecs.encode label) short) in
      ap (label_of codecs) bytes ∙ label_of-padded (codecs.encode label) no_null ∙ ap some texts
