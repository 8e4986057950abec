-- ===== src/Solana/Tests/Labels.antt =====
-- The theorem on labels at a concrete input: addresses that are their bytes.
use splits.Prelude.{ℕ, ◌≡◌, refl, ◌<◌, arith, some, List, All}
use splits.Prelude.Text.{codes}
use splits.Outcome.{ok}
use splits.Solana.Labels.{Codecs, label_to_seed, seed_to_label, padded}
use splits.Solana.Labels.Roundtrip.{seed_to_label-label_to_seed}

-- code points of texts that hold the letters of one label
abbrev codecs : Codecs (List ℕ)
codecs = record {
  units = λ label. 7;
  encode = codes;
  decode = λ bytes. "Split 1";
  decode_address = λ bytes. bytes;
  encode_address = λ seed. seed;
  out_of_bounds = "offset is out of bounds";
}

seeded : label_to_seed codecs "Split 1" ≡ ok (padded (codes "Split 1"))
unfolding label_to_seed codes
seeded = refl

no_null : All (λ b. 0 < b) (codes "Split 1")
unfolding codes
no_null = (
  omega arith,
  (omega arith, (omega arith, (omega arith, (omega arith, (omega arith, (omega arith, tt)))))),
)

seed_to_label-label_to_seed_example :
    seed_to_label codecs (padded (codes "Split 1")) ≡ some "Split 1"
seed_to_label-label_to_seed_example =
    seed_to_label-label_to_seed codecs "Split 1" (λ bytes h. refl) refl no_null seeded
