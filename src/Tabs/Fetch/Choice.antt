-- ===== src/Tabs/Fetch/Choice.antt =====
-- Which option of a 402 answer is paid.
use splits.Prelude.{
  ◌≡◌, subst, ◌⊎◌, inl, inr, String, Bool, true, ◌||◌, some, List, [], ◌∷◌, ◌===◌, arith, eq_iff,
  Bool-cases, Option-cases,
}
use splits.Tabs.Fetch.{PaymentRequirements, find_option, or_else, select_option}

pub data Among (req : PaymentRequirements) : List PaymentRequirements → Type 0 where
  here : (rs : List PaymentRequirements) → Among req (req ∷ rs)
  later :
      (r : PaymentRequirements) (rs : List PaymentRequirements) → Among req rs → Among req (r ∷ rs)

Among-head :
    (req r : PaymentRequirements) (rs : List PaymentRequirements) → r ≡ req → Among req (r ∷ rs)
Among-head req r rs e = rw e (here rs)

-- one of the options, on the wanted network or on a Solana one
abbrev pub Chosen : String → List PaymentRequirements → PaymentRequirements → Type 0
Chosen network options req =
    Among req options
    × ((req.network ≡ network) ⊎ ((req.network ≡ "solana") ⊎ (req.network ≡ "solana-devnet")))

find_option_lem :
    (p : PaymentRequirements → Bool) (rs : List PaymentRequirements) (req : PaymentRequirements)
    → find_option p rs ≡ some req
    → Among req rs × (p req ≡ true)
unfolding find_option
find_option_lem p [] req h = cc
find_option_lem p (r ∷ rs) req h = elim (Bool-cases (p r)) [
  | inl e ↦
      let same : r ≡ req = cc (rw e at h) in
      (Among-head req r rs same, subst (λ x. p x ≡ true) same e)
  | inr e ↦ let (m, q) = find_option_lem p rs req (rw e at h) in (later r rs m, q)
]

pub select_option-Chosen :
    (network : String) (rs : List PaymentRequirements) (req : PaymentRequirements)
    → select_option network rs ≡ some req
    → Chosen network rs req
unfolding select_option or_else
select_option-Chosen network rs req h =
    elim (Option-cases (find_option (λ r. r.network === network) rs)) [
      | inl e ↦
          let (m, q) =
            find_option_lem (λ r. r.network === "solana" || r.network === "solana-devnet") rs req
              (rw e at h) in
          (
            m,
            inr (elim (Bool-cases (req.network === "solana")) [
              | inl y ↦ inl ((eq_iff req.network "solana").0 y)
              | inr n ↦ inr ((eq_iff req.network "solana-devnet").0 (ground (arith, q, n)))
            ]),
          )
      | inr (r, e) ↦
          let (m, q) = find_option_lem (λ r. r.network === network) rs r e in
          let same : r ≡ req = cc (rw e at h) in
          (
            subst (λ x. Among x rs) same m,
            inl (subst (λ x. x.network ≡ network) same ((eq_iff r.network network).0 q)),
          )
    ]
