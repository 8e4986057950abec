-- ===== src/Tabs/Fetch/Repeats.antt =====
-- What the request that tabsFetch repeats keeps of the given one.
use splits.Prelude.{◌≡◌, refl, String, some, [], ◌∷◌, ◌===◌, if◌then◌else◌}
use splits.Prelude.Map
use splits.Prelude.Map.{Map, get-set, get-set_self}
use splits.Tabs.Fetch.{
  FetchOptions, HeadersInit, no_headers, headers_object, headers_instance, headers_pairs, spread,
  Fetcher, with_payment,
}

-- The headers of the repeated request are those of an object with the payment's set; of the other
-- forms only what the spread of the code leaves is kept.
abbrev pub Carries : String → HeadersInit → HeadersInit → Type 0
Carries encoded (headers_object given) repeated =
    (entries : Map String) × (repeated ≡ headers_object entries)
    × ((k : String)
        → Map.get k entries ≡ (if "X-PAYMENT" === k then some encoded else Map.get k given))
Carries encoded (headers_pairs pairs) repeated =
    (entries : Map String) × (repeated ≡ headers_object entries)
    × (Map.get "X-PAYMENT" entries ≡ some encoded)
Carries encoded _ repeated = repeated ≡ headers_object (("X-PAYMENT", encoded) ∷ [])

-- the given request, with the headers that carry the payment
pub record Repeats {O : Type 0} (encoded : String) (given repeated : FetchOptions O) : Type 0 where
  pub others : repeated.others ≡ given.others
  pub carries : Carries encoded given.headers repeated.headers

spread-Carries :
    (encoded : String) (given : HeadersInit)
    → Carries encoded given (headers_object (Map.set "X-PAYMENT" encoded (spread given)))
unfolding spread Map.set
spread-Carries encoded no_headers = refl
spread-Carries encoded (headers_object given) = (_, refl, λ k. get-set "X-PAYMENT" k encoded given)
spread-Carries encoded (headers_instance given) = refl
spread-Carries encoded (headers_pairs pairs) =
    (_, refl, get-set_self "X-PAYMENT" encoded (spread (headers_pairs pairs)))

pub with_payment-Repeats :
    {W O R : Type 0} (net : Fetcher W O R) (encoded : String) (given : FetchOptions O)
    → Repeats encoded given (with_payment net encoded given)
unfolding with_payment
with_payment-Repeats net encoded given = record {
  others = refl;
  carries = spread-Carries encoded given.headers;
}
