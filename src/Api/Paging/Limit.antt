-- ===== src/Api/Paging/Limit.antt =====
-- api/api_common.py: the bounds of a request's limit.
use apmec.Prelude.{
  ℕ, zero, suc, ◌≤◌, ◌≡◌, refl, ◌⊎◌, inl, inr, String, false, Option, none, some, arith, leb,
  nat_eq, Bool-cases,
}
use apmec.Errors.{Result, ok, err}
use apmec.Value.{ℤ, pos, negsuc}
use apmec.Api.Paging.{
  Query, get_limit_param, get_pagination_max_limit, at_most, limit_and_marker, get_limit_and_marker,
}

-- What a limit is where the configuration sets a maximum: one, which is no greater.
abbrev pub IsBounded : ℤ → ℕ → Option ℕ → Type 0
IsBounded (pos (suc m)) asked none = ⊥
IsBounded (pos (suc m)) asked (some limit) =
    (1 ≤ limit) × (limit ≤ suc m) × ((asked ≡ 0) ⊎ (limit ≤ asked))
IsBounded _ asked none = asked ≡ 0
IsBounded _ asked (some limit) = limit ≡ asked

positive : (n : ℕ) → nat_eq (suc n) 0 ≡ false
positive n = ground arith

bounded :
    (max : ℤ) (asked : ℕ) (marker : Option String)
    → IsBounded max asked (limit_and_marker (at_most max asked) marker).0
bounded (negsuc n) zero marker = refl
bounded (negsuc n) (suc asked) marker = refl
bounded (pos zero) zero marker = refl
bounded (pos zero) (suc asked) marker = refl
bounded (pos (suc m)) zero marker = rw (positive m) (omega arith, omega arith, inl refl)
bounded (pos (suc m)) (suc asked) marker = elim (Bool-cases (leb (suc m) (suc asked))) [
  | inl over ↦
      rw (positive m, positive asked, over) (omega arith, omega arith, inr (ground (arith, over)))
  | inr under ↦
      rw (positive m, positive asked, under) (omega arith, ground (arith, under), inr (omega arith))
]

-- Where the configuration sets a maximum, `get_limit_and_marker` that returns gives a limit of at least
-- 1 and at most the maximum, and at most what the request asks for where it asks for one that is not 0;
-- where it sets none, it gives the limit of the request, and None for 0.
pub get_limit_and_marker-IsBounded :
    (conf : String) (query : Query) (r : Option ℕ × Option String)
    → get_limit_and_marker conf query ≡ ok r
    → (asked : ℕ) × (get_limit_param query ≡ ok asked)
      × IsBounded (get_pagination_max_limit conf) asked r.0
unfolding get_limit_and_marker
get_limit_and_marker-IsBounded conf query r h = go (get_limit_param query) refl
  where
    go :
        (o : Result ℕ)
        → get_limit_param query ≡ o
        → (asked : ℕ) × (get_limit_param query ≡ ok asked)
          × IsBounded (get_pagination_max_limit conf) asked r.0
    go (err e) eq = absurd (cc (rw (get_limit_and_marker, eq) at h))
    go (ok asked) eq =
        let max = get_pagination_max_limit conf in
        let same : limit_and_marker (at_most max asked) (query.get "marker") ≡ r =
          cc (rw (get_limit_and_marker, eq) at h) in
        (asked, eq, rw (← same) (bounded max asked (query.get "marker")))
