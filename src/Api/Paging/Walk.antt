-- ===== src/Api/Paging/Walk.antt =====
-- api/api_common.py: a client that follows the links of the emulated pages.
use apmec.Prelude.{
  ℕ, zero, suc, ◌-◌, ◌+◌, ◌≤◌, ◌<◌, ◌≡◌, ◌≢◌, refl, ap, ◌∙◌, String, false, Option, none, some,
  List, [], ◌∷◌, ◌++◌, arith, ◌==◌, eq_iff, eq_refl, Bool-cases, inl, inr, ltb, length,
  length-append, take, drop, take-drop, drop-append, All,
}
use apmec.Api.Paging.{Link, next, looked_at, seen, paginate, last_key, get_pagination_links}

-- The marker of the link to the next page.
abbrev pub next_of : List Link → Option (Option String)
next_of (next marker ∷ links) = some marker
next_of _ = none

length-take : {A : Type 0} (n : ℕ) (xs : List A) → length (take n xs) ≤ n
length-take zero xs = omega arith
length-take (suc n) [] = omega arith
length-take (suc n) (x ∷ xs) = omega (arith, length-take n xs)

-- A page that is not full is all that is left.
take_all : {A : Type 0} (n : ℕ) (xs : List A) → length (take n xs) < n → take n xs ≡ xs
take_all zero xs h = absurd (omega arith)
take_all (suc n) [] h = refl
take_all (suc n) (x ∷ xs) h = ap (λ zs. x ∷ zs) (take_all n xs (omega arith))

length-drop :
    {A : Type 0} (n : ℕ) (xs : List A) → length (take n xs) + length (drop n xs) ≡ length xs
length-drop n xs = omega (arith, length-append (take n xs) (drop n xs), ap length (take-drop n xs))

pub append_nil : {A : Type 0} (xs : List A) → xs ++ [] ≡ xs
append_nil [] = refl
append_nil (x ∷ xs) = ap (λ ws. x ∷ ws) (append_nil xs)

pub assoc : {A : Type 0} (xs ys zs : List A) → (xs ++ ys) ++ zs ≡ xs ++ (ys ++ zs)
assoc [] ys zs = refl
assoc (x ∷ xs) ys zs = ap (λ ws. x ∷ ws) (assoc xs ys zs)

module _ {A : Type 0} (key : A → String) where
  -- The pages that a client reads from a marker on, one after the other.
  abbrev pub walk : ℕ → ℕ → Option String → List A → List A
  walk zero limit marker items = []
  walk (suc fuel) limit marker items =
      let here = paginate key (some limit) marker false items in
      here ++ (elim (next_of (get_pagination_links key here (some limit) false)) [
        | none ↦ []
        | some after ↦ walk fuel limit after items
      ])

  -- Keys that are distinct and not blank.
  abbrev pub AreKeys : List A → Type 0
  AreKeys [] = Unit
  AreKeys (x ∷ xs) = (key x ≢ "") × All (λ y. key y ≢ key x) xs × AreKeys xs

  -- What the loop of `paginate` makes of the key of the last of some items.
  record Last (x : A) (xs rest : List A) : Type 1 where
    k : String
    is_last : last_key key (x ∷ xs) ≡ some k
    found : looked_at key k (x ∷ (xs ++ rest)) ≡ suc (length xs)
    among : (P : String → Type 0) → All (λ y. P (key y)) (x ∷ (xs ++ rest)) → P k

  to_last : (x : A) (xs rest : List A) → AreKeys (x ∷ (xs ++ rest)) → Last x xs rest
  unfolding looked_at
  to_last x [] rest h = record {
    k = key x;
    is_last = refl;
    found = rw (eq_refl (key x)) refl;
    among = λ P all. all.0;
  }
  to_last x (y ∷ xs) rest h =
      let l = to_last y xs rest h.2 in
      let other : key x == l.k ≡ false =
        ground (arith, eq_iff (key x) l.k, l.among (λ k. k ≢ key x) h.1) in
      record {
        k = l.k;
        is_last = l.is_last;
        found = rw (other, l.found) refl;
        among = λ P all. l.among P all.1;
      }

  pub seen-last :
      (past rest : List A)
      → AreKeys (past ++ rest)
      → seen key (last_key key past) (past ++ rest) ≡ length past
  seen-last [] rest h = refl
  seen-last (x ∷ xs) rest h =
      let l = to_last x xs rest h in
      let named : l.k == "" ≡ false =
        ground (arith, eq_iff l.k "", l.among (λ k. k ≢ "") (named_all (x ∷ (xs ++ rest)) h)) in
      rw (l.is_last, named, l.found) refl
    where
      named_all : (ys : List A) → AreKeys ys → All (λ y. key y ≢ "") ys
      named_all [] h = tt
      named_all (y ∷ ys) h = (h.0, named_all ys h.2)

  last_key-append :
      (xs : List A) (y : A) (ys : List A) → last_key key (xs ++ (y ∷ ys)) ≡ last_key key (y ∷ ys)
  last_key-append [] y ys = refl
  last_key-append (x ∷ []) y ys = refl
  last_key-append (x ∷ z ∷ xs) y ys = last_key-append (z ∷ xs) y ys

  last_of_full : (xs ys : List A) → 1 ≤ length ys → last_key key (xs ++ ys) ≡ last_key key ys
  last_of_full xs [] h = absurd (omega arith)
  last_of_full xs (y ∷ ys) h = last_key-append xs y ys

  -- The page after the items that a marker ends.
  page-after :
      (limit : ℕ) (marker : Option String) (past rest : List A)
      → seen key marker (past ++ rest) ≡ length past
      → paginate key (some limit) marker false (past ++ rest) ≡ take limit rest
  unfolding paginate
  page-after limit marker past rest h =
      let width : length past + limit - length past ≡ limit = omega arith in
      rw (h, width, drop-append past rest) refl

  walk_rest :
      (fuel limit : ℕ) (marker : Option String) (past rest : List A)
      → AreKeys (past ++ rest)
      → 1 ≤ limit
      → length rest < fuel
      → seen key marker (past ++ rest) ≡ length past
      → walk fuel limit marker (past ++ rest) ≡ rest
  unfolding get_pagination_links
  walk_rest zero limit marker past rest keys one enough h = absurd (omega arith)
  walk_rest (suc fuel) limit marker past rest keys one enough h =
      elim (Bool-cases (ltb (length (take limit rest)) limit)) [
        | inl short ↦
            rw (page-after limit marker past rest h, short)
              (append_nil (take limit rest) ∙ take_all limit rest (ground (arith, short)))
        | inr full ↦
            let here = take limit rest in
            let whole : (past ++ here) ++ drop limit rest ≡ past ++ rest =
              assoc past here (drop limit rest) ∙ ap (λ zs. past ++ zs) (take-drop limit rest) in
            let onward =
              walk_rest fuel limit (last_key key here) (past ++ here) (drop limit rest)
                (rw whole keys) one (ground (arith, length-drop limit rest, full))
                (rw (← (last_of_full past here (ground (arith, full))))
                  (seen-last (past ++ here) (drop limit rest) (rw whole keys))) in
            rw (page-after limit marker past rest h, full)
              (ap (λ zs. here ++ zs) (rw whole at onward) ∙ take-drop limit rest)
      ]

  pub walk-all :
      (limit : ℕ) (items : List A)
      → AreKeys items
      → 1 ≤ limit
      → walk (suc (length items)) limit none items ≡ items
  walk-all limit items keys one =
      walk_rest (suc (length items)) limit none [] items keys one (omega arith) refl
