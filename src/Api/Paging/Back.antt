-- ===== src/Api/Paging/Back.antt =====
-- api/api_common.py: the emulated pages with `page_reverse`.
use apmec.Prelude.{
  ℕ, zero, suc, ◌-◌, ◌+◌, ◌≤◌, ◌≡◌, refl, ap, String, true, false, some, List, [], ◌∷◌, ◌++◌, arith,
  length, length-append, leb, Bool-cases, inl, inr, if◌then◌else◌, take, drop,
}
use apmec.Value.{pos, negsuc}
use apmec.Api.Paging.{minus, seen, last_key, paginate}
use apmec.Api.Paging.Walk.{AreKeys, seen-last, assoc}

module _ {A : Type 0} where
  take-append : (xs ys : List A) → take (length xs) (xs ++ ys) ≡ xs
  take-append [] ys = refl
  take-append (x ∷ xs) ys = ap (λ zs. x ∷ zs) (take-append xs ys)

  take-within :
      (m : ℕ) (xs ys : List A)
      → m ≤ length xs
      → take (length xs - m) (drop m (xs ++ ys)) ≡ drop m xs
  take-within zero xs ys h =
      let same : length xs - 0 ≡ length xs = omega arith in rw same (take-append xs ys)
  take-within (suc m) [] ys h = absurd (omega arith)
  take-within (suc m) (x ∷ xs) ys h =
      let less : suc (length xs) - suc m ≡ length xs - m = omega arith in
      rw less (take-within m xs ys (omega arith))

minus-more : (a b c : ℕ) → a ≡ c + b → minus a b ≡ pos c
minus-more a b c h =
    let less : a - b ≡ c = omega arith in
    let test : leb b a ≡ true = ground arith in rw (test, less) refl

minus-less : (a b c : ℕ) → b ≡ suc c + a → minus a b ≡ negsuc c
minus-less a b c h =
    let less : b - suc a ≡ c = omega arith in
    let test : leb b a ≡ false = ground arith in rw (test, less) refl

module _ {A : Type 0} (key : A → String) where
  last_key-end : (xs : List A) (x : A) → last_key key (xs ++ (x ∷ [])) ≡ some (key x)
  last_key-end [] x = refl
  last_key-end (y ∷ []) x = refl
  last_key-end (y ∷ z ∷ xs) x = last_key-end (z ∷ xs) x

  seen-key :
      (past : List A) (x : A) (rest : List A)
      → AreKeys key (past ++ (x ∷ rest))
      → seen key (some (key x)) (past ++ (x ∷ rest)) ≡ suc (length past)
  seen-key past x rest h =
      let whole = assoc past (x ∷ []) rest in
      let counted = seen-last key (past ++ (x ∷ [])) rest (rw whole h) in
      omega (arith, length-append past (x ∷ []), rw (whole, last_key-end past x) at counted)

  -- With `page_reverse` and the key of an item as the marker, in a list that has at least `limit` items,
  -- all with distinct primary keys that are not empty, `paginate` gives the `limit` items that stand right before that item, where there are as many; where
  -- there are fewer, it gives none of them.
  pub paginate-back :
      (limit : ℕ) (past : List A) (x : A) (rest : List A)
      → AreKeys key (past ++ (x ∷ rest))
      → limit ≤ length (past ++ (x ∷ rest))
      → paginate key (some limit) (some (key x)) true (past ++ (x ∷ rest))
        ≡ (if leb limit (length past) then drop (length past - limit) past else [])
  unfolding paginate
  paginate-back limit past x rest keys long =
      let items = past ++ (x ∷ rest) in
      let n = length past in
      let counted = seen-key past x rest keys in
      let stop = minus-more (suc n) 1 n (omega arith) in
      elim (Bool-cases (leb limit n)) [
        | inl full ↦
            rw
              (
                counted,
                stop,
                minus-more (suc n) (suc limit) (n - limit) (ground (arith, full)),
                full,
              )
              (take-within (n - limit) past (x ∷ rest) (omega arith))
        | inr fewer ↦
            let none_left : n - (length items - suc (limit - suc n)) ≡ 0 = ground (arith, fewer) in
            rw
              (
                counted,
                stop,
                minus-less (suc n) (suc limit) (limit - suc n) (ground (arith, fewer)),
                none_left,
                fewer,
              )
              refl
      ]
