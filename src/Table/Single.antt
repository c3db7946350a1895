-- ===== src/Table/Single.antt =====
-- Rows of a table that a query finds once at most.
use apmec.Prelude.{
  ◌≤◌, String, ap, ◌≡◌, refl, ◌≢◌, ◌∙◌, inl, inr, Bool, true, false, List, [], ◌∷◌, ◌++◌, arith,
  All, length, Bool-cases, any,
}
use apmec.Table.{select, update, delete}
use apmec.Table.Evolves.{DistinctIds, cons_parts}
use apmec.Session.{has_clash}

module _ {R : Type 0} (id : R → String) where
  -- Every row that `p` finds has the key `k`.
  abbrev pub Only : (R → Bool) → String → List R → Type 0
  Only p k rows = All (λ r. p r ≡ true → id r ≡ k) rows

  pub Only-nothing :
      (p : R → Bool) (k : String) (rows : List R) → select p rows ≡ [] → Only p k rows
  unfolding select
  Only-nothing p k [] h = tt
  Only-nothing p k (x ∷ rows) h = elim (Bool-cases (p x)) [
    | inl hit ↦ absurd (cc (rw hit at h))
    | inr miss ↦ (λ hit. absurd (ground arith), Only-nothing p k rows (rw miss at h))
  ]

  pub Only-one :
      (p : R → Bool) (r : R) (rows : List R) → select p rows ≡ r ∷ [] → Only p (id r) rows
  unfolding select
  Only-one p r [] h = tt
  Only-one p r (x ∷ rows) h = elim (Bool-cases (p x)) [
    | inl hit ↦
        let (first, rest) = cons_parts (rw hit at h) in
        (λ _. rw first refl, Only-nothing p (id r) rows rest)
    | inr miss ↦ (λ hit. absurd (ground arith), Only-one p r rows (rw miss at h))
  ]

  Only-from :
      (p : R → Bool) (rows l : List R)
      → select p rows ≡ l
      → length l ≤ 1
      → (k : String) × Only p k rows
  Only-from p rows [] e h = ("", Only-nothing p "" rows e)
  Only-from p rows (r ∷ []) e h = (id r, Only-one p r rows e)
  Only-from p rows (r ∷ s ∷ l) e h = absurd (omega arith)

  pub Only-exists :
      (p : R → Bool) (rows : List R) → length (select p rows) ≤ 1 → (k : String) × Only p k rows
  Only-exists p rows h = Only-from p rows (select p rows) refl h

  pub length-Only :
      (p : R → Bool) (k : String) (rows : List R)
      → DistinctIds id rows
      → Only p k rows
      → length (select p rows) ≤ 1
  unfolding select
  length-Only p k [] d h = omega arith
  length-Only p k (x ∷ rows) d h = elim (Bool-cases (p x)) [
    | inl hit ↦ rw hit (omega (arith, ap length (alone x rows d.0 (rw (h.0 hit) h.1))))
    | inr miss ↦ rw miss (length-Only p k rows d.1 h.1)
  ]
    where
      alone :
          (x : R) (rows : List R)
          → All (λ s. id s ≢ id x) rows
          → Only p (id x) rows
          → select p rows ≡ []
      alone x [] a o = refl
      alone x (y ∷ rows) a o = elim (Bool-cases (p y)) [
        | inl hit ↦ absurd (a.0 (o.0 hit))
        | inr miss ↦ rw miss (alone x rows a.1 o.1)
      ]

  pub Only-update :
      (p q : R → Bool) (f : R → R) (k : String) (rows : List R)
      → ((r : R) → id (f r) ≡ id r)
      → ((r : R) → q r ≡ true → p (f r) ≡ true → (p r ≡ true → id r ≡ k) → id r ≡ k)
      → Only p k rows
      → Only p k (update q f rows)
  unfolding update
  Only-update p q f k [] same h o = tt
  Only-update p q f k (x ∷ rows) same h o = elim (Bool-cases (q x)) [
    | inl hit ↦ rw hit (λ found. same x ∙ h x hit found o.0, Only-update p q f k rows same h o.1)
    | inr miss ↦ rw miss (o.0, Only-update p q f k rows same h o.1)
  ]

  pub Only-append :
      (p : R → Bool) (k : String) (rows : List R) (r : R)
      → (p r ≡ true → id r ≡ k)
      → Only p k rows
      → Only p k (rows ++ (r ∷ []))
  Only-append p k [] r h o = (h, tt)
  Only-append p k (x ∷ rows) r h o = (o.0, Only-append p k rows r h o.1)

  pub Only-delete :
      (p q : R → Bool) (k : String) (rows : List R) → Only p k rows → Only p k (delete q rows)
  unfolding delete
  Only-delete p q k [] o = tt
  Only-delete p q k (x ∷ rows) o = elim (Bool-cases (q x)) [
    | inl out ↦ rw out (Only-delete p q k rows o.1)
    | inr kept ↦ rw kept (o.0, Only-delete p q k rows o.1)
  ]

  pub DistinctIds-of_no_clash :
      (clashes : R → R → Bool)
      → ((a b : R) → id b ≡ id a → clashes a b ≡ true)
      → (rows : List R) → has_clash clashes rows ≡ false
      → DistinctIds id rows
  DistinctIds-of_no_clash clashes by_id [] h = tt
  DistinctIds-of_no_clash clashes by_id (r ∷ rows) h =
      (apart rows (ground arith), DistinctIds-of_no_clash clashes by_id rows (ground arith))
    where
      apart : (rows : List R) → any (clashes r) rows ≡ false → All (λ s. id s ≢ id r) rows
      apart [] h = tt
      apart (s ∷ rows) h = (λ e. ground (arith, by_id r s e), apart rows (ground arith))
