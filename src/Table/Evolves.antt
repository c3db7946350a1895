-- ===== src/Table/Evolves.antt =====
-- How a table may change: rows that step, rows that are born at the end, rows that go.
use mathlib.Core.Path.{subst}
use apmec.Prelude.{
  sym, String, ◌≡◌, refl, ◌≢◌, inl, inr, Bool, true, false, List, [], ◌∷◌, ◌++◌, ◌==◌, eq_iff,
  arith, All, Bool-cases, if◌then◌else◌,
}
use apmec.Table.{select, update, delete}

pub record Change (R : Type 0) : Type 1 where
  pub Step : R → R → Type 0
  pub Born : R → Type 0
  pub Gone : R → Type 0

-- The changes that two operations make one after the other are such changes again.
pub record IsClosed {R : Type 0} (c : Change R) : Type 0 where
  pub step_refl : (r : R) → c.Step r r
  pub step_trans : (a b d : R) → c.Step a b → c.Step b d → c.Step a d
  pub born_step : (a b : R) → c.Born a → c.Step a b → c.Born b
  pub gone_step : (a b : R) → c.Step a b → c.Gone b → c.Gone a

pub data Evolves {R : Type 0} (c : Change R) : List R → List R → Type 0 where
  done : Evolves c [] []
  born : {r : R} {rows : List R} → c.Born r → Evolves c [] rows → Evolves c [] (r ∷ rows)
  keep :
      {r s : R} {old new : List R} → c.Step r s → Evolves c old new → Evolves c (r ∷ old) (s ∷ new)
  gone : {r : R} {old new : List R} → c.Gone r → Evolves c old new → Evolves c (r ∷ old) new

module _ {R : Type 0} (c : Change R) (closed : IsClosed c) where
  pub Evolves-refl : (rows : List R) → Evolves c rows rows
  Evolves-refl [] = done
  Evolves-refl (r ∷ rows) = keep (closed.step_refl r) (Evolves-refl rows)

  pub Evolves-trans : {a b d : List R} → Evolves c a b → Evolves c b d → Evolves c a d
  Evolves-trans done q = q
  Evolves-trans (born h p) (keep s q) = born (closed.born_step _ _ h s) (Evolves-trans p q)
  Evolves-trans (born h p) (gone g q) = Evolves-trans p q
  Evolves-trans (keep s p) (keep t q) = keep (closed.step_trans _ _ _ s t) (Evolves-trans p q)
  Evolves-trans (keep s p) (gone g q) = gone (closed.gone_step _ _ s g) (Evolves-trans p q)
  Evolves-trans (gone g p) q = gone g (Evolves-trans p q)

  pub Evolves-append : (rows : List R) (r : R) → c.Born r → Evolves c rows (rows ++ (r ∷ []))
  Evolves-append [] r h = born h done
  Evolves-append (x ∷ rows) r h = keep (closed.step_refl x) (Evolves-append rows r h)

  step_if :
      (p : R → Bool) (f : R → R) (r : R)
      → (p r ≡ true → c.Step r (f r))
      → c.Step r (if p r then f r else r)
  step_if p f r h = elim (Bool-cases (p r)) [
    | inl yes' ↦ rw yes' (h yes')
    | inr no' ↦ rw no' (closed.step_refl r)
  ]

  pub Evolves-update :
      (p : R → Bool) (f : R → R) (rows : List R)
      → ((r : R) → p r ≡ true → c.Step r (f r))
      → Evolves c rows (update p f rows)
  unfolding update
  Evolves-update p f [] h = done
  Evolves-update p f (r ∷ rows) h = keep (step_if p f r (h r)) (Evolves-update p f rows h)

  pub Evolves-delete :
      (p : R → Bool) (rows : List R)
      → ((r : R) → p r ≡ true → c.Gone r)
      → Evolves c rows (delete p rows)
  unfolding delete
  Evolves-delete p [] h = done
  Evolves-delete p (r ∷ rows) h = elim (Bool-cases (p r)) [
    | inl yes' ↦ rw yes' (gone (h r yes') (Evolves-delete p rows h))
    | inr no' ↦ rw no' (keep (closed.step_refl r) (Evolves-delete p rows h))
  ]

pub cons_parts : {R : Type 0} {x r : R} {rows : List R} → x ∷ rows ≡ r ∷ [] → (x ≡ r) × (rows ≡ [])
cons_parts e = (cc, cc)

-- The primary key.
module _ {R : Type 0} (id : R → String) where
  abbrev pub DistinctIds : List R → Type 0
  DistinctIds [] = Unit
  DistinctIds (r ∷ rows) = All (λ s. id s ≢ id r) rows × DistinctIds rows

  abbrev pub has_id : String → R → Bool
  has_id k r = id r == k

  pub update_absent :
      (k : String) (f : R → R) (rows : List R)
      → All (λ s. id s ≢ k) rows
      → update (has_id k) f rows ≡ rows
  unfolding update
  update_absent k f [] h = refl
  update_absent k f (r ∷ rows) h = rw (update_absent k f rows h.1) (ground (arith, eq_iff (id r) k))

  pub select-absent :
      (p : R → Bool) (rows : List R) (k : String) (r : R)
      → select p rows ≡ r ∷ []
      → All (λ s. id s ≢ k) rows
      → id r ≢ k
  unfolding select
  select-absent p [] k r e h = absurd (cc)
  select-absent p (x ∷ rows) k r e h = elim (Bool-cases (p x)) [
    | inl yes' ↦ λ q. h.0 (cc (q, rw yes' at e))
    | inr no' ↦ select-absent p rows k r (rw no' at e) h.1
  ]

  pub update-update :
      (k : String) (f g : R → R) (rows : List R)
      → ((r : R) → id (f r) ≡ id r)
      → update (has_id k) g (update (has_id k) f rows) ≡ update (has_id k) (λ r. g (f r)) rows
  unfolding update
  update-update k f g [] same = refl
  update-update k f g (x ∷ rows) same = rw (update-update k f g rows same) (ground (arith, same x))

  same_if :
      (p : R → Bool) (f : R → R) (x : R) → id (f x) ≡ id x → id (if p x then f x else x) ≡ id x
  same_if p f x same = ground arith

  ne_update :
      (p : R → Bool) (f : R → R) (rows : List R) (k : String)
      → ((r : R) → id (f r) ≡ id r)
      → All (λ s. id s ≢ k) rows
      → All (λ s. id s ≢ k) (update p f rows)
  unfolding update
  ne_update p f [] k same h = tt
  ne_update p f (x ∷ rows) k same h =
      (rw (same_if p f x (same x)) h.0, ne_update p f rows k same h.1)

  pub DistinctIds-update :
      (p : R → Bool) (f : R → R) (rows : List R)
      → ((r : R) → id (f r) ≡ id r)
      → DistinctIds rows
      → DistinctIds (update p f rows)
  unfolding update
  DistinctIds-update p f [] same d = tt
  DistinctIds-update p f (x ∷ rows) same d = (
    rw (same_if p f x (same x)) (ne_update p f rows (id x) same d.0),
    DistinctIds-update p f rows same d.1,
  )

  ne_delete :
      (p : R → Bool) (rows : List R) (k : String)
      → All (λ s. id s ≢ k) rows
      → All (λ s. id s ≢ k) (delete p rows)
  unfolding delete
  ne_delete p [] k h = tt
  ne_delete p (x ∷ rows) k h = elim (Bool-cases (p x)) [
    | inl yes' ↦ rw yes' (ne_delete p rows k h.1)
    | inr no' ↦ rw no' (h.0, ne_delete p rows k h.1)
  ]

  pub DistinctIds-delete :
      (p : R → Bool) (rows : List R) → DistinctIds rows → DistinctIds (delete p rows)
  unfolding delete
  DistinctIds-delete p [] d = tt
  DistinctIds-delete p (x ∷ rows) d = elim (Bool-cases (p x)) [
    | inl yes' ↦ rw yes' (DistinctIds-delete p rows d.1)
    | inr no' ↦ rw no' (ne_delete p rows (id x) d.0, DistinctIds-delete p rows d.1)
  ]

  -- An update of the one row that a query found, by its primary key.
  pub Evolves-update_one :
      (c : Change R) (closed : IsClosed c) (p : R → Bool) (f : R → R) (rows : List R) (r : R)
      → DistinctIds rows
      → select p rows ≡ r ∷ []
      → (p r ≡ true → c.Step r (f r))
      → Evolves c rows (update (has_id (id r)) f rows)
  unfolding select update
  Evolves-update_one c closed p f [] r d e h = done
  Evolves-update_one c closed p f (x ∷ rows) r d e h = elim (Bool-cases (p x)) [
    | inl found ↦
        let (first, rest) = cons_parts (rw found at e) in
        let same : (id x == id r) ≡ true = ground (arith, eq_iff (id x) (id r), first) in
        rw (same, update_absent (id r) f rows (rw first at d.0))
          (keep (subst (λ y. c.Step y (f y)) (sym first) (h (rw first at found)))
            (Evolves-refl c closed rows))
    | inr other ↦
        let away : id r ≢ id x = select-absent p rows (id x) r (rw other at e) d.0 in
        let differ : (id x == id r) ≡ false = ground (arith, eq_iff (id x) (id r)) in
        rw differ
          (keep (closed.step_refl x) (Evolves-update_one c closed p f rows r d.1 (rw other at e) h))
  ]
