-- ===== src/Table/Keyed.antt =====
-- Queries after an update of one row.
use apmec.Prelude.{
  String, sym, ◌≡◌, refl, ◌≢◌, inl, inr, Bool, true, false, List, [], ◌∷◌, ◌==◌, eq_iff, arith, All,
  Bool-cases,
}
use apmec.Table.{select, update}
use apmec.Table.Evolves.{DistinctIds, has_id, update_absent, select-absent, cons_parts}

pub not_true : (b : Bool) → ¬ (b ≡ true) → b ≡ false
not_true true h = absurd (h refl)
not_true false h = refl

module _ {R : Type 0} (id : R → String) where
  select-elsewhere :
      (q : R → Bool) (k : String) (rows : List R)
      → ((x : R) → q x ≡ true → id x ≡ k)
      → All (λ s. id s ≢ k) rows
      → select q rows ≡ []
  unfolding select
  select-elsewhere q k [] only h = refl
  select-elsewhere q k (x ∷ rows) only h = elim (Bool-cases (q x)) [
    | inl hit ↦ absurd (h.0 (only x hit))
    | inr miss ↦ rw miss (select-elsewhere q k rows only h.1)
  ]

  -- After the row that `p` found has become `f r`, a query of its id that `f r` fits finds it alone.
  pub select-update_one :
      (p q : R → Bool) (f : R → R) (rows : List R) (r : R)
      → DistinctIds id rows
      → select p rows ≡ r ∷ []
      → id (f r) ≡ id r
      → q (f r) ≡ true
      → ((x : R) → q x ≡ true → id x ≡ id r)
      → select q (update (has_id id (id r)) f rows) ≡ f r ∷ []
  unfolding select update
  select-update_one p q f [] r d found same fits only = absurd (cc)
  select-update_one p q f (x ∷ rows) r d found same fits only = elim (Bool-cases (p x)) [
    | inl hit ↦
        let (first, rest) = cons_parts (rw hit at found) in
        let here : (id x == id r) ≡ true = ground (arith, eq_iff (id x) (id r), first) in
        let absent : All (λ s. id s ≢ id r) rows = rw first at d.0 in
        rw (here, update_absent id (id r) f rows absent)
          (rw (first, fits) (rw (select-elsewhere q (id r) rows only absent)))
    | inr miss ↦
        let away : id r ≢ id x = select-absent id p rows (id x) r (rw miss at found) d.0 in
        let differ : (id x == id r) ≡ false = ground (arith, eq_iff (id x) (id r)) in
        let out : q x ≡ false = not_true (q x) (λ hit. away (sym (only x hit))) in
        rw (differ, out) (select-update_one p q f rows r d.1 (rw miss at found) same fits only)
  ]

pub select-fits :
    {R : Type 0} (p : R → Bool) (rows : List R) (r : R) → select p rows ≡ r ∷ [] → p r ≡ true
unfolding select
select-fits p [] r found = absurd (cc)
select-fits p (x ∷ rows) r found = elim (Bool-cases (p x)) [
  | inl hit ↦ rw (← (cons_parts (rw hit at found)).0) hit
  | inr miss ↦ select-fits p rows r (rw miss at found)
]

module _ {R : Type 0} (id : R → String) where
  -- After the row that `p` found has become `f r`, a query of its id that `f r` does not fit finds
  -- nothing.
  pub select-update_gone :
      (p q : R → Bool) (f : R → R) (rows : List R) (r : R)
      → DistinctIds id rows
      → select p rows ≡ r ∷ []
      → q (f r) ≡ false
      → ((x : R) → q x ≡ true → id x ≡ id r)
      → select q (update (has_id id (id r)) f rows) ≡ []
  unfolding select update
  select-update_gone p q f [] r d found out only = absurd (cc)
  select-update_gone p q f (x ∷ rows) r d found out only = elim (Bool-cases (p x)) [
    | inl hit ↦
        let (first, rest) = cons_parts (rw hit at found) in
        let here : (id x == id r) ≡ true = ground (arith, eq_iff (id x) (id r), first) in
        let absent : All (λ s. id s ≢ id r) rows = rw first at d.0 in
        rw (here, update_absent id (id r) f rows absent)
          (rw (first, out) (select-elsewhere id q (id r) rows only absent))
    | inr miss ↦
        let away : id r ≢ id x = select-absent id p rows (id x) r (rw miss at found) d.0 in
        let differ : (id x == id r) ≡ false = ground (arith, eq_iff (id x) (id r)) in
        let other : q x ≡ false = not_true (q x) (λ hit. away (sym (only x hit))) in
        rw (differ, other) (select-update_gone p q f rows r d.1 (rw miss at found) out only)
  ]
