-- ===== src/Mem/Mea/Going.antt =====
-- db/mem/mem_db.py: the rows of a MEA on its way out.
use apmec.Prelude.{
  ℕ, String, ◌≡◌, refl, sym, ap, inl, inr, Bool, true, false, Option, none, some, List, [], ◌∷◌,
  ◌==◌, arith, All, Bool-cases, nat_eq,
}
use apmec.Constants.{pending_delete, status_eq}
use apmec.Errors.{Result, ok}
use apmec.Exec.{pure, ◌>>=◌}
use apmec.Table
use apmec.Table.{select, update}
use apmec.Table.Keyed.{not_true}
use apmec.Db.{Db, Env, Context, Mea, Mead, datetime_min}
use apmec.Session.{query, write, utcnow, by_id}
use apmec.Session.Results.{ok_parts, query-ok}
use apmec.Mem.MeaRow.{
  MeaDict, mea_columns, mea_query, has_id, set_status, has_mea_clash, flush_meas, make_mea_dict,
  dict_or_raise, dict_of_mea, mea_dict,
}

module _ (context : Context) (mea_id : String) where
  abbrev pub seen : Mea → Bool
  seen = by_id mea_columns context mea_id

  -- Every row of the MEA that the context sees is in PENDING_DELETE.
  abbrev pub Going : List Mea → Type 0
  Going rows = All (λ r. seen r ≡ true → r.status ≡ pending_delete) rows

  pub Going-after :
      (k : String) (rows : List Mea)
      → k ≡ mea_id
      → Going (update (has_id k) (set_status pending_delete) rows)
  unfolding update
  Going-after k [] same = tt
  Going-after k (x ∷ rows) same = elim (Bool-cases (x.id == k)) [
    | inl hit ↦ rw hit (λ _. refl, Going-after k rows same)
    | inr miss ↦ rw miss (λ found. absurd (ground (arith, same, found)), Going-after k rows same)
  ]

  pub none_seen :
      (now : ℕ) (rows : List Mea)
      → nat_eq now datetime_min ≡ false
      → Going rows
      → select seen (
          update
            (mea_query context mea_id (status_eq pending_delete))
            (λ r. record r { deleted_at = some now })
            rows)
        ≡ []
  unfolding select update
  none_seen now [] later h = refl
  none_seen now (x ∷ rows) later h =
      elim (Bool-cases (mea_query context mea_id (status_eq pending_delete) x)) [
        | inl hit ↦
            let out : seen (record x { deleted_at = some now }) ≡ false = ground (arith, later) in
            rw (hit, out) (none_seen now rows later h.1)
        | inr miss ↦
            let out : seen x ≡ false =
              not_true (seen x) (λ found. absurd (ground (arith, rw (h.0 found) at miss, found))) in
            rw (miss, out) (none_seen now rows later h.1)
      ]

pub pure_value : (a b : MeaDict) (s t : Db) → pure a s ≡ (ok b, t) → b ≡ a
unfolding pure
pure_value a b s t h = (ok_parts a b s t h).0

pub made_id : (r : Mea) (s t : Db) (d : MeaDict) → make_mea_dict r s ≡ (ok d, t) → d.id ≡ r.id
unfolding make_mea_dict
made_id r s t d h =
    go (Table.first (λ (m : Mead). m.id == r.mead_id) s.meads) (query-ok (dict_of_mea r) s d t h).0
  where
    go : (o : Option Mead) → dict_or_raise r s.tables o ≡ ok d → d.id ≡ r.id
    go none e = absurd (cc)
    go (some mead) e =
        let same : mea_dict r s.tables mead ≡ d = cc in ap (λ (x : MeaDict). x.id) (sym same)

pub clock :
    (env : Env) (s t : Db) (now : ℕ)
    → utcnow env s ≡ (ok now, t)
    → (now ≡ env.utcnow s.ticks) × (t.meas ≡ s.meas)
unfolding utcnow
clock env s t now h = (cc, ap (λ (x : Result ℕ × Db). x.1.meas) (sym h))

pub flushed_rows :
    (f : List Mea → List Mea) (s t : Db) → flush_meas f s ≡ (ok tt, t) → t.meas ≡ f s.meas
unfolding flush_meas query write ◌>>=◌
flushed_rows f s t h = elim (Bool-cases (has_mea_clash (f s.meas))) [
  | inl clash ↦ absurd (cc (rw clash at h))
  | inr fits ↦ ap (λ (x : Result (Unit {0}) × Db). x.1.meas) (sym (rw fits at h))
]
