-- ===== src/Mem/Collections/Own.antt =====
-- db/mem/mem_db.py: what a tenant may read.
use apmec.Prelude.{
  String, ◌≡◌, refl, sym, ◌∙◌, ap, Bool, true, false, Option, none, some, List, [], ◌∷◌, ◌&&◌, ◌==◌,
  eq_iff, arith, All, Bool-cases, inl, inr,
}
use apmec.Errors.{Result, ok, err}
use apmec.Table
use apmec.Table.{select}
use apmec.Dict.{Dict}
use apmec.Db.{Tables, Db, Context, Mead, Mea}
use apmec.Session.{model_query}
use apmec.Session.Results.{query-ok}
use apmec.Mem.MeaRow.{MeaDict, mea_columns, mea_dict, dict_or_raise, dict_of_mea}
use apmec.Mem.Collections.{
  fits_filters, mea_text_columns, joined, dicts_of, get_collection, get_meas,
}

dict_tenant :
    (r : Mea) (t : Tables) (d : MeaDict) → dict_of_mea r t ≡ ok d → d.tenant_id ≡ r.tenant_id
dict_tenant r t d h = go (Table.first (λ (m : Mead). m.id == r.mead_id) t.meads) h
  where
    go : (o : Option Mead) → dict_or_raise r t o ≡ ok d → d.tenant_id ≡ r.tenant_id
    go none e = absurd (cc)
    go (some mead) e =
        let same : mea_dict r t mead ≡ d = cc in ap (λ (x : MeaDict). x.tenant_id) (sym same)

module _ {R D : Type 0} (P : D → Type 0) (dict_func : R → Tables → Result D) (t : Tables) where
  joined-All :
      (a : Result D) (b : Result (List D)) (ds : List D)
      → ((d : D) → a ≡ ok d → P d)
      → ((rest : List D) → b ≡ ok rest → All P rest)
      → joined a b ≡ ok ds
      → All P ds
  joined-All (err e) b ds first others h = absurd (cc)
  joined-All (ok d) (err e) ds first others h = absurd (cc)
  joined-All (ok d) (ok rest) ds first others h =
      let same : (d ∷ rest) ≡ ds = cc in rw (← same) (first d refl, others rest refl)

  dicts-All :
      (q : R → Bool) (rows : List R) (ds : List D)
      → ((r : R) (d : D) → q r ≡ true → dict_func r t ≡ ok d → P d)
      → dicts_of dict_func t (select q rows) ≡ ok ds
      → All P ds
  unfolding select
  dicts-All q [] ds h e = let none_read : [] ≡ ds = cc in rw (← none_read) tt
  dicts-All q (r ∷ rows) ds h e = elim (Bool-cases (q r)) [
    | inl hit ↦
        joined-All (dict_func r t) (dicts_of dict_func t (select q rows)) ds (λ d. h r d hit)
          (λ rest. dicts-All q rows rest h) (rw hit at e)
    | inr miss ↦ dicts-All q rows ds h (rw miss at e)
  ]

own_row :
    (context : Context) (r : Mea) (fits : Bool)
    → context.is_admin ≡ false
    → (model_query mea_columns context r && fits) ≡ true
    → (r.tenant_id == context.tenant_id) ≡ true
own_row context r fits plain hit = ground arith

-- `get_meas` that returns, in the context of a tenant that is no administrator and with whatever
-- filters, gives dicts of MEAs of that tenant only, and changes nothing.
pub get_meas-own :
    (context : Context) (filters : Dict (List String)) (s t : Db) (ds : List MeaDict)
    → context.is_admin ≡ false
    → get_meas context filters s ≡ (ok ds, t)
    → All (λ d. d.tenant_id ≡ context.tenant_id) ds × (t ≡ s)
unfolding get_meas get_collection
get_meas-own context filters s t ds plain h =
    let (found, same) = query-ok _ s ds t h in
    (
      dicts-All (λ d. d.tenant_id ≡ context.tenant_id) dict_of_mea s.tables
          (λ r. model_query mea_columns context r && fits_filters mea_text_columns filters r) s.meas
          ds
          (λ r d hit read.
            dict_tenant r s.tables d read
            ∙ (eq_iff r.tenant_id context.tenant_id).0 (own_row context r _ plain hit))
          found,
      same,
    )
