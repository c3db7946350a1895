-- ===== src/Mem/Change.antt =====
-- What an operation may do to the table `mea`: which rows it sees, between which statuses it moves
-- them, and whether it adds or removes rows.
use mathlib.Core.Path.{subst}
use apmec.Prelude.{false, is_none, ◌≡◌, refl, sym, ◌∙◌, ◌⊎◌, inl, inr, Bool, true}
use apmec.Constants.{Status, pending_create, pending_delete}
use apmec.Table.Evolves.{Change, IsClosed, Evolves, Evolves-refl, Evolves-trans, DistinctIds}
use apmec.Db.{Tables, Context, Mea}
use apmec.Session.{model_query}
use apmec.Session.Moves.{Preorder}
use apmec.Mem.MeaRow.{mea_columns}

pub record MeaRule : Type 0 where
  pub context : Context
  pub from : Status → Bool
  pub to : Status → Bool
  pub creates : Bool
  pub deletes : Bool

-- The columns that no operation writes after the row is there, but that `deleted_at` may get another
-- value, and no NULL.
pub record SameMea (a b : Mea) : Type 0 where
  pub id : b.id ≡ a.id
  pub tenant_id : b.tenant_id ≡ a.tenant_id
  pub name : b.name ≡ a.name
  pub mead_id : b.mead_id ≡ a.mead_id
  pub vim_id : b.vim_id ≡ a.vim_id
  pub created_at : b.created_at ≡ a.created_at
  pub stamped : is_none b.deleted_at ≡ is_none a.deleted_at

-- with each equation by computation
pub same_mea :
    (a b : Mea)
    → b.id ≡ a.id
    → b.tenant_id ≡ a.tenant_id
    → b.name ≡ a.name
    → b.mead_id ≡ a.mead_id
    → b.vim_id ≡ a.vim_id
    → b.created_at ≡ a.created_at
    → is_none b.deleted_at ≡ is_none a.deleted_at
    → SameMea a b
same_mea a b p q r s t u v = record {
  id = p;
  tenant_id = q;
  name = r;
  mead_id = s;
  vim_id = t;
  created_at = u;
  stamped = v;
}

-- The rows that a query of the context sees: not deleted, and of its tenant if it is no admin.
abbrev pub IsVisible : Context → Mea → Type 0
IsVisible context r = model_query mea_columns context r ≡ true

-- The primary key of the table.
abbrev pub MeaIds : Tables → Type 0
MeaIds t = DistinctIds (λ (r : Mea). r.id) t.meas

module _ (u : MeaRule) where
  abbrev StatusStep : Status → Status → Type 0
  StatusStep s t = (t ≡ s) ⊎ ((u.from s ≡ true) × (u.to t ≡ true))

  -- The row as it was, or a visible row whose status moves at most by the rule.
  abbrev pub MeaStep : Mea → Mea → Type 0
  MeaStep a b = (b ≡ a) ⊎ (IsVisible u.context a × SameMea a b × StatusStep a.status b.status)

  abbrev pub MeaBorn : Mea → Type 0
  MeaBorn r =
      (u.creates ≡ true)
      × ((u.context.is_admin ≡ true) ⊎ (r.tenant_id ≡ u.context.tenant_id))
      × ((r.status ≡ pending_create) ⊎ (u.to r.status ≡ true))
      × (is_none r.deleted_at ≡ false)

  abbrev pub MeaGone : Mea → Type 0
  MeaGone r =
      (u.deletes ≡ true)
      × IsVisible u.context r
      × ((r.status ≡ pending_delete) ⊎ (u.from r.status ≡ true))

  abbrev pub mea_change : Change Mea
  mea_change = record { Step = MeaStep; Born = MeaBorn; Gone = MeaGone }

  StatusStep-trans : (a b c : Status) → StatusStep a b → StatusStep b c → StatusStep a c
  StatusStep-trans a b c (inl p) (inl q) = inl (q ∙ p)
  StatusStep-trans a b c (inl p) (inr q) = inr (rw (← p) q.0, q.1)
  StatusStep-trans a b c (inr p) (inl q) = inr (p.0, rw q p.1)
  StatusStep-trans a b c (inr p) (inr q) = inr (p.0, q.1)

  SameMea-trans : (a b c : Mea) → SameMea a b → SameMea b c → SameMea a c
  SameMea-trans a b c p q = record {
    id = q.id ∙ p.id;
    tenant_id = q.tenant_id ∙ p.tenant_id;
    name = q.name ∙ p.name;
    mead_id = q.mead_id ∙ p.mead_id;
    vim_id = q.vim_id ∙ p.vim_id;
    created_at = q.created_at ∙ p.created_at;
    stamped = q.stamped ∙ p.stamped;
  }

  MeaStep-trans : (a b c : Mea) → MeaStep a b → MeaStep b c → MeaStep a c
  MeaStep-trans a b c (inl p) q = subst (λ x. MeaStep x c) p q
  MeaStep-trans a b c (inr p) (inl q) = subst (λ x. MeaStep a x) (sym q) (inr p)
  MeaStep-trans a b c (inr (v, p, m)) (inr (w, q, n)) =
      inr (v, SameMea-trans a b c p q, StatusStep-trans _ _ _ m n)

  born_status :
      (s t : Status)
      → (s ≡ pending_create) ⊎ (u.to s ≡ true)
      → StatusStep s t
      → (t ≡ pending_create) ⊎ (u.to t ≡ true)
  born_status s t (inl p) (inl q) = inl (q ∙ p)
  born_status s t (inr p) (inl q) = inr (rw q p)
  born_status s t _ (inr q) = inr q.1

  MeaBorn-step : (a b : Mea) → MeaBorn a → MeaStep a b → MeaBorn b
  MeaBorn-step a b h (inl p) = subst MeaBorn (sym p) h
  MeaBorn-step a b (c, t, s, d) (inr (v, p, m)) =
      (c, rw p.tenant_id t, born_status a.status b.status s m, p.stamped ∙ d)

  gone_status :
      (s t : Status)
      → StatusStep s t
      → (t ≡ pending_delete) ⊎ (u.from t ≡ true)
      → (s ≡ pending_delete) ⊎ (u.from s ≡ true)
  gone_status s t (inl p) (inl q) = inl (sym p ∙ q)
  gone_status s t (inl p) (inr q) = inr (rw p at q)
  gone_status s t (inr p) _ = inr p.0

  MeaGone-step : (a b : Mea) → MeaStep a b → MeaGone b → MeaGone a
  MeaGone-step a b (inl p) h = subst MeaGone p h
  MeaGone-step a b (inr (v, p, m)) (d, w, s) = (d, v, gone_status a.status b.status m s)

  pub mea_change-IsClosed : IsClosed mea_change
  mea_change-IsClosed = record {
    step_refl = λ r. inl refl;
    step_trans = MeaStep-trans;
    born_step = MeaBorn-step;
    gone_step = MeaGone-step;
  }

  -- From tables whose primary keys are distinct to such tables, by the rule.
  abbrev pub mea_moves : Preorder
  mea_moves = record {
    Rel = λ t u'. MeaIds t → MeaIds u' × Evolves mea_change t.meas u'.meas;
    rel_refl = λ t d. (d, Evolves-refl mea_change mea_change-IsClosed t.meas);
    rel_trans = λ t v w p q d.
        let (d', e) = p d in
        let (d'', e') = q d' in (d'', Evolves-trans mea_change mea_change-IsClosed e e');
  }
