-- ===== src/Mem/History.antt =====
-- Histories: any operations of any sessions one after the other. A session that raises ends its own
-- operation only.
use mathlib.Core.List.{Memᴰ}
use mathlib.Core.Path.{subst}
use apmec.Prelude.{eq_iff, ◌≡◌, ◌≢◌, sym, ◌∙◌, inl, inr, false, List, [], ◌∷◌, All, is_none, arith}
use apmec.Table.Evolves.{Evolves, done, born, keep, gone}
use apmec.Db.{Tables, Db, Env, Context, Mea}
use apmec.Session.{is_min}
use apmec.Mem.Change.{MeaRule, mea_change, MeaIds, IsVisible}
use apmec.Mem.Mea.Rules.{MeaOp, run_op, rule_of}
use apmec.Mem.Mea.Every.{run_op-Moves}

pub record Request : Type 0 where
  pub context : Context
  pub op : MeaOp

-- The context whose rows the operation works on: the administrator's for the monitor's marks.
abbrev acting : Request → Context
acting r = (rule_of r.context r.op).context

Evolves-mem :
    (u : MeaRule) (r : Mea)
    → ¬ IsVisible u.context r
    → {old new : List Mea} → Evolves (mea_change u) old new
    → Memᴰ r old
    → Memᴰ r new
Evolves-mem u r hidden (keep {r = a} {s = b} (inl same) e) (Memᴰ.head p) = Memᴰ.head (p ∙ sym same)
Evolves-mem u r hidden (keep {r = a} {s = b} (inr (v, _, _)) e) (Memᴰ.head p) =
    absurd (hidden (subst (λ x. IsVisible u.context x) (sym p) v))
Evolves-mem u r hidden (keep s e) (Memᴰ.tail m) = Memᴰ.tail (Evolves-mem u r hidden e m)
Evolves-mem u r hidden (gone {r = a} (_, v, _) e) (Memᴰ.head p) =
    absurd (hidden (subst (λ x. IsVisible u.context x) (sym p) v))
Evolves-mem u r hidden (gone g e) (Memᴰ.tail m) = Evolves-mem u r hidden e m
Evolves-mem u r hidden (born b e) m = elim m [ ]
Evolves-mem u r hidden done m = elim m [ ]

hidden_if_deleted :
    (r : Mea) (requests : List Request)
    → is_min r.deleted_at ≡ false
    → All (λ q. ¬ IsVisible (acting q) r) requests
hidden_if_deleted r [] h = tt
hidden_if_deleted r (q ∷ rest) h = (λ v. ground arith, hidden_if_deleted r rest h)

-- The requests of other tenants, none of them an administrator's or a mark of the monitor.
abbrev IsForeign : Mea → Request → Type 0
IsForeign r q = ((acting q).is_admin ≡ false) × ((acting q).tenant_id ≢ r.tenant_id)

hidden_if_foreign :
    (r : Mea) (requests : List Request)
    → All (IsForeign r) requests
    → All (λ q. ¬ IsVisible (acting q) r) requests
hidden_if_foreign r [] h = tt
hidden_if_foreign r (q ∷ rest) h = (
  λ v. h.0.1 (sym ((eq_iff r.tenant_id (acting q).tenant_id).0 (ground (arith, h.0.0)))),
  hidden_if_foreign r rest h.1,
)

-- No row has a NULL in `deleted_at`.
abbrev pub AllStamped : Tables → Type 0
AllStamped t = All (λ (r : Mea). is_none r.deleted_at ≡ false) t.meas

Evolves-stamped :
    (u : MeaRule) {old new : List Mea}
    → Evolves (mea_change u) old new
    → All (λ (r : Mea). is_none r.deleted_at ≡ false) old
    → All (λ (r : Mea). is_none r.deleted_at ≡ false) new
Evolves-stamped u done h = tt
Evolves-stamped u (born b e) h = (b.3, Evolves-stamped u e h)
Evolves-stamped u (keep {r = a} {s = b} (inl same) e) h = (rw same h.0, Evolves-stamped u e h.1)
Evolves-stamped u (keep (inr (v, same, m)) e) h = (same.stamped ∙ h.0, Evolves-stamped u e h.1)
Evolves-stamped u (gone g e) h = Evolves-stamped u e h.1

module _ (env : Env) where
  unfoldable pub serve : Db → List Request → Db
  serve s [] = s
  serve s (r ∷ rest) = serve (run_op env r.context r.op s).1 rest

  serve_induction :
      (P : Tables → Type 0)
      → ((r : Request) (s : Db)
          → MeaIds s.tables
          → P s.tables
          → P (run_op env r.context r.op s).1.tables)
      → (s : Db) (requests : List Request) → MeaIds s.tables
      → P s.tables
      → P (serve s requests).tables
  unfolding serve
  serve_induction P step s [] d h = h
  serve_induction P step s (r ∷ rest) d h =
      serve_induction P step (run_op env r.context r.op s).1 rest
        ((run_op-Moves env r.context r.op).at s d).0 (step r s d h)

  -- Whatever is asked, in whatever order and by whatever sessions, the primary keys stay distinct.
  serve-MeaIds :
      (s : Db) (requests : List Request) → MeaIds s.tables → MeaIds (serve s requests).tables
  serve-MeaIds s requests d =
      serve_induction MeaIds (λ r s' d' _. ((run_op-Moves env r.context r.op).at s' d').0) s
        requests d d

  serve-hidden :
      (s : Db) (requests : List Request) (r : Mea)
      → MeaIds s.tables
      → All (λ q. ¬ IsVisible (acting q) r) requests
      → Memᴰ r s.meas
      → Memᴰ r (serve s requests).meas
  unfolding serve
  serve-hidden s [] r d hidden m = m
  serve-hidden s (q ∷ rest) r d hidden m =
      let (d', e) = (run_op-Moves env q.context q.op).at s d in
      serve-hidden (run_op env q.context q.op s).1 rest r d' hidden.1
        (Evolves-mem (rule_of q.context q.op) r hidden.0 e m)

  -- A deleted MEA stays in its table for good, with every column as it was, whatever operations any
  -- sessions make after that.
  pub serve-deleted :
      (s : Db) (requests : List Request) (r : Mea)
      → MeaIds s.tables
      → is_min r.deleted_at ≡ false
      → Memᴰ r s.meas
      → Memᴰ r (serve s requests).meas
  serve-deleted s requests r d deleted m =
      serve-hidden s requests r d (hidden_if_deleted r requests deleted) m

  -- Operations of other tenants, none of them an administrator's or a mark of the monitor, leave a
  -- MEA as it is, in every column.
  pub serve-foreign :
      (s : Db) (requests : List Request) (r : Mea)
      → MeaIds s.tables
      → All (IsForeign r) requests
      → Memᴰ r s.meas
      → Memᴰ r (serve s requests).meas
  serve-foreign s requests r d foreign m =
      serve-hidden s requests r d (hidden_if_foreign r requests foreign) m

  pub serve-AllStamped :
      (s : Db) (requests : List Request)
      → MeaIds s.tables
      → AllStamped s.tables
      → AllStamped (serve s requests).tables
  serve-AllStamped s requests d h =
      serve_induction AllStamped
        (λ r s' d' h'.
          Evolves-stamped (rule_of r.context r.op) ((run_op-Moves env r.context r.op).at s' d').1
            h')
        s requests d h
