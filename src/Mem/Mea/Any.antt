-- ===== src/Mem/Mea/Any.antt =====
-- db/mem/mem_db.py: what all operations that do not remove rows have in common.
use apmec.Prelude.{◌≡◌, refl, inl, inr, true, false, List, arith}
use apmec.Exec.{Exec}
use apmec.Table.Evolves.{Evolves, done, born, keep, gone}
use apmec.Db.{Db, Context, Mea}
use apmec.Session.Moves.{Moves}
use apmec.Mem.Change.{MeaRule, MeaStep, mea_change, mea_moves, IsVisible}
use apmec.Mem.Mea.Mark.{admin_context}

-- Rows that are not deleted may change, new rows may come, and none goes.
abbrev pub any_rule : MeaRule
any_rule = record {
  context = admin_context;
  from = λ _. true;
  to = λ _. true;
  creates = true;
  deletes = false;
}

IsVisible-admin : (c : Context) (r : Mea) → IsVisible c r → IsVisible admin_context r
IsVisible-admin c r h = ground arith

module _ (u : MeaRule) (none_go : u.deletes ≡ false) where
  step_any : (a b : Mea) → MeaStep u a b → MeaStep any_rule a b
  step_any a b (inl p) = inl p
  step_any a b (inr (v, p, inl m)) = inr (IsVisible-admin u.context a v, p, inl m)
  step_any a b (inr (v, p, inr m)) = inr (IsVisible-admin u.context a v, p, inr (refl, refl))

  Evolves-any : {a b : List Mea} → Evolves (mea_change u) a b → Evolves (mea_change any_rule) a b
  Evolves-any done = done
  Evolves-any (born h e) = born (refl, inl refl, inr refl, h.3) (Evolves-any e)
  Evolves-any (keep s e) = keep (step_any _ _ s) (Evolves-any e)
  Evolves-any (gone g e) = absurd (cc (none_go, g.0))

  pub Moves-any :
      {A : Type 0} (m : Exec Db A) → Moves (mea_moves u) m → Moves (mea_moves any_rule) m
  Moves-any m h = record { at = λ s d. let (d', e) = h.at s d in (d', Evolves-any e) }
