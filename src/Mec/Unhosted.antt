-- ===== src/Mec/Unhosted.antt =====
-- mem/plugin.py: a MEA whose deletion has begun is no longer monitored.
use apmec.Prelude.{ℕ, String, ◌≡◌, refl, sym, ◌∙◌, ap, none, List, [], ◌∷◌, ◌++◌, eq_refl}
use apmec.Errors.{Error, ok, err}
use apmec.Exec.{Exec}
use apmec.Exec.Triple.{
  Triple, Triple-pure, Triple-raise, Triple-if, Triple-after, Triple-bind, ok_parts,
}
use apmec.Dict.{Dict, lookup, lookup-erase}
use apmec.Db.{Env, Context}
use apmec.Monitor.{delete_hosting_mea}
use apmec.Mem.MeaRow.{MeaDict}
use apmec.Mec.World.{
  World, Drivers, Driven, MgmtCall, Task, delete_mea_wait, on_monitor, drive, spawn_n,
}
use apmec.Mec.Update.{and_then, try_mgmt}
use apmec.Mec.Delete.{
  has_instance, infra_delete, try_delete, undo_delete, finish_delete, delete_mea,
}

abbrev pub Unhosted : String → World → Type 0
Unhosted mea_id w = lookup mea_id w.monitor.hosting_meas ≡ none

-- The task that was spawned last waits for the driver's deletion.
abbrev pub Spawned : Context → World → Type 0
Spawned context w =
    (before : List Task) × (mea_dict : MeaDict) × (vim_auth : Dict String) × (driver : String)
    × (w.spawned ≡ before ++ (delete_mea_wait context mea_dict vim_auth driver ∷ []))

module _ (mea_id : String) where
  abbrev Keeps : {A : Type 0} → Exec World A → Type 0
  Keeps m = Triple (Unhosted mea_id) m (λ _ w. Unhosted mea_id w)

  unhost :
      Triple (λ _. Unit {0}) (on_monitor (delete_hosting_mea mea_id)) (λ _ w. Unhosted mea_id w)
  unfolding on_monitor delete_hosting_mea
  unhost = record {
    at = λ w _ a w' e.
        rw (← (ok_parts e).1)
          (lookup-erase mea_id mea_id w.monitor.hosting_meas ∙ rw (eq_refl mea_id) refl);
  }

  drive-Keeps : {A : Type 0} (f : ℕ → Driven A) → Keeps (drive f)
  unfolding drive
  drive-Keeps f = record { at = λ w p a w' e. rw (← (ok_parts e).1) p }

  module _ (env : Env) (drv : Drivers) where
    try_mgmt-Keeps : (method : MgmtCall) (d : MeaDict) → Keeps (try_mgmt env drv method d)
    unfolding try_mgmt
    try_mgmt-Keeps method d = drive-Keeps _

    infra_delete-Keeps :
        (vim_auth : Dict String) (driver : String) (d : MeaDict)
        → Keeps (infra_delete env drv vim_auth driver d)
    unfolding infra_delete
    infra_delete-Keeps vim_auth driver d =
        Triple-if _ _ (has_instance d.instance_id) _ _ (λ _. drive-Keeps _)
          (λ _. Triple-pure _ _ _ λ s p. p)

    and_then-Keeps :
        (next : MeaDict → Exec World (Driven (Unit {0}))) (driven : Driven (Unit {0}))
        → ((d : MeaDict) → Keeps (next d))
        → Keeps (and_then next driven)
    and_then-Keeps next (ok _, d) h = h d
    and_then-Keeps next (err e, d) h = Triple-pure _ _ _ λ s p. p

    try_delete-Keeps :
        (vim_auth : Dict String) (driver : String) (d : MeaDict)
        → Keeps (try_delete env drv vim_auth driver d)
    unfolding try_delete
    try_delete-Keeps vim_auth driver d = Triple-bind _ _ _ _ _ (try_mgmt-Keeps _ d) λ pre.
        Triple-bind _ _ _ _ _ (and_then-Keeps _ pre (try_mgmt-Keeps _))
          λ called. and_then-Keeps _ called (infra_delete-Keeps vim_auth driver)

    undo_delete_raises :
        (context : Context) (e : Error) (d : MeaDict) (P : World → Type 0)
        (Q : Unit {0} → World → Type 0)
        → Triple P (undo_delete env drv context e d) Q
    unfolding undo_delete
    undo_delete_raises context e d P Q =
        Triple-after _ _ _ _
          λ _. Triple-after _ _ _ _ λ posted. Triple-after _ _ _ _ λ _. Triple-raise _ _ e

    finish-Spawned :
        (context : Context) (vim_auth : Dict String) (driver : String) (driven : Driven (Unit {0}))
        → Triple
            (Unhosted mea_id)
            (finish_delete env drv context vim_auth driver driven)
            (λ _ w. Unhosted mea_id w × Spawned context w)
    unfolding spawn_n
    finish-Spawned context vim_auth driver (ok _, d) = record {
      at = λ w p a w' e. (
        rw (← (ok_parts e).1) p,
        (w.spawned, d, vim_auth, driver, ap (λ (s : World). s.spawned) (sym (ok_parts e).1)),
      );
    }
    finish-Spawned context vim_auth driver (err x, d) = undo_delete_raises context x d _ _

    -- A `delete_mea` that returns has taken the MEA off the monitor and has spawned the function that
    -- waits for the driver.
    pub delete_mea-Unhosted :
        (context : Context) (w w' : World)
        → delete_mea env drv context mea_id w ≡ (ok tt, w')
        → Unhosted mea_id w' × Spawned context w'
    unfolding delete_mea
    delete_mea-Unhosted context w w' e =
        let triple : Triple (λ _. Unit {0}) (delete_mea env drv context mea_id)
            (λ _ w. Unhosted mea_id w × Spawned context w) =
          Triple-after _ _ _ _ λ going. Triple-after _ _ _ _ λ found.
            Triple-bind _ _ _ _ _ unhost λ _.
              Triple-bind _ _ _ _ _ (try_delete-Keeps found.0.vim_auth found.0.vim_type found.1)
                λ driven. finish-Spawned context found.0.vim_auth found.0.vim_type driven in
        triple.at w tt tt w' e
