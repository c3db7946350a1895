-- ===== src/Mec/Asked.antt =====
-- mem/plugin.py: what a request to scale a MEA has asked for, where `create_mea_scale` returns.
use apmec.Prelude.{
  String, ◌≡◌, refl, sym, ap, true, false, Option, none, some, List, [], ◌∷◌, ◌++◌, ◌||◌, ◌⊎◌, inl,
  inr, All, arith, ◌==◌, eq_iff,
}
use apmec.Errors.{ok}
use apmec.Exec.{pure, bind-ok}
use apmec.Exec.Triple.{
  Triple, Triple-pure, Triple-raise, Triple-if, Triple-after, Triple-value, Triple-weaken, ok_parts,
}
use apmec.Dict.{Dict}
use apmec.Value.{Value, text, value_eq, null}
use apmec.Db.{Env, Context}
use apmec.Mec.World.{World, Drivers, Policy, Task, on_db, action_wait, spawn_n}
use apmec.Mem.MeaRow.{MeaDict}
use apmec.Mem.Mea.Reference.{get_mea}
use apmec.Mec.Declared.{IsDeclared, get_mea_policies-AreDeclared}
use apmec.Mec.Policies.{Filters, first_policy, read_template, get_mea_policies, get_mea_policy}
use apmec.Mec.Fits.{Fits, policies_Fits}
use apmec.Mec.Scaling.{
  policy_scaling, valid_action, validate_scaling_policy, handle_mea_scaling, or_not_found,
  create_mea_scale,
}

abbrev pub IsDirection : String → Type 0
IsDirection action = (action ≡ "out") ⊎ (action ≡ "in")

abbrev pub by_name : String → Filters
by_name name = record { name = some name; type = none }

-- The task that was spawned last carries out the policy and the action.
abbrev pub Spawned : Context → Policy → String → World → Type 0
Spawned context p action w =
    (before : List Task) × (vim_auth : Dict String) × (driver : String) × (event : Option String)
    × (w.spawned ≡ before ++ (action_wait context p action vim_auth driver event ∷ []))

abbrev pub IsScaling : Policy → Type 0
IsScaling p = value_eq p.type (text policy_scaling) ≡ true

valid_action-given :
    (name : String) (given : Option String)
    → Triple
        (λ _. Unit {0})
        (valid_action name given)
        (λ action _. (given ≡ some action) × IsDirection action)
valid_action-given name none = Triple-raise _ _ _
valid_action-given name (some action) =
    Triple-if _ _ (action == "out" || action == "in") _ _
      (λ h. Triple-pure _ _ action λ s _. (refl, direction action h)) (λ _. Triple-raise _ _ _)
  where
    direction : (a : String) → (a == "out" || a == "in") ≡ true → IsDirection a
    direction a h = ground (arith, eq_iff a "out", eq_iff a "in")

validate-given :
    (p : Policy) (given : Option String)
    → Triple
        (λ _. Unit {0})
        (validate_scaling_policy p given)
        (λ action _. IsScaling p × (given ≡ some action) × IsDirection action)
unfolding validate_scaling_policy
validate-given p given =
    Triple-if _ _ (value_eq p.type (text policy_scaling)) _ _
      (λ h. Triple-weaken _ _ _ _ (valid_action-given p.name given) λ a s q. (h, q.0, q.1))
      (λ _. Triple-raise _ _ _)

spawn-Spawned :
    (context : Context) (p : Policy) (action : String) (vim_auth : Dict String) (driver : String)
    (event : Option String)
    → Triple
        (λ _. Unit {0})
        (spawn_n (action_wait context p action vim_auth driver event))
        (λ _ w. Spawned context p action w)
unfolding spawn_n
spawn-Spawned context p action vim_auth driver event = record {
  at = λ w _ a w' e.
      (w.spawned, vim_auth, driver, event, ap (λ (s : World). s.spawned) (sym (ok_parts e).1));
}

scaling_not_null : (v : Value) → value_eq v (text policy_scaling) ≡ true → value_eq v null ≡ false
unfolding value_eq
scaling_not_null null h = cc
scaling_not_null (text s) h = refl
scaling_not_null _ h = cc

-- A policy found by its name that is a scaling policy has that name.
named : (name : String) (p : Policy) → Fits (by_name name) p → IsScaling p → p.name ≡ name
named name p (inl h) s = (eq_iff p.name name).0 h
named name p (inr h) s = absurd (cc (h, scaling_not_null p.type s))

-- The first policy of some that have all a property has it.
first_All :
    (P : Policy → Type 0) (ps : List Policy)
    → All P ps
    → (p : Policy) → first_policy ps ≡ some p
    → P p
first_All P [] h p e = cc
first_All P (q ∷ ps) h p e = let same : q ≡ p = cc in rw (← same) h.0

module _ (env : Env) (drv : Drivers) (context : Context) where
  handle-Spawned :
      (p : Policy) (given : Option String)
      → Triple
          (λ _. Unit {0})
          (handle_mea_scaling env drv context p given)
          (λ _ w.
            (action : String) × IsScaling p
            × (given ≡ some action)
            × IsDirection action
            × Spawned context p action w)
  unfolding handle_mea_scaling
  handle-Spawned p given =
      Triple-value (λ action. IsScaling p × (given ≡ some action) × IsDirection action) _ _ _
        (validate-given p given)
        λ action h. Triple-after _ _ _ _ λ mea. Triple-after _ _ _ _ λ found.
          Triple-after _ _ _ _ λ event.
            Triple-weaken _ _ _ _
              (spawn-Spawned context p action found.0.vim_auth found.0.vim_type event)
              λ a w q. (action, h.0, h.1, h.2, q)

  get_mea_policy-Fits :
      (name mea_id : String)
      → (name == "") ≡ false
      → Triple
          (λ _. Unit {0})
          (get_mea_policy env drv context name mea_id)
          (λ o _. (p : Policy) → o ≡ some p → Fits (by_name name) p)
  unfolding get_mea_policy
  get_mea_policy-Fits name mea_id given =
      Triple-value (All (Fits (by_name name))) _ _ _
        (policies_Fits env _ (ground (arith, given)) drv context mea_id)
        λ ps h. Triple-pure _ _ _ λ s _. first_All (Fits (by_name name)) ps h

  or_not_found-some :
      (name mea_id : String) (o : Option Policy)
      → Triple (λ _. Unit {0}) (or_not_found name mea_id o) (λ p _. o ≡ some p)
  or_not_found-some name mea_id none = Triple-raise _ _ _
  or_not_found-some name mea_id (some p) = Triple-pure _ _ _ λ s _. refl

  -- What `get_mea_policy` finds is declared in the template of the MEA.
  get_mea_policy-IsDeclared :
      (name mea_id : String) (w w' : World) (p : Policy)
      → get_mea_policy env drv context name mea_id w ≡ (ok (some p), w')
      → (mea : MeaDict) × (template : Value) × (w1 : World) × (w2 : World) × (on_db
            (get_mea env context mea_id)
            w
          ≡ (ok mea, w1))
        × (read_template env drv mea w1 ≡ (ok template, w2))
        × IsDeclared mea p template
  unfolding get_mea_policy pure
  get_mea_policy-IsDeclared name mea_id w w' p e =
      let (ps, w1, e1, r1) =
        bind-ok (get_mea_policies env drv context mea_id (by_name name)) _ w (some p) w' e in
      let (mea, template, t, u, read, parsed, all) =
        get_mea_policies-AreDeclared env (by_name name) drv context mea_id w w1 ps e1 in
      (
        mea,
        template,
        t,
        u,
        read,
        parsed,
        first_All (λ q. IsDeclared mea q template) ps all p (ok_parts r1).0,
      )

  -- A `create_mea_scale` of a policy's name that is not empty, where it returns, was asked for 'out' or
  -- 'in', has read the MEA of the given id and its template, which declares a scaling policy of that
  -- name among the policies of its topology, and has spawned the function that waits for that policy
  -- and direction.
  pub create_mea_scale-Spawned :
      (mea_id name : String) (given : Option String) (w w' : World)
      → (name == "") ≡ false
      → create_mea_scale env drv context mea_id name given w ≡ (ok tt, w')
      → (p : Policy) × (action : String) × (mea : MeaDict) × (template : Value) × (w1 : World)
        × (w2 : World) × (on_db (get_mea env context mea_id) w ≡ (ok mea, w1))
        × (read_template env drv mea w1 ≡ (ok template, w2))
        × IsDeclared mea p template
        × (p.name ≡ name)
        × IsScaling p
        × (given ≡ some action)
        × IsDirection action
        × Spawned context p action w'
  unfolding create_mea_scale
  create_mea_scale-Spawned mea_id name given w w' filled e =
      let (o, w1, e1, r1) = bind-ok (get_mea_policy env drv context name mea_id) _ w tt w' e in
      let (p, w2, e2, r2) = bind-ok (or_not_found name mea_id o) _ w1 tt w' r1 in
      let same = (or_not_found-some name mea_id o).at w1 tt p w2 e2 in
      let fits = (get_mea_policy-Fits name mea_id filled).at w tt o w1 e1 p same in
      let (action, scaling, asked, direction, spawned) =
        (handle-Spawned p given).at w2 tt tt w' r2 in
      let (mea, template, t, u, read, parsed, declared) =
        get_mea_policy-IsDeclared name mea_id w w1 p (rw same at e1) in
      (
        p,
        action,
        mea,
        template,
        t,
        u,
        read,
        parsed,
        declared,
        named name p fits scaling,
        scaling,
        asked,
        direction,
        spawned,
      )
