-- ===== src/Mec/Declared.antt =====
-- mem/plugin.py: the policies that `get_mea_policies` returns are declared in the MEA's template.
use apmec.Prelude.{String, ◌≡◌, refl, List, [], ◌∷◌, ◌⊎◌, inl, inr, All, ◌||◌}
use apmec.Errors.{Result, ok}
use apmec.Exec.{Exec, lift, bind-ok}
use apmec.Exec.Triple.{
  Triple, Triple-pure, Triple-raise, Triple-if, Triple-after, Triple-result, Triple-value,
  Triple-weaken,
}
use apmec.Value.{Value, array, object, Fields, object_end, entry, Items, array_end, element, null}
use apmec.Db.{Env, Context}
use apmec.Mem.MeaRow.{MeaDict}
use apmec.Mem.Mea.Reference.{get_mea}
use apmec.Mec.World.{World, Drivers, Policy, on_db}
use apmec.Mec.Fits.{All-append}
use apmec.Mec.Policies.{
  Filters, given_text, index, get_or, iterated, make_policy_dict, policies_of_entry, policies_of,
  read_template, get_mea_policies,
}

-- What `_make_policy_dict` makes of a MEA, a name and a policy.
abbrev IsMadeOf : MeaDict → Policy → String → Value → Type 0
IsMadeOf mea p name policy =
    (p.mea ≡ mea) × (p.name ≡ name) × (get_or "type" null policy ≡ ok p.type)

abbrev IsOneOf : MeaDict → Policy → Fields → Type 0
IsOneOf mea p object_end = ⊥
IsOneOf mea p (entry name policy more) = IsMadeOf mea p name policy ⊎ IsOneOf mea p more

-- A policy is made of one of the entries of a list of dicts.
abbrev pub IsListed : MeaDict → Policy → Items → Type 0
IsListed mea p array_end = ⊥
IsListed mea p (element (object f) more) = IsOneOf mea p f ⊎ IsListed mea p more
IsListed mea p (element _ more) = ⊥

-- It is one of the `policies` of the MEA's topology template.
abbrev pub IsDeclared : MeaDict → Policy → Value → Type 0
IsDeclared mea p template =
    (topology : Value) × (policies : Value) × (items : Items) × (index "topology_template" template
      ≡ ok topology)
    × (get_or "policies" (array array_end) topology ≡ ok policies)
    × (iterated policies ≡ ok items)
    × IsListed mea p items

All-map :
    {A : Type 0} (P Q : A → Type 0) → ((x : A) → P x → Q x) → (xs : List A) → All P xs → All Q xs
All-map P Q f [] h = tt
All-map P Q f (x ∷ xs) h = (f x h.0, All-map P Q f xs h.1)

module _ (env : Env) (filters : Filters) (mea : MeaDict) where
  abbrev Makes : (Policy → Type 0) → Exec World (List Policy) → Type 0
  Makes Q m = Triple (λ _. Unit {0}) m (λ ps _. All Q ps)

  policy-IsMadeOf :
      (name : String) (policy : Value)
      → Triple
          (λ _. Unit {0})
          (make_policy_dict env mea name policy)
          (λ p _. IsMadeOf mea p name policy)
  unfolding make_policy_dict
  policy-IsMadeOf name policy = Triple-result _ _ _ λ type g. Triple-after _ _ _ _ λ properties.
      Triple-after _ _ _ _
        λ triggers. Triple-after _ _ _ _ λ id. Triple-pure _ _ _ λ s _. (refl, refl, g)

  fields-AreOf : (f : Fields) → Makes (λ p. IsOneOf mea p f) (policies_of_entry env mea filters f)
  unfolding policies_of_entry
  fields-AreOf object_end = Triple-pure _ _ _ λ s _. tt
  fields-AreOf (entry name policy more) =
      let one = policy-IsMadeOf name policy in
      let more_of : Makes (λ p. IsMadeOf mea p name policy ⊎ IsOneOf mea p more)
          (policies_of_entry env mea filters more) =
        Triple-weaken _ _ _ _ (fields-AreOf more) λ ps s h. All-map _ _ (λ p q. inr q) ps h in
      Triple-if _ _ (given_text filters.name || given_text filters.type) _ _
        (λ _. Triple-result _ _ _ λ fit e.
          Triple-if _ _ fit _ _
            (λ _.
              Triple-value (λ p. IsMadeOf mea p name policy) _ _ _ one
                λ p q. Triple-pure _ _ _ λ s _. (inl q, tt))
            (λ _. more_of))
        (λ _.
          Triple-value (λ p. IsMadeOf mea p name policy) _ _ _ one
            λ p q.
              Triple-value (All (λ p. IsMadeOf mea p name policy ⊎ IsOneOf mea p more)) _ _ _
                more_of λ ps h. Triple-pure _ _ _ λ s _. (inl q, h))

  items-AreListed : (vs : Items) → Makes (λ p. IsListed mea p vs) (policies_of env mea filters vs)
  unfolding policies_of
  items-AreListed array_end = Triple-pure _ _ _ λ s _. tt
  items-AreListed (element (object f) more) =
      Triple-value (All (λ p. IsOneOf mea p f)) _ _ _ (fields-AreOf f) λ ps h.
        Triple-value (All (λ p. IsListed mea p more)) _ _ _ (items-AreListed more) λ qs k.
          Triple-pure _ _ _ λ s _.
            All-append _ ps qs (All-map _ _ (λ p q. inl q) ps h) (All-map _ _ (λ p q. inr q) qs k)
  items-AreListed (element _ more) = Triple-raise _ _ _

ok_lift : {A : Type 0} (r : Result A) (a : A) (s t : World) → lift r s ≡ (ok a, t) → r ≡ ok a
unfolding lift
ok_lift r a s t h = cc

module _ (env : Env) (filters : Filters) (drv : Drivers) (context : Context) (mea_id : String) where
  -- The policies that `get_mea_policies` returns are declared in the template of that MEA.
  pub get_mea_policies-AreDeclared :
      (w w' : World) (ps : List Policy)
      → get_mea_policies env drv context mea_id filters w ≡ (ok ps, w')
      → (mea : MeaDict) × (template : Value) × (w1 : World) × (w2 : World) × (on_db
            (get_mea env context mea_id)
            w
          ≡ (ok mea, w1))
        × (read_template env drv mea w1 ≡ (ok template, w2))
        × All (λ p. IsDeclared mea p template) ps
  unfolding get_mea_policies
  get_mea_policies-AreDeclared w w' ps e =
      let (mea, w1, e1, r1) = bind-ok (on_db (get_mea env context mea_id)) _ w ps w' e in
      let (template, w2, e2, r2) = bind-ok (read_template env drv mea) _ w1 ps w' r1 in
      let (topology, w3, e3, r3) =
        bind-ok (lift (index "topology_template" template)) _ w2 ps w' r2 in
      let (policies, w4, e4, r4) =
        bind-ok (lift (get_or "policies" (array array_end) topology)) _ w3 ps w' r3 in
      let (items, w5, e5, r5) = bind-ok (lift (iterated policies)) _ w4 ps w' r4 in
      (
        mea,
        template,
        w1,
        w2,
        e1,
        e2,
        All-map _ _
            (λ p q. (
              topology,
              policies,
              items,
              ok_lift _ _ _ _ e3,
              ok_lift _ _ _ _ e4,
              ok_lift _ _ _ _ e5,
              q,
            ))
            ps ((items-AreListed env filters mea items).at w5 tt ps w' r5),
      )
