-- ===== src/Mec/Fits.antt =====
-- mem/plugin.py: what the filters of `get_mea_policies` let through.
use apmec.Prelude.{
  String, ◌≡◌, refl, ◌∙◌, ap, true, Option, none, some, List, [], ◌∷◌, ◌++◌, ◌||◌, ◌⊎◌, inl, inr,
  All, Bool-cases, if◌then◌else◌,
}
use apmec.Errors.{Result, ok, err}
use apmec.Exec.{Exec, pure, lift, ◌>>=◌}
use apmec.Exec.Triple.{
  Triple, Triple-pure, Triple-raise, Triple-if, Triple-after, Triple-result, Triple-value,
}
use apmec.Value.{Value, object, Fields, object_end, entry, Items, array_end, element, get, null}
use apmec.Db.{Env, Context}
use apmec.Mem.MeaRow.{MeaDict}
use apmec.Mec.World.{World, Drivers, Policy}
use apmec.Mec.Policies.{
  Filters, given_text, is_text, is_name, index, get_or, or_value, or_key_error, fits,
  make_policy_dict, policies_of_entry, policies_of, policies_from, get_mea_policies,
}

-- By its name, or by its type: one of them is enough.
abbrev pub Fits : Filters → Policy → Type 0
Fits filters p = (is_name filters.name p.name ≡ true) ⊎ (is_text filters.type p.type ≡ true)

abbrev IsGiven : Filters → Type 0
IsGiven filters = (given_text filters.name || given_text filters.type) ≡ true

pub All-append :
    {A : Type 0} (P : A → Type 0) (xs ys : List A) → All P xs → All P ys → All P (xs ++ ys)
All-append P [] ys h k = k
All-append P (x ∷ xs) ys h k = (h.0, All-append P xs ys h.1 k)

-- what reads a key also reads it with a default
same_key :
    (k : String) (policy v w : Value) → index k policy ≡ ok v → get_or k null policy ≡ ok w → w ≡ v
same_key k (object f) v w = found (get k f)
  where
    found :
        (o : Option Value)
        → or_key_error o ≡ ok v
        → Path (Result Value) (ok (or_value o null)) (ok w)
        → w ≡ v
    found none h g = cc
    found (some x) h g = cc
same_key k v' v w = λ h g. cc

module _ (filters : Filters) (name : String) (policy : Value) (type : Value) where
  by_type :
      (r : Result Value)
      → index "type" policy ≡ r
      → get_or "type" null policy ≡ ok type
      → elim r [ ok v ↦ ok (is_text filters.type v) | err e ↦ err e ] ≡ ok true
      → is_text filters.type type ≡ true
  by_type (ok v) e g h = rw (same_key "type" policy v type e g) cc
  by_type (err x) e g h = cc

  fits-Fits :
      fits filters name policy ≡ ok true
      → get_or "type" null policy ≡ ok type
      → (is_name filters.name name ≡ true) ⊎ (is_text filters.type type ≡ true)
  unfolding fits
  fits-Fits h g = elim (Bool-cases (is_name filters.name name)) [
    | inl same ↦ inl same
    | inr other ↦ inr (by_type (index "type" policy) refl g (rw other at h))
  ]

module _ (env : Env) (filters : Filters) where
  make_policy_dict-Fits :
      (mea : MeaDict) (name : String) (policy : Value)
      → fits filters name policy ≡ ok true
      → Triple (λ _. Unit {0}) (make_policy_dict env mea name policy) (λ p _. Fits filters p)
  unfolding make_policy_dict
  make_policy_dict-Fits mea name policy h = Triple-result _ _ _ λ type g.
      Triple-after _ _ _ _ λ properties. Triple-after _ _ _ _ λ triggers.
        Triple-after _ _ _ _ λ id. Triple-pure _ _ _ λ s _. fits-Fits filters name policy type h g

  entry-Fits :
      (mea : MeaDict) (name : String) (policy : Value) (rest : Exec World (List Policy))
      → Triple (λ _. Unit {0}) rest (λ ps _. All (Fits filters) ps)
      → Triple
          (λ _. Unit {0})
          (do
            fit ← lift (fits filters name policy)
            if fit then (do p ← make_policy_dict env mea name policy; pure (p ∷ [])) else rest)
          (λ ps _. All (Fits filters) ps)
  entry-Fits mea name policy rest h = Triple-result _ _ _ λ fit e.
      Triple-if _ _ fit _ _
        (λ fitting.
          Triple-value (Fits filters) _ _ _
            (make_policy_dict-Fits mea name policy (e ∙ ap ok fitting))
            λ p q. Triple-pure _ _ _ λ s _. (q, tt))
        (λ _. h)

  module _ (given : IsGiven filters) where
    policies_of_entry-Fits :
        (mea : MeaDict) (f : Fields)
        → Triple
            (λ _. Unit {0})
            (policies_of_entry env mea filters f)
            (λ ps _. All (Fits filters) ps)
    unfolding policies_of_entry
    policies_of_entry-Fits mea object_end = Triple-pure _ _ _ λ s _. tt
    policies_of_entry-Fits mea (entry name policy more) =
        rw given (entry-Fits mea name policy _ (policies_of_entry-Fits mea more))

    policies_of-Fits :
        (mea : MeaDict) (vs : Items)
        → Triple (λ _. Unit {0}) (policies_of env mea filters vs) (λ ps _. All (Fits filters) ps)
    unfolding policies_of
    policies_of-Fits mea array_end = Triple-pure _ _ _ λ s _. tt
    policies_of-Fits mea (element (object f) more) =
        Triple-value (All (Fits filters)) _ _ _ (policies_of_entry-Fits mea f) λ ps h.
          Triple-value (All (Fits filters)) _ _ _ (policies_of-Fits mea more)
            λ qs k. Triple-pure _ _ _ λ s _. All-append (Fits filters) ps qs h k
    policies_of-Fits mea (element _ more) = Triple-raise _ _ _

    policies_from-Fits :
        (mea : MeaDict) (v : Value)
        → Triple (λ _. Unit {0}) (policies_from env mea filters v) (λ ps _. All (Fits filters) ps)
    policies_from-Fits mea v = Triple-after _ _ _ _ λ items. policies_of-Fits mea items

    pub policies_Fits :
        (drv : Drivers) (context : Context) (mea_id : String)
        → Triple
            (λ _. Unit {0})
            (get_mea_policies env drv context mea_id filters)
            (λ ps _. All (Fits filters) ps)
    unfolding get_mea_policies
    policies_Fits drv context mea_id = Triple-after _ _ _ _ λ mea. Triple-after _ _ _ _ λ template.
        Triple-after _ _ _ _
          λ topology. Triple-after _ _ _ _ λ policies. policies_from-Fits mea policies

    -- With a name or a type that is not empty, every policy that `get_mea_policies` returns has the
    -- name or the type that is asked for.
    get_mea_policies-Fits :
        (drv : Drivers) (context : Context) (mea_id : String) (w w' : World) (ps : List Policy)
        → get_mea_policies env drv context mea_id filters w ≡ (ok ps, w')
        → All (Fits filters) ps
    get_mea_policies-Fits drv context mea_id w w' ps e =
        (policies_Fits drv context mea_id).at w tt ps w' e
