-- ===== src/Api/Controller/Shown.antt =====
-- api/v1/base.py: what the response to a read shows of an object.
use apmec.Prelude.{
  ◌≡◌, refl, sym, String, Bool, true, false, List, [], ◌∷◌, ◌++◌, ◌<>◌, ◌==◌, All, arith, eq_iff,
  eq_refl, Bool-cases, inl, inr,
}
use mathlib.Core.Path.{subst}
use mathlib.Core.Logic.{◌⊎◌}
use apmec.Db.{Context}
use apmec.Dict.{Dict, lookup}
use apmec.Errors.{Result, ok, err}
use apmec.Exec.{pure, bind-ok}
use apmec.Request.{Slot}
use apmec.Api.Paging.{Query, list_args}
use apmec.Api.Policy.{Info, Target, Enforcer, enforce}
use apmec.Api.Served.{Served, on_plugin, settle, attempt}
use apmec.Api.Controller.{
  Plugin, Controller, is_among, names_of, do_field_list, filter_attributes, of_object, from,
  not_told, is_shown, excluded, exclude_names, exclude_attributes_by_policy, view, enforced,
  authorized_item, show,
}

among-append :
    (name : String) (xs ys : List String)
    → is_among name (xs ++ ys) ≡ false
    → (is_among name xs ≡ false) × (is_among name ys ≡ false)
among-append name [] ys h = (refl, h)
among-append name (x ∷ xs) ys h = elim (Bool-cases (x == name)) [
  | inl same ↦ absurd (cc (rw same at h))
  | inr other ↦ rw other (among-append name xs ys (rw other at h))
]

module _ (enforcer : Enforcer) (res_map : Dict (Dict Info)) (c : Controller)
    (context : Context) where
  abbrev Shows : Target → String → Type 0
  Shows target name =
      is_shown enforcer res_map c context target name (lookup name c.attr_info) ≡ ok true

  -- Where the name is hidden, or not, the names after it are looked at.
  AfterName : String → Result Bool → Result (List String) → List String → Type 0
  AfterName name o rest hidden =
      (names : List String) × (rest ≡ ok names)
      × ((o ≡ ok true) ⊎ (name ∷ names ≡ hidden))
      × ((x : String) → is_among x hidden ≡ false → is_among x names ≡ false)

  unhidden :
      (x n : String) (names : List String)
      → is_among x (n ∷ names) ≡ false
      → is_among x names ≡ false
  unhidden x n names h = elim (Bool-cases (n == x)) [
    | inl this ↦ absurd (cc (rw this at h))
    | inr other ↦ rw other at h
  ]

  excluded-AfterName :
      (name : String) (o : Result Bool) (rest : Result (List String)) (hidden : List String)
      → excluded o name rest ≡ ok hidden
      → AfterName name o rest hidden
  unfolding AfterName
  excluded-AfterName name (err x) rest hidden e = absurd (cc)
  excluded-AfterName name (ok true) rest hidden e = (hidden, e, inl refl, λ x h. h)
  excluded-AfterName name (ok false) (err x) hidden e = absurd (cc)
  excluded-AfterName name (ok false) (ok names) hidden e =
      let same : name ∷ names ≡ hidden = cc in
      (
        names,
        refl,
        inr same,
        λ x h. unhidden x name names (subst (λ ns. is_among x ns ≡ false) (sym same) h),
      )

  not_excluded :
      (target : Target) (name : String) (names hidden : List String)
      → exclude_names enforcer res_map c context target names ≡ ok hidden
      → is_among name names ≡ true
      → is_among name hidden ≡ false
      → Shows target name
  unfolding exclude_names AfterName
  not_excluded target name [] hidden e h out = absurd (cc)
  not_excluded target name (n ∷ names) hidden e h out =
      let (rest, same, how, fewer) =
        excluded-AfterName n (is_shown enforcer res_map c context target n (lookup n c.attr_info))
          (exclude_names enforcer res_map c context target names) hidden e in
      elim (Bool-cases (n == name)) [
        | inr other ↦ not_excluded target name names rest same (rw other at h) (fewer name out)
        | inl this ↦
            let found : n ≡ name = ground (arith, eq_iff n name) in
            elim how [
              | inl shown ↦ rw found at shown
              | inr hides ↦ absurd (cc (rw (← hides, this) at out))
            ]
      ]

  -- Of each entry of a dict.
  abbrev pub AllShown : Target → List String → Dict Slot → Type 0
  AllShown target strip d =
      All (λ (e : String × Slot). Shows target e.0 × (is_among e.0 strip ≡ false)) d

  filtered :
      (target : Target) (strip hidden : List String) (all d : Dict Slot)
      → exclude_names enforcer res_map c context target (names_of all) ≡ ok hidden
      → ((name : String) → is_among name (names_of d) ≡ true → is_among name (names_of all) ≡ true)
      → AllShown target strip (filter_attributes d (strip ++ hidden))
  unfolding filter_attributes
  filtered target strip hidden all [] e inside = tt
  filtered target strip hidden all ((name, v) ∷ d) e inside =
      let rest = filtered target strip hidden all d e (λ n h. inside n (ground (arith, h))) in
      elim (Bool-cases (is_among name (strip ++ hidden))) [
        | inl out ↦ rw out rest
        | inr kept ↦
            let (here, there) = among-append name strip hidden kept in
            rw kept (
              (
                not_excluded target name (names_of all) hidden e
                    (inside name (rw (eq_refl name) refl)) there,
                here,
              ),
              rest,
            )
      ]

  view-AllShown :
      (d r : Dict Slot) (strip : List String)
      → view enforcer res_map c context d strip ≡ ok r
      → AllShown (of_object d) strip r
  unfolding view exclude_attributes_by_policy
  view-AllShown d r strip e = go _ refl
    where
      go :
          (o : Result (List String))
          → exclude_names enforcer res_map c context (of_object d) (names_of d) ≡ o
          → AllShown (of_object d) strip r
      go (err x) eq = absurd (cc (rw (view, exclude_attributes_by_policy, eq) at e))
      go (ok hidden) eq =
          let same : filter_attributes d (strip ++ hidden) ≡ r =
            cc (rw (view, exclude_attributes_by_policy, eq) at e) in
          rw same at (filtered (of_object d) strip hidden d d eq (λ n h. h))

result_parts : {S A : Type 0} {r q : Result A} {s t : S} → Path (Result A × S) (r, s) (q, t) → r ≡ q
result_parts e = cc

kept-ok :
    {S A : Type 0} (r : Result A × Served S) (a : A) (s : Served S)
    → settle pure not_told r ≡ (ok a, s)
    → r ≡ (ok a, s)
unfolding pure
kept-ok (ok b, t) a s e = e
kept-ok (err x, t) a s e = absurd (cc)

module _ {S : Type 0} (enforcer : Enforcer) (res_map : Dict (Dict Info)) (plugin : Plugin S)
    (c : Controller) where
  -- A `show` that returns has read an object from the plugin that the policies let the context get, and
  -- every attribute in its response is one that the attribute map declares as visible, that the policy
  -- of the attribute lets the context see on that object, and that was not only added for the checks.
  pub show-shown :
      (context : Context) (query : Query) (id : String) (s : Served S) (d : Dict Slot)
      (s' : Served S)
      → show enforcer res_map plugin c context query id s ≡ (ok d, s')
      → (obj : Dict Slot) × ((on_plugin
            (plugin.show context id (do_field_list c (list_args query "fields")).0)
            s).0
          ≡ ok obj)
        × (enforce enforcer res_map context ("get_" <> c.resource) (of_object obj) ≡ ok tt)
        × AllShown enforcer res_map c context
            (of_object obj)
            (do_field_list c (list_args query "fields")).1
            d
  unfolding show authorized_item attempt pure
  show-shown context query id s d s' e =
      let (fields, added) = do_field_list c (list_args query "fields") in
      let whole = kept-ok _ d s' e in
      let (obj, t, read, seen) =
        bind-ok (authorized_item enforcer res_map plugin c context id fields)
          (λ obj. from (view enforcer res_map c context obj added)) s d s' whole in
      let (o, t', got, rest) = bind-ok (on_plugin (plugin.show context id fields)) _ s obj t read in
      let (u, t'', allowed, last) =
        bind-ok (enforced enforcer res_map plugin c context ("get_" <> c.resource) (of_object o))
          (λ _. pure o) t' obj t rest in
      let same : o ≡ obj = cc in
      (o, cc, cc, view-AllShown enforcer res_map c context o d added (rw same (result_parts seen)))
