-- ===== src/Api/Controller/Undone.antt =====
-- api/v1/base.py: an emulated creation of several objects that fails.
use apmec.Prelude.{
  ◌≡◌, ◌≢◌, refl, sym, ap, ◌∙◌, String, none, some, List, [], ◌∷◌, ◌++◌, arith, eq_iff,
}
use apmec.Db.{Context}
use apmec.Dict.{Dict, lookup}
use apmec.Errors.{Error, Result, ok, err}
use apmec.Exec.{pure, ◌>>=◌}
use apmec.Request.{Slot, given}
use apmec.Value.{text}
use apmec.Api.Policy.{Info, Enforcer}
use apmec.Api.Served.{Served, on_plugin, settle, attempt}
use apmec.Api.Controller.{Plugin, Controller, id_of, filter_attributes, undo, create_items}
use apmec.Api.Controller.Unstripped.{create_item-plain}
use apmec.Api.Paging.Walk.{assoc, append_nil}

module _ {S : Type 0} (plugin : Plugin S) (context : Context) where
  -- The plugin creates some items, one after the other, as objects of some identifiers.
  abbrev pub Creates : List (Dict Slot) → List String → S → S → Type 0
  Creates [] [] s t = s ≡ t
  Creates (item ∷ items) (i ∷ is) s t =
      (obj : Dict Slot) × (u : S) × (plugin.create context item s ≡ (ok obj, u))
      × (lookup "id" obj ≡ some (given (text i)))
      × Creates items is u t
  Creates _ _ _ _ = ⊥

  -- The state that deletions leave, one after the other, whatever they return or raise.
  abbrev pub delete_each : List String → S → S
  delete_each [] s = s
  delete_each (i ∷ is) s = delete_each is (plugin.delete context i s).1

  abbrev AreIds : List String → List (Dict Slot) → Type 0
  AreIds [] [] = Unit
  AreIds (i ∷ is) (obj ∷ objs) = (id_of obj ≡ ok i) × AreIds is objs
  AreIds _ _ = ⊥

  swallowed :
      (s : Served S) (r : Result (Unit {0}) × S)
      → settle pure (λ e. pure tt) (r.0, record s { plugin_state = r.1 })
        ≡ (ok tt, record s { plugin_state = r.1 })
  unfolding pure
  swallowed s (ok u, t) = refl
  swallowed s (err e, t) = refl

  undone :
      (is : List String) (objs : List (Dict Slot)) (s : Served S)
      → AreIds is objs
      → undo plugin context objs s
        ≡ (ok tt, record s { plugin_state = delete_each is s.plugin_state })
  unfolding undo ◌>>=◌ pure attempt on_plugin
  undone [] [] s h = refl
  undone (i ∷ is) (obj ∷ objs) s h =
      let after : Served S = record s {
        plugin_state = (plugin.delete context i s.plugin_state).1;
      } in
      rw (h.0, swallowed s (plugin.delete context i s.plugin_state)) (undone is objs after h.1)
  undone [] (obj ∷ objs) s h = elim h [ ]
  undone (i ∷ is) [] s h = elim h [ ]

  AreIds-add :
      (is : List String) (objs : List (Dict Slot)) (i : String) (obj : Dict Slot)
      → AreIds is objs
      → id_of obj ≡ ok i
      → AreIds (is ++ (i ∷ [])) (objs ++ (obj ∷ []))
  AreIds-add [] [] i obj h e = (e, tt)
  AreIds-add (k ∷ is) (o ∷ objs) i obj h e = (h.0, AreIds-add is objs i obj h.1 e)
  AreIds-add [] (o ∷ objs) i obj h e = elim h [ ]
  AreIds-add (k ∷ is) [] i obj h e = elim h [ ]

-- What the plugin's creations return has an identifier.
abbrev pub IsNamed : {S : Type 0} → Plugin S → Context → Type 0
IsNamed {S} plugin context =
    (item : Dict Slot) (s t : S) (obj : Dict Slot)
    → plugin.create context item s ≡ (ok obj, t)
    → (i : String) × (lookup "id" obj ≡ some (given (text i)))

lookup-filter :
    (k name : String) (d : Dict Slot)
    → name ≢ k
    → lookup k (filter_attributes d (name ∷ [])) ≡ lookup k d
unfolding lookup filter_attributes
lookup-filter k name [] ne = refl
lookup-filter k name ((j, v) ∷ d) ne =
    ground (arith, eq_iff j k, eq_iff name j, ne, lookup-filter k name d ne)

err_parts :
    {A B : Type 0} {x e : Error} {s s' : B}
    → Path (Result A × B) (err x, s) (err e, s')
    → (x ≡ e) × (s ≡ s')
err_parts h = (cc, cc)

module _ {S : Type 0} (enforcer : Enforcer) (res_map : Dict (Dict Info)) (plugin : Plugin S)
    (c : Controller) (outer : lookup c.resource c.attr_info ≡ none) (named : c.resource ≢ "id")
    (context : Context) (named_all : IsNamed plugin context) (e : Error) (s' : Served S) where
  -- The first item that the plugin does not create, and what is left after the objects of `done` and
  -- of the items before it have been deleted.
  abbrev IsUndone : List String → List (Dict Slot) → Served S → Type 0
  IsUndone done items s =
      (past : List (Dict Slot)) × (item : Dict Slot) × (rest : List (Dict Slot)) × (ids : List
        String)
      × (t : S) × (u : S) × (items ≡ past ++ (item ∷ rest))
      × Creates plugin context past ids s.plugin_state t
      × (plugin.create context item t ≡ (err e, u))
      × (s' ≡ record s { plugin_state = delete_each plugin context (done ++ ids) u })

  id-kept :
      (obj : Dict Slot) (i : String)
      → lookup "id" obj ≡ some (given (text i))
      → id_of (filter_attributes obj (c.resource ∷ [])) ≡ ok i
  id-kept obj i found = rw (id_of, lookup-filter "id" c.resource obj named, found) refl

  one_more :
      (is : List String) (i : String) (obj : Dict Slot) (t : S) (item : Dict Slot)
      (items : List (Dict Slot)) (s : Served S)
      → plugin.create context item s.plugin_state ≡ (ok obj, t)
      → lookup "id" obj ≡ some (given (text i))
      → IsUndone (is ++ (i ∷ [])) items (record s { plugin_state = t })
      → IsUndone is (item ∷ items) s
  one_more is i obj t item items s made found
        (past, last, rest, ids, v, u, split, before, failed, left) =
      (
        item ∷ past,
        last,
        rest,
        i ∷ ids,
        v,
        u,
        ap (λ xs. item ∷ xs) split,
        (obj, t, made, found, before),
        failed,
        left
            ∙ ap (λ js. record s { plugin_state = delete_each plugin context js u })
                (assoc is (i ∷ []) ids),
      )

  settled :
      (items : List (Dict Slot)) (item : Dict Slot)
      → ((is : List String) (objs : List (Dict Slot)) (s : Served S)
          → AreIds plugin context is objs
          → create_items enforcer res_map plugin c context items objs s ≡ (err e, s')
          → IsUndone is items s)
      → (is : List String) (objs : List (Dict Slot)) (s : Served S) → AreIds plugin context is objs
      → (r : Result (Dict Slot) × S) → plugin.create context item s.plugin_state ≡ r
      → create_items enforcer res_map plugin c context (item ∷ items) objs s ≡ (err e, s')
      → IsUndone is (item ∷ items) s
  unfolding create_items attempt ◌>>=◌ on_plugin pure
  settled items item rest is objs s a (ok obj, t) made h =
      let (i, found) = named_all item s.plugin_state t obj made in
      one_more is i obj t item items s made found (
        rest (is ++ (i ∷ [])) _ (record s { plugin_state = t })
          (AreIds-add plugin context is objs i _ a (id-kept obj i found))
          (rw (create_item-plain plugin c outer enforcer res_map context item, made) at h))
  settled items item rest is objs s a (err x, u) made h =
      let (same, left) = err_parts (
        rw
          (
            create_item-plain plugin c outer enforcer res_map context item,
            made,
            undone plugin context is objs (record s { plugin_state = u }) a,
          )
          at h) in
      (
        [],
        item,
        items,
        [],
        s.plugin_state,
        u,
        refl,
        refl,
        rw (← same) made,
        rw (append_nil is) (sym left),
      )

  IsUndone-from :
      (items : List (Dict Slot)) (is : List String) (objs : List (Dict Slot)) (s : Served S)
      → AreIds plugin context is objs
      → create_items enforcer res_map plugin c context items objs s ≡ (err e, s')
      → IsUndone is items s
  unfolding create_items pure
  IsUndone-from [] is objs s a h = absurd (cc)
  IsUndone-from (item ∷ items) is objs s a h =
      settled items item (IsUndone-from items) is objs s a
        (plugin.create context item s.plugin_state) refl h

pub create_items-undone :
    {S : Type 0} (enforcer : Enforcer) (res_map : Dict (Dict Info)) (plugin : Plugin S)
    (c : Controller)
    → lookup c.resource c.attr_info ≡ none
    → c.resource ≢ "id"
    → (context : Context) → IsNamed plugin context
    → (items : List (Dict Slot)) (s s' : Served S) (e : Error)
    → create_items enforcer res_map plugin c context items [] s ≡ (err e, s')
    → (past : List (Dict Slot)) × (item : Dict Slot) × (rest : List (Dict Slot)) × (ids : List
        String)
      × (t : S) × (u : S) × (items ≡ past ++ (item ∷ rest))
      × Creates plugin context past ids s.plugin_state t
      × (plugin.create context item t ≡ (err e, u))
      × (s' ≡ record s { plugin_state = delete_each plugin context ids u })
create_items-undone enforcer res_map plugin c outer named context named_all items s s' e h =
    IsUndone-from enforcer res_map plugin c outer named context named_all e s' items [] [] s tt h
