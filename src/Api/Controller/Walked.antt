-- ===== src/Api/Controller/Walked.antt =====
-- api/v1/base.py: a client that follows the links of the emulated pages of an index.
use apmec.Prelude.{
  ℕ, zero, suc, ◌≤◌, ◌≡◌, refl, String, true, false, Option, none, some, List, [], ◌∷◌, ◌++◌, ◌<>◌,
  length, take, drop, All,
}
use apmec.Db.{Context}
use apmec.Dict.{Dict}
use apmec.Errors.{ok}
use apmec.Request.{Slot}
use apmec.Api.Policy.{Info, Enforcer, check}
use apmec.Api.Paging.{seen, paginate, get_pagination_links}
use apmec.Api.Paging.Walk.{next_of, walk, walk-all, AreKeys, append_nil}
use apmec.Exec.{Exec, pure, ◌>>=◌}
use apmec.Value.{Value}
use apmec.Api.Served.{Served, on_plugin}
use apmec.Api.Controller.{Plugin, Controller, of_object, from}
use apmec.Api.Controller.Index.{key_text, let_see}

All-take : {A : Type 0} (P : A → Type 0) (n : ℕ) (xs : List A) → All P xs → All P (take n xs)
All-take P zero xs h = tt
All-take P (suc n) [] h = tt
All-take P (suc n) (x ∷ xs) h = (h.0, All-take P n xs h.1)

All-drop : {A : Type 0} (P : A → Type 0) (n : ℕ) (xs : List A) → All P xs → All P (drop n xs)
All-drop P zero xs h = h
All-drop P (suc n) [] h = tt
All-drop P (suc n) (x ∷ xs) h = All-drop P n xs h.1

All-page :
    {A : Type 0} (key : A → String) (P : A → Type 0) (limit : ℕ) (marker : Option String)
    (xs : List A)
    → All P xs
    → All P (paginate key (some limit) marker false xs)
unfolding paginate
All-page key P limit marker xs h =
    All-take P _ (drop (seen key marker xs) xs) (All-drop P (seen key marker xs) xs h)

module _ {S : Type 0} (enforcer : Enforcer) (res_map : Dict (Dict Info)) (plugin : Plugin S)
    (c : Controller) (context : Context) where
  abbrev pub IsSeen : Dict Slot → Type 0
  IsSeen d = check enforcer res_map context ("get_" <> c.resource) (of_object d) false ≡ ok true

  let_see-All :
      (ds : List (Dict Slot)) → All IsSeen ds → let_see enforcer res_map plugin c context ds ≡ ok ds
  unfolding let_see
  let_see-All [] h = refl
  let_see-All (d ∷ ds) h = rw (let_see, h.0, let_see-All ds h.1) refl

  module _ (filters : Dict (List Value)) (fields : List String) (limit : ℕ) where
    -- A page of an index and the pages after it.
    abbrev and_after :
        (Option String → Exec (Served S) (List (Dict Slot)))
        → List (Dict Slot)
        → Option (Option String)
        → Exec (Served S) (List (Dict Slot))
    and_after pages shown none = pure shown
    and_after pages shown (some after) = do more ← pages after; pure (shown ++ more)

    -- The objects that a client is shown from a marker on: for each page the plugin lists its objects
    -- anew, the policies let some of the page be seen, and the links are of these.
    abbrev pub walk_seen : ℕ → Option String → Exec (Served S) (List (Dict Slot))
    walk_seen zero marker = pure []
    walk_seen (suc fuel) marker = do
      objs ← on_plugin (plugin.list context filters fields)
      shown ← from (
          let_see enforcer res_map plugin c context
            (paginate (key_text c) (some limit) marker false objs))
      and_after (walk_seen fuel) shown
          (next_of (get_pagination_links (key_text c) shown (some limit) false))

    and_after-walk :
        (pages : Option String → Exec (Served S) (List (Dict Slot)))
        (walked : Option String → List (Dict Slot)) (s : Served S)
        → ((after : Option String) → pages after s ≡ (ok (walked after), s))
        → (here : List (Dict Slot)) (o : Option (Option String))
        → and_after pages here o s
          ≡ (ok (here ++ elim o [ none ↦ [] | some after ↦ walked after ]), s)
    unfolding ◌>>=◌ pure
    and_after-walk pages walked s h here none = rw (append_nil here) refl
    and_after-walk pages walked s h here (some after) = rw (h after) refl

    module _ (objs : List (Dict Slot)) (s : Served S)
        (listed : plugin.list context filters fields s.plugin_state ≡ (ok objs, s.plugin_state))
        (seen_all : All IsSeen objs) where
      walk_seen-walk :
          (fuel : ℕ) (marker : Option String)
          → walk_seen fuel marker s ≡ (ok (walk (key_text c) fuel limit marker objs), s)
      unfolding ◌>>=◌ pure on_plugin
      walk_seen-walk zero marker = refl
      walk_seen-walk (suc fuel) marker =
          let here = paginate (key_text c) (some limit) marker false objs in
          rw (listed, let_see-All here (All-page (key_text c) IsSeen limit marker objs seen_all))
            (and_after-walk (walk_seen fuel) (λ after. walk (key_text c) fuel limit after objs) s
              (λ after. walk_seen-walk fuel after) here
              (next_of (get_pagination_links (key_text c) here (some limit) false)))

      pub walk_seen-all :
          AreKeys (key_text c) objs
          → 1 ≤ limit
          → walk_seen (suc (length objs)) none s ≡ (ok objs, s)
      walk_seen-all keys one =
          rw (walk_seen-walk (suc (length objs)) none, walk-all (key_text c) limit objs keys one)
            refl
