-- ===== src/Api/Controller/Allowed.antt =====
-- api/v1/base.py: which creations the policies allow.
use apmec.Prelude.{◌≡◌, true, List, [], ◌∷◌, ◌<>◌, All}
use apmec.Attributes.Scalar.{Net}
use apmec.Db.{Context}
use apmec.Dict.{Dict}
use apmec.Errors.{ok}
use apmec.Exec.{pure, bind-ok}
use apmec.Request.{Slot}
use apmec.Api.Policy.{Info, Enforcer, enforce}
use apmec.Api.Served.{Served, notify}
use apmec.Api.Body.{Body, Made, prepare_request_body, result_of}
use apmec.Api.Controller.{Plugin, Controller, of_object, items_made, from, enforced}
use apmec.Api.Controller.Write.{enforce_each, create}

module _ {S : Type 0} (net : Net) (enforcer : Enforcer) (res_map : Dict (Dict Info))
    (plugin : Plugin S) (c : Controller) (context : Context) where
  abbrev pub AllAllowed : List (Dict Slot) → Type 0
  AllAllowed items =
      All (λ d. enforce enforcer res_map context ("create_" <> c.resource) (of_object d) ≡ ok tt)
        items

  each-allowed :
      (items : List (Dict Slot)) (s s' : Served S)
      → enforce_each enforcer res_map plugin c context items s ≡ (ok tt, s')
      → (s ≡ s') × AllAllowed items
  unfolding enforce_each pure
  each-allowed [] s s' e = (cc, tt)
  each-allowed (d ∷ items) s s' e =
      let (u, t, first, rest) =
        bind-ok (enforced enforcer res_map plugin c context ("create_" <> c.resource) (of_object d))
          (λ _. enforce_each enforcer res_map plugin c context items) s tt s' e in
      let same : s ≡ t = cc in
      let (unchanged, all) = each-allowed items t s' rest in (cc, (cc, all))

  -- A `create` that returns, of one object or of several, has prepared the body, and the policies let
  -- the context create every object of the prepared body.
  pub create-allowed :
      (body : Body) (s : Served S) (r : Made) (s' : Served S)
      → create net enforcer res_map plugin c context body s ≡ (ok r, s')
      → (made : Made) × (result_of
            (prepare_request_body net context true c.resource c.attr_info c.allow_bulk body)
          ≡ ok made)
        × AllAllowed (items_made made)
  unfolding create
  create-allowed body s r s' e =
      let (u, t, noted, rest) = bind-ok (notify (c.resource <> ".create.start")) _ s r s' e in
      let (made, t2, prepared, more) =
        bind-ok
          (from (
            result_of
              (prepare_request_body net context true c.resource c.attr_info c.allow_bulk body)))
          _ t r s' rest in
      let (v, t3, allowed, last) =
        bind-ok (enforce_each enforcer res_map plugin c context (items_made made)) _ t2 r s' more in
      (made, cc, (each-allowed (items_made made) t2 t3 allowed).1)
