-- ===== src/Api/Controller/Deleted.antt =====
-- api/v1/base.py: which deletions the policies allow.
use apmec.Prelude.{◌≡◌, refl, sym, ap, String, [], ◌∷◌, ◌++◌, ◌<>◌}
use apmec.Db.{Context}
use apmec.Dict.{Dict}
use apmec.Errors.{Result, ok, err}
use apmec.Exec.{Exec, pure, bind-ok}
use apmec.Exec.Triple.{ok_parts}
use apmec.Request.{Slot}
use apmec.Api.Policy.{Info, Enforcer, enforce}
use apmec.Api.Served.{Served, notify, on_plugin, attempt}
use apmec.Api.Controller.{Plugin, Controller, of_object, not_told, from, enforced, delete}

ran_parts :
    {S A : Type 0} (r : Result A × S) (s t : Served S) (a : A)
    → Path (Result A × Served S) (r.0, record s { plugin_state = r.1 }) (ok a, t)
    → (r ≡ (ok a, t.plugin_state)) × (t.notices ≡ s.notices)
ran_parts (ok b, u) s t a e =
    let (value, after) = ok_parts e in
    (
      cc (value, ap (λ (x : Served _). x.plugin_state) after),
      ap (λ (x : Served _). x.notices) (sym after),
    )
ran_parts (err x, u) s t a e = absurd (cc)

-- What the plugin did in a call that returned.
plugin_ran :
    {S A : Type 0} (m : Exec S A) (s t : Served S) (a : A)
    → on_plugin m s ≡ (ok a, t)
    → (m s.plugin_state ≡ (ok a, t.plugin_state)) × (t.notices ≡ s.notices)
unfolding on_plugin
plugin_ran m s t a e = ran_parts (m s.plugin_state) s t a e

let_through :
    {S A : Type 0} (r : Result A) (s t : Served S) (a : A)
    → attempt (from r) pure not_told s ≡ (ok a, t)
    → (r ≡ ok a) × (s ≡ t)
unfolding attempt pure
let_through (ok b) s t a e = let (value, after) = ok_parts e in (ap ok value, after)
let_through (err x) s t a e = absurd (cc)

noted :
    {S : Type 0} (event : String) (s t : Served S) (u : Unit {0})
    → notify event s ≡ (ok u, t)
    → (t.plugin_state ≡ s.plugin_state) × (t.notices ≡ s.notices ++ (event ∷ []))
unfolding notify
noted event s t u e =
    let after = (ok_parts e).1 in
    (
      ap (λ (x : Served _). x.plugin_state) (sym after),
      ap (λ (x : Served _). x.notices) (sym after),
    )

module _ {S : Type 0} (enforcer : Enforcer) (res_map : Dict (Dict Info)) (plugin : Plugin S)
    (c : Controller) (context : Context) (id : String) (s s' : Served S) where
  -- A `delete` that returns has read the object from the plugin as it was, the policies let the context
  -- delete that object, the deletion of the plugin has returned from the state after the read, and
  -- exactly the notifications of the start and the end have been sent, in this order.
  pub delete-allowed :
      delete enforcer res_map plugin c context id s ≡ (ok tt, s')
      → (obj : Dict Slot) × (t : S) × (plugin.show context id [] s.plugin_state ≡ (ok obj, t))
        × (enforce enforcer res_map context ("delete_" <> c.resource) (of_object obj) ≡ ok tt)
        × (plugin.delete context id t ≡ (ok tt, s'.plugin_state))
        × (s'.notices
            ≡ (s.notices ++ ((c.resource <> ".delete.start") ∷ []))
              ++ ((c.resource <> ".delete.end") ∷ []))
  unfolding delete
  delete-allowed e =
      let (u1, t1, e1, r1) = bind-ok (notify (c.resource <> ".delete.start")) _ s tt s' e in
      let (obj, t2, e2, r2) = bind-ok (on_plugin (plugin.show context id [])) _ t1 tt s' r1 in
      let (u3, t3, e3, r3) =
        bind-ok
          (attempt
            (enforced enforcer res_map plugin c context ("delete_" <> c.resource) (of_object obj))
            pure not_told)
          _ t2 tt s' r2 in
      let (u4, t4, e4, r4) = bind-ok (on_plugin (plugin.delete context id)) _ t3 tt s' r3 in
      let (p1, n1) = noted _ s t1 u1 e1 in
      let (read, n2) = plugin_ran _ t1 t2 obj e2 in
      let (allowed, same) = let_through _ t2 t3 u3 e3 in
      let (gone, n4) = plugin_ran _ t3 t4 u4 e4 in
      let (p5, n5) = noted _ t4 s' tt r4 in
      (
        obj,
        t2.plugin_state,
        rw p1 at read,
        allowed,
        rw (← same, ← p5) at gone,
        rw (n5, n4, ← same, n2, n1) refl,
      )
