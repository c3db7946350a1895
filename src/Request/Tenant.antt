-- ===== src/Request/Tenant.antt =====
-- api/v1/base.py: whose resource a POST makes.
use apmec.Prelude.{
  ◌≡◌, refl, String, Bool, true, false, Option, none, some, arith, ◌==◌, eq_iff, Bool-cases, inl,
  inr, [], ◌∷◌,
}
use apmec.Db.{Context}
use apmec.Dict.{Dict, lookup, insert, contains, lookup-insert}
use apmec.Value.{text, integer, boolean, object, array, null}
use apmec.Request.{Slot, given, not_specified, done, is_other, populate_tenant_id}

contains-lookup :
    (k : String) (d : Dict Slot) → contains k d ≡ true → lookup k d ≡ none → Bool.true ≡ false
unfolding contains lookup
contains-lookup k [] h e = cc
contains-lookup k ((j, v) ∷ d) h e = elim (Bool-cases (j == k)) [
  | inl hit ↦ absurd (cc (rw hit at e))
  | inr miss ↦ contains-lookup k d (rw miss at h) (rw miss at e)
]

lookup-contains :
    (k : String) (d : Dict Slot) (v : Slot)
    → contains k d ≡ false
    → lookup k d ≡ some v
    → Bool.true ≡ false
unfolding contains lookup
lookup-contains k [] v h e = absurd (cc)
lookup-contains k ((j, w) ∷ d) v h e = elim (Bool-cases (j == k)) [
  | inl hit ↦ absurd (cc (rw hit at h))
  | inr miss ↦ lookup-contains k d v (rw miss at h) (rw miss at e)
]

own : (tenant : String) (v : Slot) → is_other tenant (some v) ≡ false → v ≡ given (text tenant)
own tenant (given (text t)) h =
    let same : t ≡ tenant = ground (arith, eq_iff t tenant) in rw same refl
own tenant (given (integer n)) h = absurd (cc)
own tenant (given (boolean b)) h = absurd (cc)
own tenant (given (object f)) h = absurd (cc)
own tenant (given (array vs)) h = absurd (cc)
own tenant (given null) h = absurd (cc)
own tenant not_specified h = absurd (cc)

-- In the context of a tenant that is no administrator, a POST that `_populate_tenant_id` lets
-- through has the tenant's own identifier under `tenant_id`, given or filled in.
pub populate_tenant_id-own :
    (context : Context) (d d' : Dict Slot)
    → context.is_admin ≡ false
    → populate_tenant_id context true d ≡ done d'
    → lookup "tenant_id" d' ≡ some (given (text context.tenant_id))
unfolding populate_tenant_id
populate_tenant_id-own context d d' plain h = go (lookup "tenant_id" d) refl
  where
    go :
        (o : Option Slot)
        → lookup "tenant_id" d ≡ o
        → lookup "tenant_id" d' ≡ some (given (text context.tenant_id))
    go none e = elim (Bool-cases (contains "tenant_id" d)) [
      | inl here ↦ absurd (cc (contains-lookup "tenant_id" d here e))
      | inr absent ↦ elim (Bool-cases (context.tenant_id == "")) [
        | inl blank ↦ absurd (cc (rw (plain, e, absent, blank) at h))
        | inr named ↦
            let same : insert "tenant_id" (given (text context.tenant_id)) d ≡ d' =
              cc (rw (plain, e, absent, named) at h) in
            rw (← same, lookup-insert "tenant_id" "tenant_id" (given (text context.tenant_id)) d)
              refl
      ]
    ]
    go (some v) e = elim (Bool-cases (is_other context.tenant_id (some v))) [
      | inl other ↦ absurd (cc (rw (plain, e, other) at h))
      | inr mine ↦ elim (Bool-cases (contains "tenant_id" d)) [
        | inl here ↦
            let same : d ≡ d' = cc (rw (plain, e, mine, here) at h) in
            rw (← same, e, own context.tenant_id v mine) refl
        | inr absent ↦ absurd (cc (lookup-contains "tenant_id" d v absent e))
      ]
    ]
