-- ===== src/Request/Filled.antt =====
-- api/v1/base.py: which keys the dict of a request has after its preparation.
use apmec.Prelude.{
  ◌≡◌, refl, String, Bool, true, false, Option, none, some, [], ◌∷◌, arith, ◌==◌, eq_iff, eq_refl,
  Bool-cases, inl, inr, if◌then◌else◌,
}
use apmec.Db.{Context}
use apmec.Dict.{Dict, lookup, insert, contains}
use apmec.Attributes.Scalar.{Net}
use apmec.Request.{
  Slot, given, not_specified, Attr, Prepared, done, failed, next, post_attr, fill_post,
  checked_attr, check_attrs, posted, Failure, not_allowed_in_post, skips, run_rules, convert_value,
  populate_tenant_id, verify_attributes, prepare_resource,
}

contains-insert :
    {V : Type 0} (k j : String) (v : V) (d : Dict V)
    → contains j d ≡ true
    → contains j (insert k v d) ≡ true
unfolding contains insert
contains-insert k j v [] h = absurd (cc)
contains-insert k j v ((i, w) ∷ d) h = ground (arith, contains-insert k j v d)

contains-inserted :
    {V : Type 0} (k : String) (v : V) (d : Dict V) → contains k (insert k v d) ≡ true
unfolding contains insert
contains-inserted k v [] = ground (arith, eq_refl k)
contains-inserted k v ((i, w) ∷ d) = ground (arith, contains-inserted k v d)

pub contains-back :
    {V : Type 0} (k j : String) (v : V) (d : Dict V)
    → contains j (insert k v d) ≡ true
    → (k == j) ≡ false
    → contains j d ≡ true
unfolding contains insert
contains-back k j v [] h other = ground arith
contains-back k j v ((i, w) ∷ d) h other = ground (arith, eq_iff i k, contains-back k j v d)

pub next-done :
    {A B : Type 0} (p : Prepared A) (f : A → Prepared B) (b : B)
    → next p f ≡ done b
    → (a : A) × (p ≡ done a) × (f a ≡ done b)
next-done (done a) f b h = (a, refl, h)
next-done (failed x) f b h = cc

-- What is done keeps the key.
abbrev pub Keeps : String → Dict Slot → Prepared (Dict Slot) → Type 0
Keeps k d p = (d' : Dict Slot) → p ≡ done d' → contains k d ≡ true → contains k d' ≡ true

written-Keeps : (k attr : String) (v : Slot) (d : Dict Slot) → Keeps k d (done (insert attr v d))
written-Keeps k attr v d d' h there =
    let same : insert attr v d ≡ d' = cc in rw (← same) (contains-insert attr k v d there)

posted-Keeps : (k attr : String) (o p : Option Slot) (d : Dict Slot) → Keeps k d (posted attr o p d)
posted-Keeps k attr none none d d' h there = absurd (cc)
posted-Keeps k attr none (some v) d d' h there = written-Keeps k attr v d d' h there
posted-Keeps k attr (some v) p d d' h there = written-Keeps k attr v d d' h there

refused-Keeps :
    (k : String) (x : Failure) (b : Bool) (d : Dict Slot)
    → Keeps k d (if b then failed x else done d)
refused-Keeps k x true d d' h there = absurd (cc)
refused-Keeps k x false d d' h there = let same : d ≡ d' = cc in rw (← same) there

post_attr-Keeps :
    (k attr : String) (vals : Attr) (d : Dict Slot) → Keeps k d (post_attr attr vals d)
post_attr-Keeps k attr vals d d' h there = elim (Bool-cases vals.allow_post) [
  | inl may ↦ posted-Keeps k attr (lookup attr d) vals.default d d' (rw may at h) there
  | inr may_not ↦
      refused-Keeps k (not_allowed_in_post attr) (contains attr d) d d' (rw may_not at h) there
]

fill_post-Keeps : (k : String) (infos : Dict Attr) (d : Dict Slot) → Keeps k d (fill_post infos d)
unfolding fill_post
fill_post-Keeps k [] d d' h there = let same : d ≡ d' = cc in rw (← same) there
fill_post-Keeps k ((attr, vals) ∷ infos) d d' h there =
    let (e, first, rest) = next-done (post_attr attr vals d) (fill_post infos) d' h in
    fill_post-Keeps k infos e d' rest (post_attr-Keeps k attr vals d e first there)

posted_there :
    (attr : String) (o p : Option Slot) (d d' : Dict Slot)
    → posted attr o p d ≡ done d'
    → contains attr d' ≡ true
posted_there attr none none d d' h = absurd (cc)
posted_there attr none (some v) d d' h =
    let same : insert attr v d ≡ d' = cc in rw (← same) (contains-inserted attr v d)
posted_there attr (some v) p d d' h =
    let same : insert attr v d ≡ d' = cc in rw (← same) (contains-inserted attr v d)

-- The attribute `k` of the map may be given in a POST.
abbrev pub IsPosted : String → Dict Attr → Type 0
IsPosted k infos = (vals : Attr) × (lookup k infos ≡ some vals) × (vals.allow_post ≡ true)

pub fill_post-there :
    (k : String) (infos : Dict Attr) (d d' : Dict Slot)
    → IsPosted k infos
    → fill_post infos d ≡ done d'
    → contains k d' ≡ true
unfolding fill_post lookup
fill_post-there k [] d d' (vals, here, allowed) h = absurd (cc)
fill_post-there k ((attr, vals) ∷ infos) d d' (vals', here, allowed) h =
    let (e, first, rest) = next-done (post_attr attr vals d) (fill_post infos) d' h in
    elim (Bool-cases (attr == k)) [
      | inl hit ↦
          let same : vals ≡ vals' = cc (rw hit at here) in
          let name : attr ≡ k = ground (arith, eq_iff attr k) in
          let may : vals.allow_post ≡ true = rw same allowed in
          fill_post-Keeps k infos e d' rest
            (rw (← name) (posted_there attr (lookup attr d) vals.default d e (rw may at first)))
      | inr miss ↦ fill_post-there k infos e d' (vals', rw miss at here, allowed) rest
    ]

module _ (net : Net) where
  pub checked_attr-Keeps :
      (k attr : String) (vals : Attr) (skip : Bool) (o : Option Slot) (d : Dict Slot)
      → Keeps k d (checked_attr net skip attr vals o d)
  checked_attr-Keeps k attr vals skip none d d' h there =
      let same : d ≡ d' = cc in rw (← same) there
  checked_attr-Keeps k attr vals skip (some not_specified) d d' h there =
      let same : d ≡ d' = cc in rw (← same) there
  checked_attr-Keeps k attr vals skip (some (given v)) d d' h there =
      let (w, _, last) =
        next-done
          (next (convert_value net vals.convert_to v)
            (λ w. if skip then done w else run_rules net attr vals.validate w))
          (λ w. done (insert attr (given w) d)) d' h in
      written-Keeps k attr (given w) d d' last there

  check_attrs-Keeps :
      (k resource : String) (is_create : Bool) (infos : Dict Attr) (d : Dict Slot)
      → Keeps k d (check_attrs net resource is_create infos d)
  unfolding check_attrs
  check_attrs-Keeps k resource is_create [] d d' h there =
      let same : d ≡ d' = cc in rw (← same) there
  check_attrs-Keeps k resource is_create ((attr, vals) ∷ infos) d d' h there =
      let skip = skips resource is_create attr d in
      let (e, first, rest) =
        next-done (checked_attr net skip attr vals (lookup attr d) d)
          (check_attrs net resource is_create infos) d' h in
      check_attrs-Keeps k resource is_create infos e d' rest
        (checked_attr-Keeps k attr vals skip (lookup attr d) d e first there)

  -- A POST that is prepared has a value under every attribute of the map that a POST may give.
  pub prepare_resource-there :
      (context : Context) (resource k : String) (infos : Dict Attr) (d d' : Dict Slot)
      → IsPosted k infos
      → prepare_resource net context true resource infos d ≡ done d'
      → contains k d' ≡ true
  unfolding prepare_resource
  prepare_resource-there context resource k infos d d' allowed h =
      let (d1, _, h1) = next-done (populate_tenant_id context true d) _ d' h in
      let (d2, _, h2) = next-done (verify_attributes infos d1) _ d' h1 in
      let (d3, filled, h3) = next-done (fill_post infos d2) _ d' h2 in
      check_attrs-Keeps k resource true infos d3 d' h3
        (fill_post-there k infos d2 d3 allowed filled)
