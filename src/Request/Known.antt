-- ===== src/Request/Known.antt =====
-- api/v1/base.py: a prepared dict has no key beside those of the map of attributes.
use apmec.Prelude.{
  ◌≡◌, refl, String, Bool, true, false, Option, none, some, List, [], ◌∷◌, arith, ◌==◌, eq_iff,
  Bool-cases, inl, inr, if◌then◌else◌, not, ◌&&◌,
}
use apmec.Db.{Context}
use apmec.Dict.{Dict, lookup, insert, contains}
use apmec.Attributes.Scalar.{Net}
use apmec.Request.{
  Slot, given, not_specified, Attr, Failure, Prepared, done, failed, next, posted, post_attr,
  fill_post, checked_attr, check_attrs, check_put, populate_tenant_id, extra_keys,
  verify_attributes, prepare_resource, skips, refuse_extra, not_allowed_in_post, convert_value,
  run_rules,
}
use apmec.Request.Filled.{contains-back, next-done}

-- What is done has the key only if it was there.
abbrev Leaves : String → Dict Slot → Prepared (Dict Slot) → Type 0
Leaves k d p = (d' : Dict Slot) → p ≡ done d' → contains k d' ≡ true → contains k d ≡ true

done-Leaves : (k : String) (d : Dict Slot) → Leaves k d (done d)
done-Leaves k d d' h there = let same : d ≡ d' = cc in rw same there

written-Leaves :
    (k attr : String) (v : Slot) (d : Dict Slot)
    → (attr == k) ≡ false
    → Leaves k d (done (insert attr v d))
written-Leaves k attr v d other d' h there =
    let same : insert attr v d ≡ d' = cc in contains-back attr k v d (rw same there) other

posted-Leaves :
    (k attr : String) (o p : Option Slot) (d : Dict Slot)
    → (attr == k) ≡ false
    → Leaves k d (posted attr o p d)
posted-Leaves k attr none none d other d' h there = absurd (cc)
posted-Leaves k attr none (some v) d other d' h there = written-Leaves k attr v d other d' h there
posted-Leaves k attr (some v) p d other d' h there = written-Leaves k attr v d other d' h there

refused-Leaves :
    (k : String) (x : Failure) (b : Bool) (d : Dict Slot)
    → Leaves k d (if b then failed x else done d)
refused-Leaves k x true d d' h there = absurd (cc)
refused-Leaves k x false d d' h there = done-Leaves k d d' h there

post_attr-Leaves :
    (k attr : String) (vals : Attr) (d : Dict Slot)
    → (attr == k) ≡ false
    → Leaves k d (post_attr attr vals d)
post_attr-Leaves k attr vals d other d' h there = elim (Bool-cases vals.allow_post) [
  | inl may ↦ posted-Leaves k attr (lookup attr d) vals.default d other d' (rw may at h) there
  | inr may_not ↦
      refused-Leaves k (not_allowed_in_post attr) (contains attr d) d d' (rw may_not at h) there
]

none_known :
    (k attr : String) (vals : Attr) (infos : Dict Attr)
    → contains k ((attr, vals) ∷ infos) ≡ false
    → ((attr == k) ≡ false) × (contains k infos ≡ false)
unfolding contains
none_known k attr vals infos h = elim (Bool-cases (attr == k)) [
  | inl hit ↦ absurd (cc (rw hit at h))
  | inr miss ↦ (miss, rw miss at h)
]

fill_post-Leaves :
    (k : String) (infos : Dict Attr) (d : Dict Slot)
    → contains k infos ≡ false
    → Leaves k d (fill_post infos d)
unfolding fill_post
fill_post-Leaves k [] d unknown d' h there = done-Leaves k d d' h there
fill_post-Leaves k ((attr, vals) ∷ infos) d unknown d' h there =
    let (other, later) = none_known k attr vals infos unknown in
    let (e, first, rest) = next-done (post_attr attr vals d) (fill_post infos) d' h in
    post_attr-Leaves k attr vals d other e first (fill_post-Leaves k infos e later d' rest there)

check_put-Leaves : (k : String) (infos : Dict Attr) (d : Dict Slot) → Leaves k d (check_put infos d)
unfolding check_put
check_put-Leaves k [] d d' h there = done-Leaves k d d' h there
check_put-Leaves k ((attr, vals) ∷ infos) d d' h there =
    elim (Bool-cases (contains attr d && not vals.allow_put)) [
      | inl refused ↦ absurd (cc (rw refused at h))
      | inr passed ↦ check_put-Leaves k infos d d' (rw passed at h) there
    ]

known_all :
    (k : String) (infos : Dict Attr) (d : Dict Slot)
    → extra_keys d infos ≡ []
    → contains k infos ≡ false
    → contains k d ≡ false
unfolding contains
known_all k infos [] e unknown = refl
known_all k infos ((j, v) ∷ d) e unknown = elim (Bool-cases (contains j infos)) [
  | inl here ↦ elim (Bool-cases (j == k)) [
    | inl hit ↦ let name : j ≡ k = ground (arith, eq_iff j k) in absurd (cc (rw name at here))
    | inr miss ↦ rw miss (known_all k infos d (rw here at e) unknown)
  ]
  | inr extra ↦ absurd (cc (rw extra at e))
]

verified :
    (d d' : Dict Slot) (infos : Dict Attr)
    → verify_attributes infos d ≡ done d'
    → (extra_keys d infos ≡ []) × (d ≡ d')
unfolding verify_attributes
verified d d' infos h = go (extra_keys d infos) refl h
  where
    go :
        (ks : List String)
        → extra_keys d infos ≡ ks
        → refuse_extra ks d ≡ done d'
        → (extra_keys d infos ≡ []) × (d ≡ d')
    go [] e r = (e, cc)
    go (k ∷ ks) e r = absurd (cc)

module _ (net : Net) where
  checked_attr-Leaves :
      (k attr : String) (vals : Attr) (skip : Bool) (o : Option Slot) (d : Dict Slot)
      → (attr == k) ≡ false
      → Leaves k d (checked_attr net skip attr vals o d)
  checked_attr-Leaves k attr vals skip none d other d' h there = done-Leaves k d d' h there
  checked_attr-Leaves k attr vals skip (some not_specified) d other d' h there =
      done-Leaves k d d' h there
  checked_attr-Leaves k attr vals skip (some (given v)) d other d' h there =
      let (w, _, last) =
        next-done
          (next (convert_value net vals.convert_to v)
            (λ w. if skip then done w else run_rules net attr vals.validate w))
          (λ w. done (insert attr (given w) d)) d' h in
      written-Leaves k attr (given w) d other d' last there

  check_attrs-Leaves :
      (k resource : String) (is_create : Bool) (infos : Dict Attr) (d : Dict Slot)
      → contains k infos ≡ false
      → Leaves k d (check_attrs net resource is_create infos d)
  unfolding check_attrs
  check_attrs-Leaves k resource is_create [] d unknown d' h there = done-Leaves k d d' h there
  check_attrs-Leaves k resource is_create ((attr, vals) ∷ infos) d unknown d' h there =
      let skip = skips resource is_create attr d in
      let (other, later) = none_known k attr vals infos unknown in
      let (e, first, rest) =
        next-done (checked_attr net skip attr vals (lookup attr d) d)
          (check_attrs net resource is_create infos) d' h in
      checked_attr-Leaves k attr vals skip (lookup attr d) d other e first
        (check_attrs-Leaves k resource is_create infos e later d' rest there)

  filled-Leaves :
      (k : String) (is_create : Bool) (infos : Dict Attr) (d : Dict Slot)
      → contains k infos ≡ false
      → Leaves k d (if is_create then fill_post infos d else check_put infos d)
  filled-Leaves k true infos d unknown d' h there = fill_post-Leaves k infos d unknown d' h there
  filled-Leaves k false infos d unknown d' h there = check_put-Leaves k infos d d' h there

  -- A POST or a PUT that is prepared has no key that the map of attributes lacks.
  prepare_resource-known :
      (context : Context) (is_create : Bool) (resource k : String) (infos : Dict Attr)
      (d d' : Dict Slot)
      → prepare_resource net context is_create resource infos d ≡ done d'
      → contains k d' ≡ true
      → contains k infos ≡ true
  unfolding prepare_resource
  prepare_resource-known context is_create resource k infos d d' h there =
      let (d1, _, h1) = next-done (populate_tenant_id context is_create d) _ d' h in
      let (d2, v, h2) = next-done (verify_attributes infos d1) _ d' h1 in
      let (d3, f, h3) =
        next-done (if is_create then fill_post infos d2 else check_put infos d2) _ d' h2 in
      let (all_known, same) = verified d1 d2 infos v in
      elim (Bool-cases (contains k infos)) [
        | inl known ↦ known
        | inr unknown ↦
            let was : contains k d2 ≡ true =
              filled-Leaves k is_create infos d2 unknown d3 f
                (check_attrs-Leaves k resource is_create infos d3 unknown d' h3 there) in
            let not_there : contains k d1 ≡ false = known_all k infos d1 all_known unknown in
            absurd (cc (rw same at not_there))
      ]
