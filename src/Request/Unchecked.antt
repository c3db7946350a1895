-- ===== src/Request/Unchecked.antt =====
-- api/v1/base.py: the rules of `mead_id` and of `nsd_id` in a POST.
use apmec.Prelude.{
  ◌≡◌, refl, sym, String, Bool, true, false, Option, none, some, [], ◌∷◌, arith, ◌==◌, eq_iff,
  Bool-cases, inl, inr, if◌then◌else◌,
}
use apmec.Db.{Context}
use apmec.Dict.{Dict, lookup, contains}
use apmec.Attributes.Scalar.{Net}
use apmec.Request.{
  Slot, given, not_specified, Attr, Prepared, done, failed, next, post_attr, fill_post,
  checked_attr, check_attrs, populate_tenant_id, extra_keys, verify_attributes, prepare_resource,
  skips,
}
use apmec.Request.Filled.{IsPosted, fill_post-there, checked_attr-Keeps}

abbrev lax : Attr → Attr
lax vals = record {
  allow_post = vals.allow_post;
  allow_put = vals.allow_put;
  default = vals.default;
  convert_to = vals.convert_to;
  validate = [];
}

-- The map without the rules of one attribute.
abbrev pub without_rules : String → Dict Attr → Dict Attr
without_rules k [] = []
without_rules k ((attr, vals) ∷ infos) =
    (attr, if attr == k then lax vals else vals) ∷ without_rules k infos

next_same :
    {A B : Type 0} (p : Prepared A) (f g : A → Prepared B)
    → ((a : A) → p ≡ done a → f a ≡ g a)
    → next p f ≡ next p g
next_same (done a) f g h = h a refl
next_same (failed x) f g h = refl

contains-without :
    (k j : String) (infos : Dict Attr) → contains j (without_rules k infos) ≡ contains j infos
unfolding contains
contains-without k j [] = refl
contains-without k j ((attr, vals) ∷ infos) = rw (contains-without k j infos) refl

extra_keys-without :
    (k : String) (d : Dict Slot) (infos : Dict Attr)
    → extra_keys d (without_rules k infos) ≡ extra_keys d infos
extra_keys-without k [] infos = refl
extra_keys-without k ((j, v) ∷ d) infos =
    rw (extra_keys-without k d infos, contains-without k j infos) refl

post_attr-lax :
    (b : Bool) (attr : String) (vals : Attr) (d : Dict Slot)
    → post_attr attr (if b then lax vals else vals) d ≡ post_attr attr vals d
post_attr-lax true attr vals d = refl
post_attr-lax false attr vals d = refl

fill_post-without :
    (k : String) (infos : Dict Attr) (d : Dict Slot)
    → fill_post (without_rules k infos) d ≡ fill_post infos d
unfolding fill_post
fill_post-without k [] d = refl
fill_post-without k ((attr, vals) ∷ infos) d = rw (post_attr-lax (attr == k) attr vals d) (
    next_same (post_attr attr vals d) (fill_post (without_rules k infos)) (fill_post infos)
      λ e _. fill_post-without k infos e)

verify-without :
    (k : String) (infos : Dict Attr) (d : Dict Slot)
    → verify_attributes (without_rules k infos) d ≡ verify_attributes infos d
unfolding verify_attributes
verify-without k infos d = rw (extra_keys-without k d infos) refl

-- The resource, the attribute with its identifier and the one with the template in its place.
pub data Templated : String → String → String → Type 0 where
  of_mea : Templated "mea" "mead_id" "mead_template"
  of_ns : Templated "ns" "nsd_id" "nsd_template"

skips-Templated :
    {resource k template : String} (d : Dict Slot)
    → Templated resource k template
    → contains template d ≡ true
    → skips resource true k d ≡ true
unfolding skips
skips-Templated d of_mea there = rw there refl
skips-Templated d of_ns there = rw there refl

module _ (net : Net) where
  checked_attr-lax :
      (k attr : String) (skip : Bool) (vals : Attr) (o : Option Slot) (d : Dict Slot)
      → ((attr ≡ k) → skip ≡ true)
      → checked_attr net skip attr (if attr == k then lax vals else vals) o d
        ≡ checked_attr net skip attr vals o d
  checked_attr-lax k attr skip vals o d skipped = elim (Bool-cases (attr == k)) [
    | inl hit ↦
        let name : attr ≡ k = ground (arith, eq_iff attr k) in rw (hit, skipped name) (over o)
    | inr miss ↦ rw miss refl
  ]
    where
      over :
          (o : Option Slot)
          → checked_attr net true attr (lax vals) o d ≡ checked_attr net true attr vals o d
      over none = refl
      over (some not_specified) = refl
      over (some (given v)) = refl

  check_attrs-without :
      (resource k template : String) (infos : Dict Attr) (d : Dict Slot)
      → Templated resource k template
      → contains template d ≡ true
      → check_attrs net resource true (without_rules k infos) d
        ≡ check_attrs net resource true infos d
  unfolding check_attrs
  check_attrs-without resource k template [] d t there = refl
  check_attrs-without resource k template ((attr, vals) ∷ infos) d t there =
      let skip = skips resource true attr d in
      rw
        (checked_attr-lax k attr skip vals (lookup attr d) d
          λ name. rw name (skips-Templated d t there))
        (next_same (checked_attr net skip attr vals (lookup attr d) d)
          (check_attrs net resource true (without_rules k infos))
          (check_attrs net resource true infos)
          λ e kept.
            check_attrs-without resource k template infos e t
              (checked_attr-Keeps net template attr vals skip (lookup attr d) d e kept there))

  -- A POST of a MEA does with a map of attributes what it does with that map without the rules of
  -- `mead_id`, if a POST may give a `mead_template`; and that of an NS, without those of `nsd_id`,
  -- if it may give an `nsd_template`.
  pub prepare_resource-without :
      (context : Context) (resource k template : String) (infos : Dict Attr) (d : Dict Slot)
      → Templated resource k template
      → IsPosted template infos
      → prepare_resource net context true resource infos d
        ≡ prepare_resource net context true resource (without_rules k infos) d
  unfolding prepare_resource
  prepare_resource-without context resource k template infos d t posted =
      next_same (populate_tenant_id context true d) _ _ λ d1 _. rw (verify-without k infos d1) (
        next_same (verify_attributes infos d1) _ _ λ d2 _. rw (fill_post-without k infos d2) (
          next_same (fill_post infos d2) (check_attrs net resource true infos)
            (check_attrs net resource true (without_rules k infos))
            λ d3 filled. sym (
              check_attrs-without resource k template infos d3 t
                (fill_post-there template infos d2 d3 posted filled))))
