-- ===== src/Request.antt =====
-- api/v1/base.py: the preparation of a request's body, from the dict of its resource on.
pub mod Filled
pub mod Unchecked
pub mod Tenant
pub mod Known
use apmec.Prelude.{
  String, Bool, true, false, Option, none, some, List, [], ◌∷◌, not, ◌&&◌, ◌==◌, map, if◌then◌else◌,
}
use apmec.Db.{Context}
use apmec.Dict.{Dict, lookup, insert, contains}
use apmec.Errors.{Error, Result, ok, err}
use apmec.Value.{Value, text}
use apmec.Attributes.Message.{Message}
use apmec.Attributes.Scalar.{Net}
use apmec.Attributes.Specs.{Rule}
use apmec.Attributes.Dicts.{validate_rule}

-- A value of the dict: one of the body or a default, which may be ATTR_NOT_SPECIFIED.
pub data Slot : Type 0 where
  given : Value → Slot
  not_specified : Slot

-- What the attribute map says of an attribute; `default` is none where it has no such entry.
pub record Attr : Type 0 where
  pub allow_post : Bool
  pub allow_put : Bool
  pub default : Option Slot
  pub convert_to : Option (Value → Result Value)
  pub validate : List Rule

-- webob.exc.HTTPBadRequest, by its message, or what a conversion or a validator raises
pub data Failure : Type 0 where
  other_tenant tenant_missing : Failure
  body_required bulk_not_supported resources_required resource_missing : Failure
  unrecognized : List String → Failure
  attribute_required not_allowed_in_post read_only : String → Failure
  invalid : String → Message → Failure
  raised : Error → Failure

pub data Prepared {ℓ} (A : Type ℓ) : Type ℓ where
  done : A → Prepared A
  failed : Failure → Prepared A

abbrev pub next : {A B : Type 0} → Prepared A → (A → Prepared B) → Prepared B
next (done a) f = f a
next (failed x) f = failed x

abbrev pub outcome : {A : Type 0} → Result A → Prepared A
outcome (ok a) = done a
outcome (err e) = failed (raised e)

-- res_dict['tenant_id'] != context.tenant_id, where the key is there
abbrev pub is_other : String → Option Slot → Bool
is_other tenant none = false
is_other tenant (some (given (text t))) = not (t == tenant)
is_other tenant (some _) = true

unfoldable pub populate_tenant_id : Context → Bool → Dict Slot → Prepared (Dict Slot)
populate_tenant_id context is_create res_dict =
    if is_other context.tenant_id (lookup "tenant_id" res_dict) && not context.is_admin
    then failed other_tenant
    else (if is_create && not (contains "tenant_id" res_dict)
        then (if context.tenant_id == ""
            then failed tenant_missing
            else done (insert "tenant_id" (given (text context.tenant_id)) res_dict))
        else done res_dict)

-- set(res_dict.keys()) - set(attr_info.keys())
abbrev pub extra_keys : Dict Slot → Dict Attr → List String
extra_keys [] infos = []
extra_keys ((k, v) ∷ d) infos =
    let rest = extra_keys d infos in if contains k infos then rest else k ∷ rest

abbrev refuse_extra : List String → Dict Slot → Prepared (Dict Slot)
refuse_extra [] res_dict = done res_dict
refuse_extra (k ∷ ks) res_dict = failed (unrecognized (k ∷ ks))

unfoldable pub verify_attributes : Dict Attr → Dict Slot → Prepared (Dict Slot)
verify_attributes infos res_dict = refuse_extra (extra_keys res_dict infos) res_dict

-- res_dict.get(attr, attr_vals.get('default')), where one of the two is there
abbrev pub posted : String → Option Slot → Option Slot → Dict Slot → Prepared (Dict Slot)
posted attr none none d = failed (attribute_required attr)
posted attr none (some v) d = done (insert attr v d)
posted attr (some v) default d = done (insert attr v d)

abbrev pub post_attr : String → Attr → Dict Slot → Prepared (Dict Slot)
post_attr attr vals d =
    if vals.allow_post
    then posted attr (lookup attr d) vals.default d
    else (if contains attr d then failed (not_allowed_in_post attr) else done d)

-- The loop of a POST, which fills the defaults in.
unfoldable pub fill_post : Dict Attr → Dict Slot → Prepared (Dict Slot)
fill_post [] d = done d
fill_post ((attr, vals) ∷ infos) d = next (post_attr attr vals d) (fill_post infos)

-- The loop of a PUT.
unfoldable pub check_put : Dict Attr → Dict Slot → Prepared (Dict Slot)
check_put [] d = done d
check_put ((attr, vals) ∷ infos) d =
    let rest = check_put infos d in
    if contains attr d && not vals.allow_put then failed (read_only attr) else rest

-- Whether the rules of the attribute are passed over; `body[resource]` is `res_dict` itself.
unfoldable pub skips : String → Bool → String → Dict Slot → Bool
skips resource is_create attr res_dict =
    if resource == "mea" && (contains "mead_template" res_dict && (attr == "mead_id" && is_create))
    then true
    else (resource == "ns" && (contains "nsd_template" res_dict && (attr == "nsd_id" && is_create)))

module _ (net : Net) where
  abbrev judged : String → Result (Option Message) × Value → Prepared Value
  judged attr (ok none, v) = done v
  judged attr (ok (some reason), v) = failed (invalid attr reason)
  judged attr (err e, v) = failed (raised e)

  unfoldable pub run_rules : String → List Rule → Value → Prepared Value
  run_rules attr [] v = done v
  run_rules attr (rule ∷ rules) v =
      next (judged attr (validate_rule net rule v)) (run_rules attr rules)

  abbrev pub convert_value : Option (Value → Result Value) → Value → Prepared Value
  convert_value none v = done v
  convert_value (some convert) v = outcome (convert v)

  -- One attribute: its value is converted, checked, and is back in the dict.
  abbrev pub checked_attr : Bool → String → Attr → Option Slot → Dict Slot → Prepared (Dict Slot)
  checked_attr skip attr vals none d = done d
  checked_attr skip attr vals (some not_specified) d = done d
  checked_attr skip attr vals (some (given v)) d =
      next
        (next (convert_value vals.convert_to v)
          (λ w. if skip then done w else run_rules attr vals.validate w))
        (λ w. done (insert attr (given w) d))

  unfoldable pub check_attrs : String → Bool → Dict Attr → Dict Slot → Prepared (Dict Slot)
  check_attrs resource is_create [] d = done d
  check_attrs resource is_create ((attr, vals) ∷ infos) d =
      next (checked_attr (skips resource is_create attr d) attr vals (lookup attr d) d)
        (check_attrs resource is_create infos)

  -- prepare_request_body, from `_populate_tenant_id` to the end: the dict that is in the body then
  unfoldable pub prepare_resource :
      Context → Bool → String → Dict Attr → Dict Slot → Prepared (Dict Slot)
  prepare_resource context is_create resource infos res_dict =
      next (populate_tenant_id context is_create res_dict) λ d.
        next (verify_attributes infos d) λ d.
          next (if is_create then fill_post infos d else check_put infos d)
            (check_attrs resource is_create infos)
