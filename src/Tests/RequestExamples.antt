-- ===== src/Tests/RequestExamples.antt =====
-- api/v1/base.py on a part of the attribute map of a MEA.
use apmec.Prelude.{◌≡◌, refl, true, false, none, some, [], ◌∷◌}
use apmec.Dict.{Dict, lookup, insert, contains}
use apmec.Value.{text, null, value_eq}
use apmec.Attributes.Specs.{type_uuid, type_string, type_dict_or_none}
use apmec.Attributes.Dicts.{validate_rule}
use apmec.Attributes.Scalar.{validate_string}
use apmec.Attributes.Specs.{no_specs}
use apmec.Request.{
  Slot, given, Attr, done, failed, prepare_resource, populate_tenant_id, verify_attributes,
  fill_post, check_attrs, run_rules, skips, unrecognized,
}
use apmec.Request.Filled.{IsPosted, prepare_resource-there}
use apmec.Request.Unchecked.{of_mea, without_rules, prepare_resource-without}
use apmec.Request.Tenant.{populate_tenant_id-own}
use apmec.Tests.{test_net, alice}

abbrev mead_id_attr : Attr
mead_id_attr = record {
  allow_post = true;
  allow_put = false;
  default = some (given null);
  convert_to = none;
  validate = type_uuid ∷ [];
}

abbrev template_attr : Attr
template_attr = record {
  allow_post = true;
  allow_put = false;
  default = some (given null);
  convert_to = none;
  validate = type_dict_or_none no_specs ∷ [];
}

abbrev tenant_attr : Attr
tenant_attr = record {
  allow_post = true;
  allow_put = false;
  default = none;
  convert_to = none;
  validate = type_string none ∷ [];
}

abbrev mea_attrs : Dict Attr
mea_attrs =
    ("tenant_id", tenant_attr) ∷ ("mead_id", mead_id_attr) ∷ ("mead_template", template_attr) ∷ []

template_IsPosted : IsPosted "mead_template" mea_attrs
unfolding lookup
template_IsPosted = (template_attr, refl, refl)

abbrev no_uuid : Dict Slot
no_uuid = ("mead_id", given (text "no uuid")) ∷ []

abbrev prepared : Dict Slot
prepared =
    ("mead_id", given (text "no uuid"))
    ∷ ("tenant_id", given (text "alice"))
    ∷ ("mead_template", given null)
    ∷ []

-- A `mead_id` that is no UUID is let through, though no template is given.
accepts_no_uuid : prepare_resource test_net alice true "mea" mea_attrs no_uuid ≡ done prepared
unfolding prepare_resource populate_tenant_id verify_attributes fill_post check_attrs run_rules
    skips validate_rule validate_string value_eq lookup insert contains
accepts_no_uuid = refl

refuses_unknown :
    prepare_resource test_net alice true "mea" mea_attrs (("colour", given null) ∷ [])
    ≡ failed (unrecognized ("colour" ∷ []))
unfolding prepare_resource populate_tenant_id verify_attributes lookup insert contains
refuses_unknown = refl

prepare_resource-there_example : contains "mead_template" prepared ≡ true
prepare_resource-there_example =
    prepare_resource-there test_net alice "mea" "mead_template" mea_attrs no_uuid prepared
      template_IsPosted accepts_no_uuid

prepare_resource-without_example :
    prepare_resource test_net alice true "mea" mea_attrs no_uuid
    ≡ prepare_resource test_net alice true "mea" (without_rules "mead_id" mea_attrs) no_uuid
prepare_resource-without_example =
    prepare_resource-without test_net alice "mea" "mead_id" "mead_template" mea_attrs no_uuid of_mea
      template_IsPosted

populates :
    populate_tenant_id alice true no_uuid
    ≡ done (("mead_id", given (text "no uuid")) ∷ ("tenant_id", given (text "alice")) ∷ [])
unfolding populate_tenant_id lookup insert contains
populates = refl

populate_tenant_id-own_example :
    lookup "tenant_id"
      (("mead_id", given (text "no uuid")) ∷ ("tenant_id", given (text "alice")) ∷ [])
    ≡ some (given (text "alice"))
populate_tenant_id-own_example =
    populate_tenant_id-own alice no_uuid
      (("mead_id", given (text "no uuid")) ∷ ("tenant_id", given (text "alice")) ∷ []) refl
      populates

prepared_has : contains "mead_id" prepared ≡ true
unfolding contains
prepared_has = refl
