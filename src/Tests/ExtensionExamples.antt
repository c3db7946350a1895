-- ===== src/Tests/ExtensionExamples.antt =====
-- api/extensions.py on two extensions, the first of which requires the second.
use apmec.Prelude.{◌≡◌, refl, none, some, [], ◌∷◌}
use apmec.Dict
use apmec.Dict.{Dict}
use apmec.Extensions.{
  Extension, AttrMap, Progress, gives, all_processed, extend_map, one_pass, iterate, start,
  extend_resources,
}
use apmec.Extensions.Ends.{extend_resources-Ends}
use apmec.Extensions.Ordered.{Ordered, AllWait, iterate_all-Ordered}

abbrev two_extensions : Dict Extension
two_extensions =
    (
      "mem",
      record {
        extended = gives (("meas", []) ∷ []);
        required = "common" ∷ [];
        update_attributes_map = none;
      },
    )
    ∷ (
      "common",
      record {
        extended = gives (("events", []) ∷ []);
        required = [];
        update_attributes_map = none;
      },
    )
    ∷ []

abbrev processed : Progress
processed = record {
  update_exts = [];
  processed_exts = "common" ∷ "mem" ∷ [];
  attr_map = ("events", []) ∷ ("meas", []) ∷ [];
}

processes : iterate 3 (start []) two_extensions ≡ some (processed, [])
unfolding iterate one_pass all_processed extend_map Dict.lookup Dict.insert
processes = refl

extend_resources-Ends_example : (m : AttrMap) × (extend_resources two_extensions [] ≡ some m)
extend_resources-Ends_example = extend_resources-Ends two_extensions []

iterate_all-Ordered_example :
    Ordered two_extensions ("common" ∷ "mem" ∷ []) × AllWait [] ("common" ∷ "mem" ∷ [])
iterate_all-Ordered_example = iterate_all-Ordered 3 two_extensions [] (processed, []) processes
