-- ===== src/Tests/UtilsExamples.antt =====
-- common/utils.py on small dicts.
use apmec.Prelude.{◌≡◌, refl, true, some, [], ◌∷◌}
use apmec.Value.{text, object, Fields, entry, object_end, get}
use apmec.Utils.{deep_update, is_dict, are_dicts}
use apmec.Utils.DeepUpdate.{value_at, deep_update-written}

-- {'name': 'v', 'auth': {'user': 'a', 'password': 'x'}}
abbrev stored : Fields
stored = entry "name" (text "v") (
    entry "auth" (object (entry "user" (text "a") (entry "password" (text "x") object_end)))
      object_end)

-- {'auth': {'password': 'y'}, 'type': 'openstack'}
abbrev change : Fields
change =
    entry "auth" (object (entry "password" (text "y") object_end))
      (entry "type" (text "openstack") object_end)

change-are_dicts : are_dicts change ≡ true
unfolding are_dicts is_dict
change-are_dicts = refl

merges_auth :
    get "auth" (deep_update stored change)
    ≡ some (object (entry "user" (text "a") (entry "password" (text "y") object_end)))
unfolding deep_update
merges_auth = refl

keeps_name : get "name" (deep_update stored change) ≡ some (text "v")
unfolding deep_update
keeps_name = refl

deep_update-written_example :
    value_at ("auth" ∷ "password" ∷ []) (object (deep_update stored change)) ≡ some (text "y")
deep_update-written_example =
    deep_update-written ("auth" ∷ "password" ∷ []) stored change (text "y") change-are_dicts refl
      refl
