-- ===== src/Utils.antt =====
-- common/utils.py: deep_update, which merges one dict of JSON values into another.
pub mod DeepUpdate
use apmec.Prelude.{String, Bool, true, Option, none, some, not, ◌&&◌}
use apmec.Value.{Value, object, Fields, object_end, entry, keys, put, get}
use apmec.Attributes.Network.{is_key}

unfoldable mutual
  -- The dict that `orig_dict` is after the call; the caller's other references to it see the same.
  pub deep_update : Fields → Fields → Fields
  deep_update orig object_end = orig
  deep_update orig (entry key value rest) =
      deep_update (put key (merged (get key orig) value) orig) rest

  -- orig_dict[key] once `value` is merged into what was there
  pub merged : Option Value → Value → Value
  merged (some (object old)) (object value) = object (deep_update old value)
  merged _ value = value

-- No dict inside has a key twice.
unfoldable mutual
  pub is_dict : Value → Bool
  is_dict (object f) = are_dicts f
  is_dict _ = true

  pub are_dicts : Fields → Bool
  are_dicts object_end = true
  are_dicts (entry k v f) = not (is_key k (keys f)) && (is_dict v && are_dicts f)
