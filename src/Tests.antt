-- ===== src/Tests.antt =====
-- Small databases on which the definitions run, and the theorems applied to them.
pub mod MemExamples
pub mod AttributeExamples
pub mod MeoExamples
pub mod UtilsExamples
pub mod RequestExamples
pub mod MecExamples
pub mod PluginExamples
pub mod ExtensionExamples
pub mod ApiExamples
use apmec.Prelude.{
  arith, ℕ, String, Bool, true, false, Option, none, some, [], ◌∷◌, ◌+◌, ◌<>◌, zero, suc,
}
use text.Mathlib.Text.{find?}
use apmec.Constants.{Status, active, pending_delete}
use apmec.Dict
use apmec.Attributes.Scalar.{Net}
use apmec.Session.{IsLater}
use apmec.Db.{Db, Env, Context, Mead, Mea, datetime_min}

abbrev hashes : ℕ → String
hashes zero = "#"
hashes (suc n) = "#" <> hashes n

abbrev has_hash : String → Bool
has_hash s = elim (find? s "#") [ none ↦ false | some _ ↦ true ]

-- UUIDs are "#", "##" and so on; the clock shows 100 at first.
abbrev pub test_env : Env
test_env = record {
  generate_uuid = hashes;
  is_uuid_like = has_hash;
  utcnow = λ n. 100 + n;
  refuses = λ _. false;
  mask_dict_password = λ d. Dict.insert "password" "***" d;
}

pub test_env-IsLater : IsLater test_env
test_env-IsLater n = ground arith

-- A database server that stores no event.
abbrev pub full_env : Env
full_env = record test_env { refuses = λ _. true }

-- A text with a dot is an address, one with a slash a network.
abbrev has_part : String → String → Bool
has_part part s = elim (find? s part) [ none ↦ false | some _ ↦ true ]

abbrev pub test_net : Net
test_net = record {
  valid_mac = has_part ":";
  is_ip_address = has_part ".";
  is_ip_network = has_part ".";
  cidr = λ s. s <> "/32";
  is_uuid_like = has_hash;
  matches = λ pattern s. has_part "host" s;
}

abbrev pub alice : Context
alice = record { is_admin = false; tenant_id = "alice" }

abbrev pub bob : Context
bob = record { is_admin = false; tenant_id = "bob" }

abbrev pub firewall : Mead
firewall = record {
  id = "#mead";
  tenant_id = "alice";
  name = "firewall";
  description = none;
  mgmt_driver = none;
  template_source = "onboarded";
  created_at = 10;
  updated_at = none;
  deleted_at = some datetime_min;
}

abbrev pub running : Mea
running = record {
  id = "#mea";
  tenant_id = "alice";
  name = "gate";
  description = none;
  instance_id = some "stack";
  mgmt_url = none;
  mead_id = "#mead";
  vim_id = "#vim";
  placement_attr = "";
  status = active;
  error_reason = none;
  created_at = 20;
  updated_at = none;
  deleted_at = some datetime_min;
}

abbrev pub removed : Mea
removed = record running { id = "#old"; status = pending_delete; deleted_at = some 30 }

abbrev pub empty_db : Db
empty_db = record {
  tables = record {
    meads = [];
    service_types = [];
    mead_attributes = [];
    meas = [];
    mea_attributes = [];
    vims = [];
    vim_auths = [];
    nsds = [];
    nsd_attributes = [];
    nss = [];
    events = [];
  };
  uuids = 0;
  ticks = 0;
}

abbrev pub two_meas : Db
two_meas = record empty_db {
  tables = record empty_db.tables { meads = firewall ∷ []; meas = running ∷ removed ∷ [] };
}
