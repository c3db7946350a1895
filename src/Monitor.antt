-- ===== src/Monitor.antt =====
-- mem/monitor.py, class MEAMonitor: the hosting MEAs and what is known of each.
use apmec.Prelude.{
  ℕ, zero, suc, String, Bool, false, Option, none, some, List, [], ◌∷◌, ◌++◌, length,
}
use apmec.Errors.{Result, ok, err, key_error}
use apmec.Dict.{Dict, insert, erase, lookup}
use apmec.Db.{Context}
use apmec.Mem.MeaRow.{MeaDict}

-- The policy of a driver: `monitoring_params` and `actions`.
pub record DriverPolicy : Type 0 where
  pub monitoring_delay : Option ℕ
  pub mgmt_ip : Option String
  pub actions : Dict String

pub record MonitoringPolicy : Type 0 where
  pub monitoring_delay : Option ℕ
  -- by VDU and driver
  pub vdus : Option (Dict (Dict DriverPolicy))

-- The dict of `to_hosting_mea`, with `boot_at` and `dead`; the callback is that of `add_mea_to_monitor`,
-- which holds the context.
pub record Hosting : Type 0 where
  pub id : String
  pub management_ip_addresses : Dict String
  pub context : Context
  pub mea : MeaDict
  pub monitoring_policy : MonitoringPolicy
  pub boot_at : ℕ
  pub dead : Bool

abbrev pub to_hosting_mea : Context → MeaDict → Dict String → MonitoringPolicy → ℕ → Hosting
to_hosting_mea context mea_dict ips policy now = record {
  id = mea_dict.id;
  management_ip_addresses = ips;
  context = context;
  mea = mea_dict;
  monitoring_policy = policy;
  boot_at = now;
  dead = false;
}

-- The dict `_hosting_meas`, from the ids of MEAs to objects, and the objects that were made, by their
-- number. An object that the dict has lost may still be held by a loop.
pub record Hosted : Type 0 where
  pub hosting_meas : Dict ℕ
  pub objects : List Hosting

abbrev pub object_at : ℕ → List Hosting → Option Hosting
object_at n [] = none
object_at zero (h ∷ hs) = some h
object_at (suc n) (h ∷ hs) = object_at n hs

abbrev pub set_object : ℕ → (Hosting → Hosting) → List Hosting → List Hosting
set_object n f [] = []
set_object zero f (h ∷ hs) = f h ∷ hs
set_object (suc n) f (h ∷ hs) = h ∷ set_object n f hs

-- `add_hosting_mea`, under the lock
unfoldable pub add_hosting_mea : Hosting → Hosted → Hosted
add_hosting_mea new_mea m = record {
  hosting_meas = insert new_mea.id (length m.objects) m.hosting_meas;
  objects = m.objects ++ (new_mea ∷ []);
}

-- `delete_hosting_mea`, under the lock
unfoldable pub delete_hosting_mea : String → Hosted → Hosted
delete_hosting_mea mea_id m = record m { hosting_meas = erase mea_id m.hosting_meas }

-- `mark_dead`
unfoldable pub mark_dead : String → Hosted → Result Hosted
mark_dead mea_id m = elim (lookup mea_id m.hosting_meas) [
  | none ↦ err key_error
  | some n ↦ ok (record m { objects = set_object n (λ h. record h { dead = Bool.true }) m.objects })
]
