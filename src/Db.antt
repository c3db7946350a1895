-- ===== src/Db.antt =====
-- The database: the tables of db/mem/mem_db.py, db/meo/meo_db.py, db/meo/ns_db.py and
-- db/common_services/common_services_db.py, the
-- session's transactions, and the queries of db/db_base.py.
-- A timestamp is a number of microseconds after `datetime.min`, which is 0.
use apmec.Prelude.{ℕ, String, Bool, Option, List}
use apmec.Dict.{Dict}
use apmec.Constants.{Status, ResourceType, EventType, EventState}

pub record Context : Type 0 where
  pub is_admin : Bool
  pub tenant_id : String

abbrev pub datetime_min : ℕ
datetime_min = 0

-- class MEAD
pub record Mead : Type 0 where
  pub id : String
  pub tenant_id : String
  pub name : String
  pub description : Option String
  pub mgmt_driver : Option String
  pub template_source : String
  pub created_at : ℕ
  pub updated_at : Option ℕ
  pub deleted_at : Option ℕ

-- class ServiceType
pub record ServiceType : Type 0 where
  pub id : String
  pub tenant_id : String
  pub mead_id : String
  pub service_type : String

-- class MEADAttribute
pub record MeadAttribute : Type 0 where
  pub id : String
  pub mead_id : String
  pub key : String
  pub value : String

-- class MEA
pub record Mea : Type 0 where
  pub id : String
  pub tenant_id : String
  pub name : String
  pub description : Option String
  pub instance_id : Option String
  pub mgmt_url : Option String
  pub mead_id : String
  pub vim_id : String
  pub placement_attr : String
  pub status : Status
  pub error_reason : Option String
  pub created_at : ℕ
  pub updated_at : Option ℕ
  pub deleted_at : Option ℕ

-- class MEAAttribute
pub record MeaAttribute : Type 0 where
  pub id : String
  pub mea_id : String
  pub key : String
  pub value : String

-- class Vim
pub record Vim : Type 0 where
  pub id : String
  pub type : String
  pub tenant_id : String
  pub name : String
  pub description : Option String
  pub placement_attr : String
  pub shared : Bool
  pub is_default : Bool
  pub status : String
  pub created_at : ℕ
  pub updated_at : Option ℕ
  pub deleted_at : Option ℕ

-- class VimAuth
pub record VimAuth : Type 0 where
  pub id : String
  pub vim_id : String
  pub password : String
  pub auth_url : String
  pub vim_project : String
  pub auth_cred : Dict String

-- class NSD
pub record Nsd : Type 0 where
  pub id : String
  pub tenant_id : String
  pub name : String
  pub description : Option String
  pub meads : String
  pub template_source : String
  pub created_at : ℕ
  pub updated_at : Option ℕ
  pub deleted_at : Option ℕ

-- class NSDAttribute
pub record NsdAttribute : Type 0 where
  pub id : String
  pub nsd_id : String
  pub key : String
  pub value : String

-- class NS; the two dicts are stored as their texts
pub record Ns : Type 0 where
  pub id : String
  pub tenant_id : String
  pub name : String
  pub description : Option String
  pub nsd_id : String
  pub vim_id : String
  pub mea_ids : Option (Dict String)
  pub mgmt_urls : Option (Dict String)
  pub status : Status
  pub error_reason : Option String
  pub created_at : ℕ
  pub updated_at : Option ℕ
  pub deleted_at : Option ℕ

-- class Event
pub record Event : Type 0 where
  pub resource_id : String
  pub resource_type : ResourceType
  pub resource_state : EventState
  pub event_type : EventType
  pub timestamp : ℕ
  pub event_details : String

pub record Tables : Type 0 where
  pub meads : List Mead
  pub service_types : List ServiceType
  pub mead_attributes : List MeadAttribute
  pub meas : List Mea
  pub mea_attributes : List MeaAttribute
  pub vims : List Vim
  pub vim_auths : List VimAuth
  pub nsds : List Nsd
  pub nsd_attributes : List NsdAttribute
  pub nss : List Ns
  pub events : List Event

-- What a session sees, with the number of UUIDs drawn and of readings of the clock so far.
pub record Db : Type 0 where
  pub tables : Tables
  pub open tables use *
  pub uuids : ℕ
  pub ticks : ℕ

-- What the code calls and does not implement: the UUIDs and times that `uuidutils` and `timeutils`
-- give one after another, the event rows that the database server fails to store, and the dict that
-- `strutils` makes of one with a password.
pub record Env : Type 0 where
  pub generate_uuid : ℕ → String
  pub is_uuid_like : String → Bool
  pub utcnow : ℕ → ℕ
  pub refuses : Event → Bool
  -- strutils.mask_dict_password
  pub mask_dict_password : Dict String → Dict String
