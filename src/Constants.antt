-- ===== src/Constants.antt =====
-- plugins/common/constants.py: the statuses of a service, as the values of the `status` columns,
-- and the names that events are written with.
use apmec.Prelude.{ℕ, Bool, String, List, nat_eq, any}

-- `Status` has the ten operation statuses of the module. The database stores their names.
pub data Status : Type 0 where
  active down : Status
  pending_create pending_update pending_delete pending_scale_in pending_scale_out : Status
  inactive dead error : Status

abbrev rank : Status → ℕ
rank active = 0
rank down = 1
rank pending_create = 2
rank pending_update = 3
rank pending_delete = 4
rank pending_scale_in = 5
rank pending_scale_out = 6
rank inactive = 7
rank dead = 8
rank error = 9

-- `a == b` on two of the names, which are all different.
abbrev pub status_eq : Status → Status → Bool
status_eq a b = nat_eq (rank a) (rank b)

-- `status in statuses`
abbrev pub in_statuses : List Status → Status → Bool
in_statuses statuses s = any (status_eq s) statuses

abbrev pub status_name : Status → String
status_name active = "ACTIVE"
status_name down = "DOWN"
status_name pending_create = "PENDING_CREATE"
status_name pending_update = "PENDING_UPDATE"
status_name pending_delete = "PENDING_DELETE"
status_name pending_scale_in = "PENDING_SCALE_IN"
status_name pending_scale_out = "PENDING_SCALE_OUT"
status_name inactive = "INACTIVE"
status_name dead = "DEAD"
status_name error = "ERROR"

-- RES_TYPE_*
pub data ResourceType : Type 0 where
  res_mead res_nsd res_ns res_mea res_vim : ResourceType

-- RES_EVT_CREATE, RES_EVT_DELETE, RES_EVT_UPDATE, RES_EVT_MONITOR, RES_EVT_SCALE
pub data EventType : Type 0 where
  evt_create evt_delete evt_update evt_monitor evt_scale : EventType

-- The `res_state` of an event: a status, RES_EVT_NA_STATE or RES_EVT_ONBOARDED.
pub data EventState : Type 0 where
  in_status : Status → EventState
  -- the status of a VIM, any text
  in_vim_status : String → EventState
  na_state onboarded : EventState
