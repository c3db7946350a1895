-- ===== src/Events.antt =====
-- db/common_services/common_services_db_plugin.py: the log of events.
use apmec.Prelude.{ℕ, String, [], ◌∷◌, ◌++◌, if◌then◌else◌}
use apmec.Constants.{ResourceType, EventType, EventState}
use apmec.Errors.{db_error, event_creation_failure}
use apmec.Exec.{Exec, pure, raise, ◌>>◌, rescue}
use apmec.Db.{Db, Env, Event}
use apmec.Session.{transaction, write}

add_event : Env → Event → Exec Db Event
add_event env event =
    if env.refuses event
    then raise db_error
    else do write (λ t. record t { events = t.events ++ (event ∷ []) }); pure event

-- `create_event`, with its `details` always given
unfoldable pub create_event :
    Env → String → ResourceType → EventState → EventType → ℕ → String → Exec Db Event
unfolding add_event
create_event env res_id res_type res_state evt_type tstamp details =
    rescue
      (transaction (
        add_event env (record {
          resource_id = res_id;
          resource_type = res_type;
          resource_state = res_state;
          event_type = evt_type;
          timestamp = tstamp;
          event_details = details;
        })))
      (λ _. raise event_creation_failure)
