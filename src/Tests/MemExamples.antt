-- ===== src/Tests/MemExamples.antt =====
-- db/mem/mem_db.py on small databases.
use mathlib.Core.List.{Memᴰ}
use apmec.Prelude.{
  String, ◌≡◌, ◌≢◌, refl, true, false, none, some, List, [], ◌∷◌, All, ◌==◌, eq_iff, arith,
}
use apmec.Constants.{res_mea, evt_update, in_status, active, error, pending_update}
use apmec.Errors.{ok, err, mea_in_use, mea_not_found, event_creation_failure}
use apmec.Exec
use apmec.Table
use apmec.Table.Evolves.{Evolves}
use apmec.Dict
use apmec.Db.{Db, Mea}
use apmec.Session
use apmec.Events.{create_event}
use apmec.Mem.MeadRow.{make_mead_dict, flush_meads}
use apmec.Mem.Mead.{get_mead_resource, update_mead, delete_mead}
use apmec.Mem.MeaRow.{MeaDict, mea_dict, flush_meas, update_meas, make_mea_dict}
use apmec.Mem.Change.{mea_change, MeaIds}
use apmec.Mem.Mea.Update.{get_mea_db, update_mea_pre}
use apmec.Mem.Mea.Delete.{delete_mea_pre}
use apmec.Mem.Mea.Rules.{
  MeaOp, update_pre_op, mark_op, delete_pre_op, run_op, rule_of, update_mead_op,
}
use apmec.Mem.Mea.Every.{run_op-Evolves}
use apmec.Mem.Mea.Lock.{update_pre-excludes}
use apmec.Mem.Mea.Atomic.{run_op-atomic, update_mead_atomic}
use apmec.Mem.Mead.Guard.{delete_mead-unguarded, delete_unguarded}
use apmec.Mem.History.{Request, serve, serve-deleted, serve-foreign}
use apmec.Mem.Mea.Gone.{delete_mea-get_mea}
use apmec.Mem.Mea.Reference.{delete_mea, get_mea}
use apmec.Mem.Mea.Delete.{delete_mea_post, soft_delete_mea}
use apmec.Mem.Collections.{get_collection, get_meas}
use apmec.Mem.Collections.Own.{get_meas-own}
use apmec.Tests.{
  test_env-IsLater, test_env, full_env, alice, bob, firewall, running, removed, two_meas,
}

differ : (a b : String) → (a == b) ≡ false → a ≢ b
differ a b h p = ground (arith, eq_iff a b)

pub two_meas_ids : MeaIds two_meas.tables
two_meas_ids = ((differ "#old" "#mea" refl, tt), (tt, tt))

abbrev locked_row : Mea
locked_row = record running { status = pending_update }

abbrev locked : Db
locked = record two_meas {
  tables = record two_meas.tables {
    meas = locked_row ∷ removed ∷ [];
    events =
        record {
          resource_id = "#mea";
          resource_type = res_mea;
          resource_state = in_status pending_update;
          event_type = evt_update;
          timestamp = 100;
          event_details = "";
        }
        ∷ [];
  };
  ticks = 1;
}

abbrev gate_dict : MeaDict
gate_dict = mea_dict locked_row locked.tables firewall

locks_gate : update_mea_pre test_env alice "#mea" two_meas ≡ (ok gate_dict, locked)
unfolding update_mea_pre Session.transaction get_mea_db Session.query Session.write Session.utcnow
    update_meas make_mea_dict create_event Table.select Table.update Table.first Dict.update
    Dict.insert Exec.◌>>=◌
locks_gate = refl

update_pre-excludes_example :
    (update_mea_pre test_env alice "#mea" locked ≡ (err (mea_in_use "#mea"), locked))
    × (delete_mea_pre test_env alice "#mea" locked ≡ (err (mea_in_use "#mea"), locked))
update_pre-excludes_example =
    update_pre-excludes test_env alice "#mea" two_meas locked gate_dict two_meas_ids locks_gate

run_op-Evolves_example :
    MeaIds (run_op test_env bob (mark_op "#mea" (active ∷ []) error) two_meas).1.tables
    × Evolves
        (mea_change (rule_of bob (mark_op "#mea" (active ∷ []) error)))
        two_meas.meas
        (run_op test_env bob (mark_op "#mea" (active ∷ []) error) two_meas).1.meas
run_op-Evolves_example =
    run_op-Evolves test_env bob (mark_op "#mea" (active ∷ []) error) two_meas two_meas_ids

abbrev rename : MeaOp
rename = update_mead_op "#mead" (record { name = some "wall"; description = none })

fails_full : (run_op full_env alice rename two_meas).0 ≡ err event_creation_failure
unfolding run_op update_mead Session.transaction Session.query Session.write Session.utcnow
    flush_meads get_mead_resource make_mead_dict create_event Table.select Table.update Dict.update
    Exec.◌>>=◌
fails_full = refl

run_op-atomic_example : (run_op full_env alice rename two_meas).1.tables ≡ two_meas.tables
run_op-atomic_example =
    run_op-atomic full_env alice two_meas event_creation_failure
      (update_mead_atomic "#mead" (record { name = some "wall"; description = none })) fails_full

abbrev some_requests : List Request
some_requests =
    record { context = bob; op = delete_pre_op "#mea" }
    ∷ record { context = bob; op = update_pre_op "#old" }
    ∷ []

serve-deleted_example : Memᴰ removed (serve test_env two_meas some_requests).meas
serve-deleted_example =
    serve-deleted test_env two_meas some_requests removed two_meas_ids refl
      (Memᴰ.tail (Memᴰ.head refl))

serve-foreign_example : Memᴰ running (serve test_env two_meas some_requests).meas
serve-foreign_example =
    serve-foreign test_env two_meas some_requests running two_meas_ids
      ((refl, differ "bob" "alice" refl), ((refl, differ "bob" "alice" refl), tt)) (Memᴰ.head refl)

delete_mead-unguarded_example :
    delete_mead test_env alice "#mead" true (serve test_env two_meas some_requests)
    ≡ delete_unguarded test_env alice "#mead" true (serve test_env two_meas some_requests)
delete_mead-unguarded_example =
    delete_mead-unguarded test_env two_meas some_requests two_meas_ids (refl, (refl, tt)) alice
      "#mead" true

abbrev gate_gone : Db
gate_gone = (delete_mea test_env alice "#mea" true two_meas).1

deletes_gate : delete_mea test_env alice "#mea" true two_meas ≡ (ok tt, gate_gone)
unfolding delete_mea delete_mea_pre delete_mea_post soft_delete_mea Session.transaction get_mea_db
    Session.query Session.write Session.utcnow update_meas flush_meas make_mea_dict create_event
    Table.select Table.update Table.first Dict.update Dict.insert Exec.◌>>=◌
deletes_gate = refl

delete_mea-get_mea_example :
    get_mea test_env alice "#mea" gate_gone ≡ (err (mea_not_found "#mea"), gate_gone)
delete_mea-get_mea_example =
    delete_mea-get_mea test_env alice "#mea" two_meas gate_gone test_env-IsLater refl deletes_gate

reads_gate :
    get_meas alice (("status", "ACTIVE" ∷ "DEAD" ∷ []) ∷ []) two_meas
    ≡ (ok (mea_dict running two_meas.tables firewall ∷ []), two_meas)
unfolding get_meas get_collection Session.query Table.select Table.first Dict.update Dict.insert
reads_gate = refl

get_meas-own_example :
    All (λ (d : MeaDict). d.tenant_id ≡ "alice") (mea_dict running two_meas.tables firewall ∷ [])
    × (two_meas ≡ two_meas)
get_meas-own_example =
    get_meas-own alice (("status", "ACTIVE" ∷ "DEAD" ∷ []) ∷ []) two_meas two_meas
      (mea_dict running two_meas.tables firewall ∷ []) refl reads_gate
