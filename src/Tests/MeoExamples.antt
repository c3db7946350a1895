-- ===== src/Tests/MeoExamples.antt =====
-- db/meo on small databases.
use mathlib.Core.List.{Memᴰ}
use apmec.Prelude.{◌≡◌, refl, true, none, some, [], ◌∷◌}
use apmec.Errors.{ok, err, vim_default_duplicate, ns_not_found, duplicate_entity}
use apmec.Exec
use apmec.Table
use apmec.Dict
use apmec.Session
use apmec.Events.{create_event}
use apmec.Db.{Db, Ns, Nsd, datetime_min}
use apmec.Meo.VimRow.{flush_vims, make_vim_dict}
use apmec.Meo.Vim.{VimRequest, create_vim, insert_vim, add_vim}
use apmec.Session.{IsLater}
use apmec.Constants.{active, pending_delete, in_status, res_ns, evt_delete}
use apmec.Meo.NsRow.{make_ns_dict, update_nss}
use apmec.Meo.Ns.{delete_ns, get_ns_db}
use apmec.Meo.Ns.Lock.{delete_ns-once}
use apmec.Meo.Nsd.{NsdRequest, create_nsd}
use apmec.Meo.Nsd.Names.{create_nsd-duplicate}
use apmec.Tests.{test_env, alice, empty_db}

abbrev pub first_vim : VimRequest
first_vim = record {
  id = "#vim";
  type = "openstack";
  tenant_id = "alice";
  name = "site0";
  description = none;
  placement_attr = "";
  is_default = true;
  status = "PENDING";
  auth_url = "http://site0";
  vim_project = "";
  auth_cred = ("password", "secret") ∷ [];
}

abbrev one_vim : Db
one_vim = (create_vim test_env alice first_vim empty_db).1

-- A second default VIM is refused.
refuses_second :
    (create_vim test_env alice (record first_vim { id = "#other"; name = "site1" }) one_vim).0
    ≡ err (vim_default_duplicate "#vim")
unfolding create_vim add_vim insert_vim Session.query Session.write Session.transaction
    Session.utcnow Session.generate_uuid flush_vims make_vim_dict create_event Table.select
    Table.first Dict.lookup Dict.erase Dict.insert Exec.◌>>=◌
refuses_second = refl

abbrev pub service : Ns
service = record {
  id = "#ns";
  tenant_id = "alice";
  name = "chain";
  description = none;
  nsd_id = "#nsd";
  vim_id = "#vim";
  mea_ids = none;
  mgmt_urls = none;
  status = active;
  error_reason = none;
  created_at = 10;
  updated_at = none;
  deleted_at = some datetime_min;
}

abbrev old_nsd : Nsd
old_nsd = record {
  id = "#nsd";
  tenant_id = "alice";
  name = "template";
  description = none;
  meads = "{}";
  template_source = "onboarded";
  created_at = 5;
  updated_at = none;
  deleted_at = some datetime_min;
}

abbrev one_ns : Db
one_ns = record empty_db {
  tables = record empty_db.tables { nss = service ∷ []; nsds = old_nsd ∷ [] };
}

abbrev going : Ns
going = record service { status = pending_delete }

abbrev ns_going : Db
ns_going = record one_ns {
  tables = record one_ns.tables {
    nss = going ∷ [];
    events =
        record {
          resource_id = "#ns";
          resource_type = res_ns;
          resource_state = in_status pending_delete;
          event_type = evt_delete;
          timestamp = 100;
          event_details = "NS delete initiated";
        }
        ∷ [];
  };
  ticks = 1;
}

begins_to_go : delete_ns test_env alice "#ns" one_ns ≡ (ok (make_ns_dict going), ns_going)
unfolding delete_ns get_ns_db Session.query Session.write Session.transaction Session.utcnow
    update_nss create_event Table.select Table.update Exec.◌>>=◌
begins_to_go = refl

delete_ns-once_example :
    delete_ns test_env alice "#ns" ns_going ≡ (err (ns_not_found "#ns"), ns_going)
delete_ns-once_example =
    delete_ns-once test_env alice "#ns" one_ns ns_going (make_ns_dict going) (tt, tt) begins_to_go

abbrev same_template : NsdRequest
same_template = record {
  tenant_id = none;
  name = "template";
  description = none;
  template_source = none;
  attributes = [];
  meads = "{}";
}

create_nsd-duplicate_example :
    ((create_nsd test_env alice same_template one_ns).0 ≡ err (duplicate_entity "nsd"))
    × ((create_nsd test_env alice same_template one_ns).1.tables ≡ one_ns.tables)
create_nsd-duplicate_example =
    create_nsd-duplicate test_env alice same_template one_ns old_nsd "alice" refl (Memᴰ.head refl)
      refl refl refl
