-- ===== src/Lib.antt =====
-- apmec manages the life of mobile edge applications (MEAs), which are made from descriptors
-- (MEADs) on virtual infrastructure (VIMs). A REST server checks and converts each request
-- (api/v1), a plugin acts on it, and a database layer keeps the rows and the statuses. This
-- library models the controllers of the API with the policies that they ask, the preparation
-- of a request's body, the checks of its attributes, the plugin of MEAs with its monitor and
-- policy actions, and the database layer of MEADs, MEAs, VIMs, NSDs and network services, with
-- what they stand on.
--
-- - apmec/plugins/common/constants.py: Constants. The statuses are a data type, since the
--   columns hold no other value.
-- - apmec/db/db_base.py and SQLAlchemy's sessions: Table (queries on a list of rows), Db (the
--   tables, as one record), Session (transactions, `_model_query`, `_get_by_id`,
--   `_get_by_name`).
-- - apmec/db/common_services/common_services_db_plugin.py: Events (`create_event`).
-- - apmec/db/mem/mem_db.py: Mem. Mem.MeadRow and Mem.MeaRow have the rows, the unique keys and
--   the dicts; Mem.Mead the operations on MEADs; Mem.Mea.Create, Update, Delete and Mark the
--   database steps of a MEA's life; Mem.Mea.Reference the operations that run those steps in a
--   row; Mem.Collections the reads with filters.
-- - apmec/db/meo/meo_db_plugin.py and apmec/db/meo/meo_db.py: Meo.VimRow and Meo.Vim.
--   apmec/db/meo/ns_db.py: Meo.NsRow, Meo.Nsd and Meo.Ns; a network service keeps the dicts of
--   its MEAs as dicts, where the code stores their texts, and `ast.literal_eval` is an
--   argument.
--
-- - apmec/api/v1/attributes.py: Attributes, over the values of Value and the texts of Text.
--   Attributes.Scalar, Network and Dicts have the validators, Attributes.Convert the
--   converters, Attributes.Specs the table of the validators, and Attributes.Message their
--   texts as data.
-- - apmec/api/v1/base.py: Request (`prepare_request_body` from `_populate_tenant_id` on),
--   Api.Body (the whole of it, for a body that is a dict whose resource is a dict and whose
--   collection is a list of dicts) and Api.Controller: the handlers that read, delete and act,
--   the creation of several objects one by one, in Api.Controller.Write `create` and `update`,
--   in Api.Controller.Index `index`. The plugin is an interface there; Api.Served has its
--   state and the notifications that were sent. A map of attributes and the dict of a request
--   are association lists; ATTR_NOT_SPECIFIED is a value beside those of JSON.
-- - apmec/policy.py: Api.Policy (`check` and `enforce` with the rule that they build; the
--   engine of oslo.policy is the record Enforcer, and its context stands for the credentials).
-- - apmec/api/api_common.py: Api.Paging (limits, markers, emulated pages and their links,
--   which are their marker and direction) and Api.Controller.Index (filters). What webob reads
--   from a URL is the record Query.
-- - apmec/api/extensions.py: Extensions (`extend_resources`; the methods of an extension are
--   what they return, and the map that they update is a function).
-- - apmec/common/utils.py: Utils (`deep_update`, on JSON values; the merge in place is the
--   dict that comes out of it).
--
-- - apmec/mem/monitor.py: Monitor (the hosting MEAs: a dict from ids to numbers of objects,
--   since a loop may hold an object that the dict has lost) and Mec.Rounds (one pass of the
--   thread).
-- - apmec/mem/plugin.py and apmec/mem/vim_client.py: Mec, over the operations of Mem.
--   Mec.World has the state, the spawned functions as data, and the record Drivers of what the
--   plugin calls; Mec.VimClient finds the VIM of a MEA; Mec.Create, Update and Delete are the
--   three operations with the functions that they spawn; Mec.Policies, Scaling, Alarms and
--   Triggers act on the policies of a MEA's template; Mec.Calls runs calls, passes and spawned
--   functions in any order.
-- - apmec/mem/policy_actions: Mec.Actions.
-- - apmec/meo/meo_plugin.py: Meo.Register (the VIMs, between the drivers that register them
--   and the operations of Meo.Vim), Meo.Params (the inputs of a network service) and
--   Meo.Workflow (a network service from the making of its workflow on, and the functions that
--   wait for the workflow). The state of Meo.Workflow is that of Mec.World with the functions
--   that this plugin has spawned.
--
-- In the plugin a placement stays the text that the column holds, the reads of it are fields
-- of Drivers, and `_get_infra_driver` gives the MEA back with what it has written into it. A
-- driver gets the dict of the MEA and may change it; it gets a number too, so that two like
-- calls may end differently. The clock of the drivers, sleeps and the log are left out. An
-- operation or a spawned function runs to its end before the next, where the code's green
-- threads may change places at a call of a driver. A dict is iterated over as under Python
-- 2.7, where `items` and `values` are lists. `create_mea` is modelled after an inline template
-- has got its MEAD, and it and `update_mea` after the dicts of attributes are texts.
--
-- A validator returns a message or None; one that converts the dict in place returns the dict
-- too. Values are those of JSON without fractional numbers; `int` and `lower` are modelled for
-- ASCII. What netaddr, uuidutils and the engine of regular expressions say is the record Net.
--
-- A method that changes the database is a function from the state to a result and a state
-- (Exec): a raise is a value, and what was written before it stays written unless a
-- transaction drops it. A transaction that raises puts all tables back and keeps the UUIDs and
-- the readings of the clock that were used. Rows come back from a query in the order of their
-- insertion. What the code calls and does not implement is the record Env: the UUIDs, the
-- clock, the test `is_uuid_like`, which events the server refuses to store, and what
-- `mask_dict_password` returns. A timestamp is a natural number, and `datetime.min` is 0.
--
-- The proofs about histories rest on Session.Moves, rules by which a do block changes the
-- tables within a preorder, and on Table.Evolves, the order of tables whose rows step, are
-- born at the end or go. Mem.Change says what a rule on MEAs is, Mem.Mea.Rules gives every
-- operation its rule, and Mem.History runs any operations of any sessions one after another.
-- Mec.Moves lifts the rules to the plugin, and Exec.Triple has rules for what holds where a
-- method returns.
--
-- The loops run over lists, but for the wait for a workflow, which runs over its 30 retries,
-- and the loop of `extend_resources`, which has the number of extensions and one as its fuel.
--
-- Not modelled: logging; the choice of fields of a dict; the query hooks of `_model_query`, of
-- which the program registers none; the types of columns, NOT NULL and foreign keys; two
-- transactions at a time (the code locks the row with `with_lockmode`, and a history is a
-- sequence). Unique keys are checked where a row is inserted, renamed or softly deleted. Those
-- of nsd and ns are the keys that the migration e7993093baf1 leaves, where the models have no
-- `deleted_at` in them. The filters of a collection on the times and the placement of a MEA;
-- the keys of a bulk request's item beside that of the resource; that the operation on the
-- database takes the password out of the credentials with which `create_vim` of the plugin
-- calls `delete_vim_auth`; and the quoting of an alarm's URL, which alarm_receiver.py
-- unquotes. Controllers of a resource with a parent, sorting and native pages; the checks that
-- policy.py registers with the engine. The dict of MEADs and the parameters that create_ns
-- builds for its workflow; create_nsd of the plugin, and create_mead of the MEC plugin, which
-- rest on toscaparser, and the read of a MEA's resources; the HTTP server, the drivers and the
-- OpenStack clients.
mod Prelude
pub mod Constants
pub mod Table
pub mod Errors
pub mod Exec
pub mod Db
pub mod Session
pub mod Dict
pub mod Events
pub mod Mem
pub mod Meo
pub mod Value
pub mod Text
pub mod Utils
pub mod Request
pub mod Extensions
pub mod Monitor
pub mod Mec
pub mod Api
pub mod Attributes
pub mod Tests
