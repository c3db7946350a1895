-- ===== src/Errors.antt =====
-- The exceptions that the modelled code raises or lets through: those of common/exceptions.py and
-- extensions/mem.py, the ones of SQLAlchemy and oslo.db, and those of
-- Python itself.
use apmec.Prelude.{String}
use apmec.Attributes.Message.{Message}

pub data Error : Type 0 where
  -- sqlalchemy.orm.exc
  no_result_found multiple_results_found : Error
  -- oslo_db.exception
  db_duplicate_entry db_error : Error
  type_error attribute_error key_error index_error value_error : Error
  -- common/exceptions.py
  admin_required : Error
  invalid_input : Message → Error
  duplicate_entity : String → Error
  -- extensions/mem.py and extensions/common_services.py
  service_types_not_specified : Error
  mead_not_found mead_in_use mea_not_found mea_in_use : String → Error
  event_creation_failure : Error
  -- extensions/meo.py and extensions/meo_plugins/network_service.py
  vim_not_found vim_in_use vim_default_duplicate : String → Error
  nsd_not_found nsd_in_use ns_not_found : String → Error
  vim_default_not_defined : Error
  vim_region_not_found : String → Error
  -- common/exceptions.py: policies and triggers of a MEA
  mea_policy_type_invalid mea_policy_action_invalid alarm_url_invalid : String → Error
  mea_policy_not_found trigger_not_found : String → String → Error
  -- extensions/mem.py
  invalid_infra_driver mea_inactive : String → Error
  -- extensions/common_services.py, and extensions/meo.py: a workflow that would have no task
  input_values_missing : String → Error
  param_yaml_input_missing no_tasks : Error
  -- oslo_policy; webob.exc; BadRequest of common/exceptions.py, by its resource
  policy_not_authorized http_not_found http_bad_request : Error
  bad_request : String → Error
  -- what a driver raises, with its reason: MEACreateWaitFailed, MgmtDriverException, anything else
  mea_create_wait_failed mgmt_driver_exception driver_failed : String → Error

pub data Result {ℓ} (A : Type ℓ) : Type ℓ where
  ok : A → Result A
  err : Error → Result A
