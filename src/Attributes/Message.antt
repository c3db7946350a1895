-- ===== src/Attributes/Message.antt =====
-- api/v1/attributes.py: the texts that its validators return, one constructor for each template and
-- what is filled into it.
use apmec.Prelude.{ℕ, String, List}
use apmec.Value.{ℤ, Value}

pub data Message : Type 0 where
  not_dictionary_with_keys : Value → List String → Message
  keys_failed : List String → List String → Message
  not_one_of : Value → List Value → Message
  blank : String → Message
  not_string : Value → Message
  too_long : String → ℕ → Message
  not_boolean : Value → Message
  not_integer : Value → Message
  too_small : ℤ → ℤ → Message
  too_large : ℤ → ℤ → Message
  has_whitespace : String → Message
  not_mac_address : Value → Message
  not_ip_address : Value → Message
  bad_ip_pool : Value → Message
  bad_fixed_ip : Value → Message
  duplicate_ip_address : Value → Message
  bad_nameserver : Value → Message
  not_nameserver : Value → Message
  duplicate_nameserver : Value → Message
  bad_hostroute : Value → Message
  duplicate_hostroute : Value → Message
  not_cidr : String → String → Message
  not_subnet : Value → Message
  not_list : Value → Message
  duplicate_items : List String → Message
  not_valid_input : Value → Message
  not_uuid : Value → Message
  no_validator : String → Message
  not_dictionary : Value → Message
  should_be_non_negative : ℤ → Message
  not_convertible_to_boolean : Value → Message
  not_key_value : String → Message
