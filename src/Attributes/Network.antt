-- ===== src/Attributes/Network.antt =====
-- api/v1/attributes.py: the validators of addresses, subnets and UUIDs, and of lists of them.
use apmec.Prelude.{
  String, Bool, true, false, Option, none, some, List, [], ◌∷◌, ◌&&◌, ◌==◌, not, map, any,
  if◌then◌else◌,
}
use Prim.Native.String as S
use apmec.Text.{has_slash}
use apmec.Value.{
  Value, text, array, object, Items, array_end, element, Fields, elements, items_of, keys, get,
  is_in,
}
use apmec.Errors.{Result, ok, err, type_error}
use apmec.Attributes.Message.{
  Message, not_dictionary_with_keys, keys_failed, not_mac_address, not_ip_address, bad_ip_pool,
  bad_fixed_ip, duplicate_ip_address, bad_nameserver, not_nameserver, duplicate_nameserver,
  bad_hostroute, duplicate_hostroute, not_cidr, not_subnet, not_list, duplicate_items,
}
use apmec.Attributes.Scalar.{
  Net, or_check, unless_null, validate_no_whitespace, validate_regex, validate_uuid,
}

-- HOSTNAME_PATTERN
abbrev hostname_pattern : String
hostname_pattern =
    "(?=^.{1,254}$)(^(?:(?!\\d+\\.|-)[a-zA-Z0-9_\\-]{1,63}(?<!-)\\.?)+(?:[a-zA-Z]{2,})$)"

abbrev pub is_key : String → List String → Bool
is_key k ks = any (λ j. j == k) ks

-- a.issubset(b)
abbrev pub is_subset : List String → List String → Bool
is_subset [] ks = true
is_subset (k ∷ rest) ks = is_key k ks && is_subset rest ks

abbrev keys_fit : Bool → List String → List String → Bool
keys_fit true expected provided = is_subset expected provided && is_subset provided expected
keys_fit false expected provided = is_subset expected provided

unfoldable pub verify_dict_keys : List String → Value → Bool → Option Message
verify_dict_keys expected_keys (object target_dict) strict =
    if keys_fit strict expected_keys (keys target_dict)
    then none
    else some (keys_failed expected_keys (keys target_dict))
verify_dict_keys expected_keys target_dict strict =
    some (not_dictionary_with_keys target_dict expected_keys)

-- The check of a key that `verify_dict_keys` has found.
abbrev pub check_key : (Value → Option Message) → String → Value → Option Message
check_key validate k (object d) = elim (get k d) [ none ↦ none | some v ↦ validate v ]
check_key validate k d = none

-- The characters of a text, each as a text of its own.
abbrev characters : String → Items
characters S.[] = array_end
characters (S.◌∷◌ c s) = element (text (S.◌∷◌ c S.[])) (characters s)

-- What `for x in data` runs over, where `data` has the attribute `__iter__`.
abbrev pub iterated : Value → Option Items
iterated (text s) = some (characters s)
iterated (array items) = some items
iterated (object fs) = some (items_of (map text (keys fs)))
iterated _ = none

-- set(data), which needs hashable members
abbrev hashable : Value → Bool
hashable (array _) = false
hashable (object _) = false
hashable _ = true

abbrev all_hashable : List Value → Bool
all_hashable [] = true
all_hashable (v ∷ vs) = hashable v && all_hashable vs

-- len(set(data)) == len(data)
abbrev all_distinct : List Value → Bool
all_distinct [] = true
all_distinct (v ∷ vs) = not (is_in v vs) && all_distinct vs

-- The members that `', '.join` takes: texts, or a TypeError.
abbrev pub texts : List Value → Result (List String)
texts [] = ok []
texts (text s ∷ vs) = elim (texts vs) [ ok ss ↦ ok (s ∷ ss) | err e ↦ err e ]
texts _ = err type_error

module _ (net : Net) where
  abbrev is_mac : Value → Bool
  is_mac datum = elim (validate_no_whitespace datum) [ ok s ↦ net.valid_mac s | err _ ↦ false ]

  -- Whatever is raised counts as no valid address.
  unfoldable pub validate_mac_address : Value → Option Message
  validate_mac_address datum = if is_mac datum then none else some (not_mac_address datum)

  abbrev pub validate_mac_address_or_none : Value → Option Message
  validate_mac_address_or_none = unless_null validate_mac_address

  abbrev is_ip : Value → Bool
  is_ip datum = elim (validate_no_whitespace datum) [ ok s ↦ net.is_ip_address s | err _ ↦ false ]

  unfoldable pub validate_ip_address : Value → Option Message
  validate_ip_address datum = if is_ip datum then none else some (not_ip_address datum)

  abbrev pub validate_ip_address_or_none : Value → Option Message
  validate_ip_address_or_none = unless_null validate_ip_address

  abbrev subnet_of : Value → Result String → Option Message
  subnet_of datum (err _) = some (not_subnet datum)
  subnet_of datum (ok s) =
      if net.is_ip_network s
      then if has_slash s then none else some (not_cidr s (net.cidr s))
      else some (not_subnet datum)

  unfoldable pub validate_subnet : Value → Option Message
  validate_subnet datum = subnet_of datum (validate_no_whitespace datum)

  abbrev pub validate_subnet_or_none : Value → Option Message
  validate_subnet_or_none = unless_null validate_subnet

  abbrev ip_pools_from : Items → Option Message
  ip_pools_from array_end = none
  ip_pools_from (element ip_pool rest) =
      or_check (verify_dict_keys ("start" ∷ "end" ∷ []) ip_pool true) (
        or_check (check_key validate_ip_address "start" ip_pool)
          (or_check (check_key validate_ip_address "end" ip_pool) (ip_pools_from rest)))

  unfoldable pub validate_ip_pools : Value → Option Message
  validate_ip_pools (array pools) = ip_pools_from pools
  validate_ip_pools datum = some (bad_ip_pool datum)

  abbrev pub check_address : List Value → Value → Option Message
  check_address ips address =
      if is_in address ips then some (duplicate_ip_address address) else validate_ip_address address

  -- The check of a fixed IP, of its `ip_address`; `later` checks the rest beside the addresses so far.
  abbrev pub fixed_ip_checks :
      List Value → Fields → (List Value → Option Message) → Option Value → Option Message
  fixed_ip_checks ips fixed_ip later none =
      or_check (check_key (validate_uuid net) "subnet_id" (object fixed_ip)) (later ips)
  fixed_ip_checks ips fixed_ip later (some address) = or_check (check_address ips address) (
      or_check (check_key (validate_uuid net) "subnet_id" (object fixed_ip))
        (later (address ∷ ips)))

  -- `ips` are the addresses so far, the last one first.
  unfoldable pub fixed_ips_from : List Value → Items → Option Message
  fixed_ips_from ips array_end = none
  fixed_ips_from ips (element (object fixed_ip) rest) =
      fixed_ip_checks ips fixed_ip (λ seen. fixed_ips_from seen rest) (get "ip_address" fixed_ip)
  fixed_ips_from ips (element fixed_ip rest) = some (bad_fixed_ip fixed_ip)

  unfoldable pub validate_fixed_ips : Value → Option Message
  unfolding fixed_ips_from
  validate_fixed_ips (array fixed_ips) = fixed_ips_from [] fixed_ips
  validate_fixed_ips datum = some (bad_fixed_ip datum)

  -- An address, or else a hostname.
  abbrev check_nameserver : Value → Option Message
  check_nameserver ip = elim (validate_ip_address ip) [
    | none ↦ none
    | some _ ↦ elim (validate_regex net hostname_pattern ip) [
      | none ↦ none
      | some _ ↦ some (not_nameserver ip)
    ]
  ]

  unfoldable nameservers_from : List Value → Items → Option Message
  nameservers_from ips array_end = none
  nameservers_from ips (element ip rest) =
      or_check (check_nameserver ip)
        (if is_in ip ips then some (duplicate_nameserver ip) else nameservers_from (ip ∷ ips) rest)

  unfoldable pub validate_nameservers : Value → Option Message
  unfolding nameservers_from
  validate_nameservers datum = elim (iterated datum) [
    | none ↦ some (bad_nameserver datum)
    | some ips ↦ nameservers_from [] ips
  ]

  unfoldable hostroutes_from : List Value → Items → Option Message
  hostroutes_from hostroutes array_end = none
  hostroutes_from hostroutes (element hostroute rest) =
      or_check (verify_dict_keys ("destination" ∷ "nexthop" ∷ []) hostroute true) (
        or_check (check_key validate_subnet "destination" hostroute) (
          or_check (check_key validate_ip_address "nexthop" hostroute) (
            if is_in hostroute hostroutes
            then some (duplicate_hostroute hostroute)
            else hostroutes_from (hostroute ∷ hostroutes) rest)))

  unfoldable pub validate_hostroutes : Value → Option Message
  unfolding hostroutes_from
  validate_hostroutes (array hostroutes) = hostroutes_from [] hostroutes
  validate_hostroutes datum = some (bad_hostroute datum)

  abbrev check_items : (Value → Option Message) → Items → Option Message
  check_items validate array_end = none
  check_items validate (element v rest) = or_check (validate v) (check_items validate rest)

  abbrev duplicates : List Value → Result (Option Message)
  duplicates vs = elim (texts vs) [ ok ss ↦ ok (some (duplicate_items ss)) | err e ↦ err e ]

  abbrev subnet_list : Items → Result (Option Message)
  subnet_list items =
      if not (all_hashable (elements items))
      then err type_error
      else if not (all_distinct (elements items))
      then duplicates (elements items)
      else ok (check_items validate_subnet items)

  unfoldable pub validate_subnet_list : Value → Result (Option Message)
  validate_subnet_list (array items) = subnet_list items
  validate_subnet_list datum = ok (some (not_list datum))

  abbrev uuid_list : Items → Result (Option Message)
  uuid_list items = elim (check_items (validate_uuid net) items) [
    | some msg ↦ ok (some msg)
    | none ↦ if all_distinct (elements items) then ok none else duplicates (elements items)
  ]

  unfoldable pub validate_uuid_list : Value → Result (Option Message)
  validate_uuid_list (array items) = uuid_list items
  validate_uuid_list datum = ok (some (not_list datum))
