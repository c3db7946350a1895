-- ===== src/Attributes/Scalar.antt =====
-- api/v1/attributes.py: the validators of single values, which return a message or None.
use apmec.Prelude.{ℕ, String, Bool, Option, none, some, List, ◌==◌, length, ltb, if◌then◌else◌}
use apmec.Text.{codes, strip, word_count}
use apmec.Value.{ℤ, pos, int_lt, Value, null, text, is_in}
use apmec.Errors.{Result, ok, err, attribute_error, invalid_input}
use apmec.Attributes.Message.{
  Message, not_one_of, blank, not_string, too_long, not_boolean, not_integer, too_small, too_large,
  has_whitespace, not_valid_input, not_uuid, should_be_non_negative,
}
use apmec.Attributes.Convert.{int_of, convert_to_boolean}

-- What the validators ask of netaddr, uuidutils and the regular expressions.
pub record Net : Type 0 where
  pub valid_mac : String → Bool
  pub is_ip_address : String → Bool
  pub is_ip_network : String → Bool
  pub cidr : String → String
  pub is_uuid_like : String → Bool
  -- re.match(pattern, data)
  pub matches : String → String → Bool

-- `if msg: return msg`, and then the rest of the checks
abbrev pub or_check : Option Message → Option Message → Option Message
or_check (some msg) rest = some msg
or_check none rest = rest

-- The validators `…_or_none`.
abbrev pub unless_null : (Value → Option Message) → Value → Option Message
unless_null validate null = none
unless_null validate datum = validate datum

unfoldable pub validate_values : List Value → Value → Option Message
validate_values valid_values datum =
    if is_in datum valid_values then none else some (not_one_of datum valid_values)

abbrev exceeds : String → Option ℕ → Option Message
exceeds datum none = none
exceeds datum (some max_len) =
    if ltb max_len (length (codes datum)) then some (too_long datum max_len) else none

unfoldable pub validate_string : Option ℕ → Value → Option Message
validate_string max_len (text datum) = exceeds datum max_len
validate_string max_len datum = some (not_string datum)

abbrev pub validate_string_or_none : Option ℕ → Value → Option Message
validate_string_or_none max_len = unless_null (validate_string max_len)

abbrev is_blank : Value → Option Message
is_blank (text datum) = if strip datum == "" then some (blank datum) else none
is_blank datum = none

unfoldable pub validate_not_empty_string : Option ℕ → Value → Option Message
unfolding validate_string
validate_not_empty_string max_len datum = elim (validate_string max_len datum) [
  | some msg ↦ some msg
  | none ↦ is_blank datum
]

abbrev pub validate_not_empty_string_or_none : Option ℕ → Value → Option Message
validate_not_empty_string_or_none max_len = unless_null (validate_not_empty_string max_len)

abbrev pub unless_raised : Value → Result Value → Option Message
unless_raised datum (ok _) = none
unless_raised datum (err _) = some (not_boolean datum)

unfoldable pub validate_boolean : Value → Option Message
validate_boolean datum = unless_raised datum (convert_to_boolean datum)

-- An absent bound is UNLIMITED.
abbrev pub below : Option ℤ → ℤ → Option Message
below none n = none
below (some limit) n = if int_lt n limit then some (too_small n limit) else none

abbrev pub above : Option ℤ → ℤ → Option Message
above none n = none
above (some limit) n = if int_lt limit n then some (too_large n limit) else none

abbrev pub in_range : Option ℤ → Option ℤ → Value → Option ℤ → Option Message
in_range min_value max_value datum none = some (not_integer datum)
in_range min_value max_value datum (some n) = or_check (below min_value n) (above max_value n)

unfoldable pub validate_range : Option ℤ → Option ℤ → Value → Option Message
validate_range min_value max_value datum = in_range min_value max_value datum (int_of datum)

unfoldable pub validate_non_negative : Value → Option Message
validate_non_negative datum = elim (int_of datum) [
  | none ↦ some (not_integer datum)
  | some n ↦ if int_lt n (pos 0) then some (should_be_non_negative n) else none
]

-- `None.split` and the like raise AttributeError.
unfoldable pub validate_no_whitespace : Value → Result String
validate_no_whitespace (text datum) =
    if ltb 1 (word_count datum) then err (invalid_input (has_whitespace datum)) else ok datum
validate_no_whitespace datum = err attribute_error

module _ (net : Net) where
  -- The TypeError of a value that is no text counts as no match.
  unfoldable pub validate_regex : String → Value → Option Message
  validate_regex pattern (text datum) =
      if net.matches pattern datum then none else some (not_valid_input (text datum))
  validate_regex pattern datum = some (not_valid_input datum)

  abbrev pub validate_regex_or_none : String → Value → Option Message
  validate_regex_or_none pattern = unless_null (validate_regex pattern)

  unfoldable pub validate_uuid : Value → Option Message
  validate_uuid (text datum) = if net.is_uuid_like datum then none else some (not_uuid (text datum))
  validate_uuid datum = some (not_uuid datum)

  abbrev pub validate_uuid_or_none : Value → Option Message
  validate_uuid_or_none = unless_null validate_uuid
