-- ===== src/Attributes/DictKeys.antt =====
-- api/v1/attributes.py: the keys of a dict that is validated.
use apmec.Prelude.{
  ◌≡◌, refl, ap, ◌∙◌, String, true, Option, none, some, List, [], ◌∷◌, arith, ◌==◌, Bool-cases, inl,
  inr,
}
use apmec.Value.{Value, object, Fields, object_end, entry, keys, put, get}
use apmec.Errors.{Result, ok, err}
use apmec.Exec.{Exec, proceed}
use apmec.Attributes.Message.{Message}
use apmec.Attributes.Scalar.{Net}
use apmec.Attributes.Network.{is_key, is_subset, verify_dict_keys}
use apmec.Attributes.Specs.{Spec, Specs, spec, no_specs, key_spec}
use apmec.Attributes.Dicts.{
  converted, value_or_null, back_in, in_object, until_message, required_keys, check_required,
  after_conversion, unless_missing, validate_rule, validate_dict_item, validate_items,
  validate_dict,
}

keys-put :
    (k : String) (v : Value) (f : Fields) → is_key k (keys f) ≡ true → keys (put k v f) ≡ keys f
keys-put k v object_end h = absurd (cc)
keys-put k v (entry j w f) h = elim (Bool-cases (j == k)) [
  | inl hit ↦ rw hit refl
  | inr miss ↦ rw miss (ap (λ ks. j ∷ ks) (keys-put k v f (rw miss at h)))
]

module _ (net : Net) where
  abbrev KeepsKeys : Fields → Result (Option Message) × Fields → Type 0
  KeepsKeys f p = keys p.1 ≡ keys f

  converted-keys :
      (c : Option (Value → Result Value)) (k : String) (f g : Fields)
      → is_key k (keys f) ≡ true
      → converted c k f ≡ ok g
      → keys g ≡ keys f
  converted-keys none k f g h e = cc
  converted-keys (some conv) k f g h e = go (conv (value_or_null (get k f))) refl
    where
      go : (r : Result Value) → conv (value_or_null (get k f)) ≡ r → keys g ≡ keys f
      go (err x) read = absurd (cc (rw (converted, read) at e))
      go (ok v) read =
          let same : put k v f ≡ g = cc (rw (converted, read) at e) in
          rw (← same) (keys-put k v f h)

  item_keys :
      (k : String) (s : Spec) (f : Fields)
      → is_key k (keys f) ≡ true
      → KeepsKeys f (validate_dict_item net k s f)
  unfolding validate_dict_item
  item_keys k (spec c required rule) f h = go (converted c k f) (converted-keys c k f)
    where
      go :
          (r : Result Fields)
          → ((g : Fields) → is_key k (keys f) ≡ true → r ≡ ok g → keys g ≡ keys f)
          → KeepsKeys f (
              after_conversion
                (λ fs. back_in k fs (validate_rule net rule (value_or_null (get k fs))))
                f
                r)
      go (err e) kept = refl
      go (ok g) kept =
          let same = kept g h refl in
          keys-put k (validate_rule net rule (value_or_null (get k g))).1 g (rw same h) ∙ same

  proceed_keys :
      (f : Fields) (m : Exec Fields (Option Message)) (p : Result (Option Message) × Fields)
      → ((g : Fields) → KeepsKeys g (m g))
      → KeepsKeys f p
      → KeepsKeys f (proceed (until_message m) p)
  proceed_keys f m (ok none, g) hm h = hm g ∙ h
  proceed_keys f m (ok (some msg), g) hm h = h
  proceed_keys f m (err e, g) hm h = h

  items_keys : (specs : Specs) (f : Fields) → KeepsKeys f (validate_items net specs f)
  unfolding validate_items
  items_keys no_specs f = refl
  items_keys (key_spec k s rest) f = elim (Bool-cases (is_key k (keys f))) [
    | inl here ↦ rw here (
        proceed_keys f (validate_items net rest) (validate_dict_item net k s f) (items_keys rest)
          (item_keys k s f here))
    | inr absent ↦ rw absent (items_keys rest f)
  ]

  all_there :
      (ks : List String) (f : Fields) → check_required ks f ≡ none → is_subset ks (keys f) ≡ true
  unfolding verify_dict_keys
  all_there [] f h = refl
  all_there (k ∷ ks) f h = ground arith

  -- Whatever `_validate_dict` returns or raises, the dict has the keys that it had, in their order;
  -- and it returns None only where every required key is there.
  validate_dict-keys :
      (specs : Specs) (f : Fields)
      → ((g : Fields) × ((validate_dict net specs (object f)).1 ≡ object g) × (keys g ≡ keys f))
        × ((validate_dict net specs (object f)).0 ≡ ok none
            → is_subset (required_keys specs) (keys f) ≡ true)
  unfolding validate_dict validate_items
  validate_dict-keys specs f = go (check_required (required_keys specs) f) (all_there _ f)
    where
      go :
          (o : Option Message)
          → (o ≡ none → is_subset (required_keys specs) (keys f) ≡ true)
          → ((g : Fields) × ((unless_missing o f (in_object (validate_items net specs f))).1
                ≡ object g)
              × (keys g ≡ keys f))
            × ((unless_missing o f (in_object (validate_items net specs f))).0 ≡ ok none
                → is_subset (required_keys specs) (keys f) ≡ true)
      go (some msg) there = ((f, refl, refl), λ h. absurd (cc))
      go none there = (((validate_items net specs f).1, refl, items_keys specs f), λ _. there refl)
