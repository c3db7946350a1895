-- ===== src/Meo/Params/Filled.antt =====
-- meo/meo_plugin.py: after `_process_parameterized_input` no input is left in the nodes' dicts.
use apmec.Prelude.{
  String, ◌≡◌, refl, ap, Bool, true, false, Option, none, some, ◌∷◌, not, ◌||◌, ◌&&◌, ◌==◌,
  if◌then◌else◌, arith, Bool-cases, inl, inr, eq_iff,
}
use apmec.Errors.{Result, ok, err}
use apmec.Value.{
  Value, text, object, array, integer, boolean, null, Fields, object_end, entry, keys, get,
  is_truthy,
}
use apmec.Attributes.Network.{is_key}
use apmec.Meo.Params.{
  names_input, mentions, mentions_in, or_missing, input_value, as_object, and_entry, update_params,
  update_value, nsd_params, updated_node, update_nodes, process_parameterized_input,
}

-- No dict that keys lead to has the key `get_input`; what is in lists does not count.
unfoldable mutual
  is_filled : Value → Bool
  is_filled (object f) = not (is_key "get_input" (keys f)) && are_filled f
  is_filled _ = true

  pub are_filled : Fields → Bool
  are_filled object_end = true
  are_filled (entry key v f) = is_filled v && are_filled f

both : (a b : Bool) → a ≡ true → b ≡ true → (a && b) ≡ true
both a b h k = ground (arith, h, k)

and_parts : (a b : Bool) → (a && b) ≡ true → (a ≡ true) × (b ≡ true)
and_parts true true h = (refl, refl)
and_parts true false h = cc
and_parts false b h = cc

neither : (a b c : Bool) → (a || (b || c)) ≡ false → (a ≡ false) × (b ≡ false) × (c ≡ false)
neither false false false h = (refl, refl, refl)
neither true b c h = cc
neither false true c h = cc
neither false false true h = cc

names_own : (key : String) → names_input key ≡ false → (key == "get_input") ≡ false
names_own key h = elim (Bool-cases (key == "get_input")) [
  | inl same ↦ absurd (cc (h, ap names_input ((eq_iff key "get_input").0 same)))
  | inr other ↦ other
]

-- What does not mention an input is filled.
unmentioned_keys : (f : Fields) → mentions_in f ≡ false → is_key "get_input" (keys f) ≡ false
unfolding mentions_in
unmentioned_keys object_end h = refl
unmentioned_keys (entry key v f) h =
    let (own, _, later) = neither (names_input key) (mentions v) (mentions_in f) h in
    rw (names_own key own) (unmentioned_keys f later)

mutual
  unfolding mentions is_filled

  unmentioned : (v : Value) → mentions v ≡ false → is_filled v ≡ true
  unmentioned (object f) h = ground (arith, unmentioned_keys f h, unmentioned_in f h)
  unmentioned (text s) h = refl
  unmentioned (integer n) h = refl
  unmentioned (boolean b) h = refl
  unmentioned (array vs) h = refl
  unmentioned null h = refl

  unmentioned_in : (f : Fields) → mentions_in f ≡ false → are_filled f ≡ true
  unmentioned_in object_end h = refl
  unmentioned_in (entry key v f) h =
      let (_, here, later) = neither (names_input key) (mentions v) (mentions_in f) h in
      both _ _ (unmentioned v here) (unmentioned_in f later)

get-filled :
    (k : String) (f : Fields) (v : Value)
    → are_filled f ≡ true
    → get k f ≡ some v
    → is_filled v ≡ true
unfolding are_filled
get-filled k object_end v h e = cc
get-filled k (entry j w f) v h e =
    let (here, later) = and_parts (is_filled w) (are_filled f) h in
    elim (Bool-cases (j == k)) [
      | inl same ↦ let same_value : w ≡ v = cc (rw same at e) in rw (← same_value) here
      | inr other ↦ get-filled k f v later (rw other at e)
    ]

ok_value : {A : Type 0} {a b : A} → Path (Result A) (ok a) (ok b) → a ≡ b
ok_value e = cc

-- What the updates of one entry and of the rest give.
entry_parts :
    (key : String) (here : Result Value) (rest : Result Fields) (g : Fields)
    → and_entry key here rest ≡ ok g
    → (v : Value) × (f : Fields) × (here ≡ ok v) × (rest ≡ ok f) × (g ≡ entry key v f)
entry_parts key (ok v) (ok f) g h = (v, f, refl, refl, cc)
entry_parts key (ok v) (err e) g h = cc
entry_parts key (err e) rest g h = cc

object_part :
    (r : Result Fields) (v : Value)
    → as_object r ≡ ok v
    → (f : Fields) × (r ≡ ok f) × (v ≡ object f)
object_part (ok f) v h = (f, refl, cc)
object_part (err e) v h = cc

module _ (params : Fields) where
  update_params-keys : (f g : Fields) → update_params params f ≡ ok g → keys g ≡ keys f
  unfolding update_params
  update_params-keys object_end g h = cc
  update_params-keys (entry key v f) g h =
      let (v', f', here, rest, same) =
        entry_parts key (update_value params key v) (update_params params f) g h in
      rw same (ap (λ ks. key ∷ ks) (update_params-keys f f' rest))

  found-filled :
      (key k : String) (v : Value)
      → are_filled params ≡ true
      → (o : Option Value) → get k params ≡ o
      → or_missing key o ≡ ok v
      → is_filled v ≡ true
  found-filled key k v h none e m = cc
  found-filled key k v h (some w) e m = rw (← (ok_value m)) (get-filled k params w h e)

  input_value-filled :
      (key : String) (input v : Value)
      → are_filled params ≡ true
      → input_value params key input ≡ ok v
      → is_filled v ≡ true
  input_value-filled key (text k) v h e = found-filled key k v h (get k params) refl e
  input_value-filled key (object _) v h e = cc
  input_value-filled key (array _) v h e = cc
  input_value-filled key _ v h e = cc

  is_key-get : (f : Fields) → get "get_input" f ≡ none → is_key "get_input" (keys f) ≡ false
  is_key-get object_end h = refl
  is_key-get (entry key v f) h = elim (Bool-cases (key == "get_input")) [
    | inl same ↦ absurd (cc (rw same at h))
    | inr other ↦ rw other (is_key-get f (rw other at h))
  ]

  -- a dict that mentions an input, by what it has under `get_input`
  updated-filled :
      (key : String) (f : Fields) (v : Value)
      → are_filled params ≡ true
      → ((g : Fields) → update_params params f ≡ ok g → are_filled g ≡ true)
      → (o : Option Value) → get "get_input" f ≡ o
      → (elim o [
        | some input ↦ input_value params key input
        | none ↦ as_object (update_params params f)
      ])
        ≡ ok v
      → is_filled v ≡ true
  unfolding is_filled
  updated-filled key f v h inner (some input) e r = input_value-filled key input v h r
  updated-filled key f v h inner none e r =
      let (g, done, same) = object_part (update_params params f) v r in
      rw (same, update_params-keys f g done, is_key-get f e) (inner g done)

  mutual
    unfolding update_params is_filled mentions

    update_params-filled :
        (f g : Fields)
        → are_filled params ≡ true
        → update_params params f ≡ ok g
        → are_filled g ≡ true
    update_params-filled object_end g h e = rw (← (ok_value e)) refl
    update_params-filled (entry key v f) g h e =
        let (v', f', here, rest, same) =
          entry_parts key (update_value params key v) (update_params params f) g e in
        rw same (both _ _ (update_value-filled key v v' h here) (update_params-filled f f' h rest))

    update_value-filled :
        (key : String) (v v' : Value)
        → are_filled params ≡ true
        → update_value params key v ≡ ok v'
        → is_filled v' ≡ true
    update_value-filled key (object f) v' h e = elim (Bool-cases (mentions_in f)) [
      | inl there ↦
          updated-filled key f v' h (λ g r. update_params-filled f g h r) (get "get_input" f) refl
            (rw there at e)
      | inr none_there ↦ rw (← (ok_value (rw none_there at e))) (unmentioned (object f) none_there)
    ]
    update_value-filled key (text s) v' h e = rw (← (ok_value e)) refl
    update_value-filled key (integer s) v' h e = rw (← (ok_value e)) refl
    update_value-filled key (boolean s) v' h e = rw (← (ok_value e)) refl
    update_value-filled key (array s) v' h e = rw (← (ok_value e)) refl
    update_value-filled key null v' h e = rw (← (ok_value e)) refl

-- The dict of a node has the key `get_input` only where the node had it before.
node-filled :
    (params node : Fields) (v : Value)
    → are_filled params ≡ true
    → is_key "get_input" (keys node) ≡ false
    → as_object (update_params params node) ≡ ok v
    → is_filled v ≡ true
unfolding is_filled
node-filled params node v h own e =
    let (g, done, same) = object_part (update_params params node) v e in
    rw (same, update_params-keys params node g done, own)
      (update_params-filled params node g h done)

abbrev own_key : Value → Bool
own_key (object f) = is_key "get_input" (keys f)
own_key _ = false

-- No node has the key itself.
abbrev no_own_keys : Fields → Bool
no_own_keys object_end = true
no_own_keys (entry name node rest) = not (own_key node) && no_own_keys rest

module _ (params : Fields) (h : are_filled params ≡ true) where
  updated_node-filled :
      (node v : Value)
      → own_key node ≡ false
      → updated_node (ok params) node ≡ ok v
      → is_filled v ≡ true
  updated_node-filled (object f) v own e = node-filled params f v h own e
  updated_node-filled _ v own e = cc

  here-filled :
      (node v : Value)
      → not (own_key node) ≡ true
      → (if mentions node then updated_node (ok params) node else ok node) ≡ ok v
      → is_filled v ≡ true
  here-filled node v own e = elim (Bool-cases (mentions node)) [
    | inl there ↦ updated_node-filled node v (ground (arith, own)) (rw there at e)
    | inr none_there ↦ rw (← (ok_value (rw none_there at e))) (unmentioned node none_there)
  ]

  update_nodes-filled :
      (param_values : Value) (nodes after : Fields)
      → nsd_params param_values ≡ ok params
      → no_own_keys nodes ≡ true
      → update_nodes param_values nodes ≡ ok after
      → are_filled after ≡ true
  unfolding update_nodes is_filled
  update_nodes-filled param_values object_end after given own e = rw (← (ok_value e)) refl
  update_nodes-filled param_values (entry name node rest) after given own e =
      let (v, f, here, others, same) =
        entry_parts name _ (update_nodes param_values rest) after e in
      let (none_here, none_later) = and_parts (not (own_key node)) (no_own_keys rest) own in
      rw same (
        both _ _ (here-filled node v none_here (rw given at here))
          (update_nodes-filled param_values rest f given none_later others))

-- Where `_process_parameterized_input` returns, no dict of the nodes that keys lead to has the key
-- `get_input`, if no dict among the values of the parameters has it and no node has it itself.
pub process_input-filled :
    (param_values : Value) (params nodes after : Fields)
    → nsd_params param_values ≡ ok params
    → are_filled params ≡ true
    → no_own_keys nodes ≡ true
    → process_parameterized_input (some param_values) nodes ≡ ok after
    → are_filled after ≡ true
unfolding process_parameterized_input
process_input-filled param_values params nodes after given h own e =
    elim (Bool-cases (is_truthy param_values)) [
      | inl some_there ↦
          update_nodes-filled params h param_values nodes after given own (rw some_there at e)
      | inr none_there ↦ absurd (cc (rw none_there at e))
    ]
