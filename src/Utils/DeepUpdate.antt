-- ===== src/Utils/DeepUpdate.antt =====
-- common/utils.py: where the values of a merged dict come from.
use apmec.Prelude.{
  ◌≡◌, refl, String, Bool, true, false, Option, none, some, List, [], ◌∷◌, not, ◌&&◌, arith, ◌==◌,
  eq_iff, Bool-cases, inl, inr, if◌then◌else◌,
}
use apmec.Value.{
  Value, object, text, integer, boolean, array, null, Fields, object_end, entry, keys, put, get,
}
use apmec.Attributes.Network.{is_key}
use apmec.Utils.{deep_update, merged, is_dict, are_dicts}

-- f v, if there is a v
abbrev and_then : (Value → Option Value) → Option Value → Option Value
and_then f none = none
and_then f (some v) = f v

-- d[k1][k2]...
abbrev pub value_at : List String → Value → Option Value
value_at [] v = some v
value_at (k ∷ ks) (object f) = and_then (value_at ks) (get k f)
value_at (k ∷ ks) _ = none

abbrev is_object : Value → Bool
is_object (object f) = true
is_object _ = false

-- What a key has after the merge, from what the two dicts have under it.
abbrev pub joined : Option Value → Option Value → Option Value
joined old none = old
joined old (some v) = some (merged old v)

get-put :
    (k j : String) (v : Value) (f : Fields)
    → get j (put k v f) ≡ (if k == j then some v else get j f)
get-put k j v object_end = refl
get-put k j v (entry i w f) = ground (arith, eq_iff k j, eq_iff i k, eq_iff i j, get-put k j v f)

get_absent : (k : String) (f : Fields) → is_key k (keys f) ≡ false → get k f ≡ none
get_absent k object_end h = refl
get_absent k (entry j v f) h = ground (arith, eq_iff j k, eq_iff k j, get_absent k f)

all_three : (a b c : Bool) → (not a && (b && c)) ≡ true → (a ≡ false) × (b ≡ true) × (c ≡ true)
all_three false true true h = (refl, refl, refl)
all_three false true false h = absurd (cc)
all_three false false c h = absurd (cc)
all_three true b c h = absurd (cc)

-- A key of the merged dict has what the two dicts give it: the old value where the new dict has none,
-- else the new value, merged into the old one where both are dicts;
-- if no dict inside the new one has a key twice.
get-deep_update :
    (k : String) (old new : Fields)
    → are_dicts new ≡ true
    → get k (deep_update old new) ≡ joined (get k old) (get k new)
unfolding deep_update are_dicts
get-deep_update k old object_end h = refl
get-deep_update k old (entry j v new) h =
    let (once, _, later) = all_three (is_key j (keys new)) (is_dict v) (are_dicts new) h in
    let step = get-deep_update k (put j (merged (get j old) v) old) new later in
    let write = get-put j k (merged (get j old) v) old in
    elim (Bool-cases (j == k)) [
      | inl same ↦
          let eq : j ≡ k = ground (arith, eq_iff j k) in
          let gone : get k new ≡ none = rw (← eq) (get_absent j new once) in
          rw (same, step, gone, write, same, eq) refl
      | inr other ↦ rw (other, step, write, other) refl
    ]

get_dict :
    (k : String) (f : Fields) (v : Value) → are_dicts f ≡ true → get k f ≡ some v → is_dict v ≡ true
unfolding are_dicts
get_dict k object_end v h e = absurd (cc)
get_dict k (entry j w f) v h e =
    let (_, here, there) = all_three (is_key j (keys f)) (is_dict w) (are_dicts f) h in
    elim (Bool-cases (j == k)) [
      | inl same ↦ let eq : w ≡ v = cc (rw same at e) in rw (← eq) here
      | inr other ↦ get_dict k f v there (rw other at e)
    ]

merged_leaf : (o : Option Value) (v : Value) → is_object v ≡ false → merged o v ≡ v
unfolding merged
merged_leaf none v h = refl
merged_leaf (some (object f)) (object g) h = absurd (cc)
merged_leaf (some (object f)) (text s) h = refl
merged_leaf (some (object f)) (integer n) h = refl
merged_leaf (some (object f)) (boolean b) h = refl
merged_leaf (some (object f)) (array vs) h = refl
merged_leaf (some (object f)) null h = refl
merged_leaf (some (text s)) v h = refl
merged_leaf (some (integer n)) v h = refl
merged_leaf (some (boolean b)) v h = refl
merged_leaf (some (array vs)) v h = refl
merged_leaf (some null) v h = refl

merged_written :
    (ks : List String) (o : Option Value) (w v : Value)
    → is_dict w ≡ true
    → is_object v ≡ false
    → value_at ks w ≡ some v
    → value_at ks (merged o w) ≡ some v
unfolding merged is_dict
merged_written [] o w v h leaf e = let same : w ≡ v = cc in rw (same, merged_leaf o v leaf) refl
merged_written (k ∷ ks) (some (object old)) (object new) v h leaf e =
    rw (get-deep_update k old new h) (
      go (get k new) (λ w found. merged_written ks (get k old) w v (get_dict k new w h found) leaf)
        e)
  where
    go :
        (n : Option Value)
        → ((w : Value)
            → n ≡ some w
            → value_at ks w ≡ some v
            → value_at ks (merged (get k old) w) ≡ some v)
        → and_then (value_at ks) n ≡ some v
        → and_then (value_at ks) (joined (get k old) n) ≡ some v
    go none again e = absurd (cc)
    go (some w) again e = again w refl e
merged_written (k ∷ ks) (some (object old)) (text s) v h leaf e = e
merged_written (k ∷ ks) (some (object old)) (integer n) v h leaf e = e
merged_written (k ∷ ks) (some (object old)) (boolean b) v h leaf e = e
merged_written (k ∷ ks) (some (object old)) (array vs) v h leaf e = e
merged_written (k ∷ ks) (some (object old)) null v h leaf e = e
merged_written (k ∷ ks) (some (text s)) w v h leaf e = e
merged_written (k ∷ ks) (some (integer n)) w v h leaf e = e
merged_written (k ∷ ks) (some (boolean b)) w v h leaf e = e
merged_written (k ∷ ks) (some (array vs)) w v h leaf e = e
merged_written (k ∷ ks) (some null) w v h leaf e = e
merged_written (k ∷ ks) none w v h leaf e = e

-- Every value of the second dict that is no dict, under whatever path of keys, is in the merged dict
-- under that path, if no dict inside the second one has a key twice.
pub deep_update-written :
    (ks : List String) (old new : Fields) (v : Value)
    → are_dicts new ≡ true
    → is_object v ≡ false
    → value_at ks (object new) ≡ some v
    → value_at ks (object (deep_update old new)) ≡ some v
unfolding is_dict merged
deep_update-written ks old new v h leaf e =
    merged_written ks (some (object old)) (object new) v h leaf e
