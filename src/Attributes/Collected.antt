-- ===== src/Attributes/Collected.antt =====
-- api/v1/attributes.py: what `convert_kvp_list_to_dict` collects under a key.
use apmec.Prelude.{
  ◌≡◌, refl, ◌∙◌, String, Bool, false, List, [], ◌∷◌, ◌&&◌, ◌||◌, any, arith, ◌==◌, eq_iff,
  Bool-cases, inl, inr,
}
use apmec.Dict.{Dict, lookup, lookup-insert}
use apmec.Errors.{Result, ok, err}
use apmec.Text.{split_equals}
use apmec.Attributes.Convert.{
  convert_kvp_str_to_list, set_add, members, add_value, kvp_map_from, convert_kvp_list_to_dict,
}

-- v in s
abbrev pub has : String → List String → Bool
has v s = any (λ w. w == v) s

-- The text was read as the key `k` with the value `v`.
abbrev pub gives : String → String → Result (String × String) → Bool
gives k v (ok (j, w)) = j == k && w == v
gives k v (err e) = false

has-set_add : (v w : String) (s : List String) → has v (set_add w s) ≡ (has v s || w == v)
has-set_add v w [] = ground arith
has-set_add v w (x ∷ s) = ground (arith, has-set_add v w s, eq_iff x w, eq_iff w v, eq_iff x v)

or_false : (b : Bool) → b ≡ (b || false)
or_false b = ground arith

or_assoc : (a b c : Bool) → ((a || b) || c) ≡ (a || (b || c))
or_assoc a b c = ground arith

has-add_value :
    (k v j w : String) (m : Dict (List String))
    → has v (members (lookup k (add_value m j w)))
      ≡ (has v (members (lookup k m)) || j == k && w == v)
has-add_value k v j w m = elim (Bool-cases (j == k)) [
  | inl hit ↦
      let same : j ≡ k = (eq_iff j k).0 hit in
      rw (lookup-insert j k (set_add w (members (lookup j m))) m, hit, same)
        (has-set_add v w (members (lookup k m)))
  | inr miss ↦
      rw (lookup-insert j k (set_add w (members (lookup j m))) m, miss)
        (or_false (has v (members (lookup k m))))
]

collected :
    (k v : String) (m d : Dict (List String)) (l : List String)
    → kvp_map_from m l ≡ ok d
    → has v (members (lookup k d))
      ≡ (has v (members (lookup k m)) || any (λ s. gives k v (convert_kvp_str_to_list s)) l)
unfolding kvp_map_from
collected k v m d [] h = rw (← same_map) (or_false (has v (members (lookup k m))))
  where
    same_map : m ≡ d
    same_map = cc
collected k v m d (s ∷ rest) h =
    go (convert_kvp_str_to_list s) refl λ j w. collected k v (add_value m j w) d rest
  where
    go :
        (r : Result (String × String))
        → convert_kvp_str_to_list s ≡ r
        → ((j w : String)
            → kvp_map_from (add_value m j w) rest ≡ ok d
            → has v (members (lookup k d)) ≡ (
                has v (members (lookup k (add_value m j w)))
                || any (λ t. gives k v (convert_kvp_str_to_list t)) rest))
        → has v (members (lookup k d)) ≡ (
            has v (members (lookup k m))
            || (gives k v (convert_kvp_str_to_list s)
                || any (λ t. gives k v (convert_kvp_str_to_list t)) rest))
    go (err e) read later = absurd (cc (rw (kvp_map_from, read) at h))
    go (ok (j, w)) read later = rw read (
        later j w (rw (kvp_map_from, read) at h)
        ∙ rw (has-add_value k v j w m) (
            or_assoc (has v (members (lookup k m))) (j == k && w == v)
              (any (λ t. gives k v (convert_kvp_str_to_list t)) rest)))

not_a_pair : (k v s : String) → s ≡ "True" → gives k v (convert_kvp_str_to_list s) ≡ false
unfolding convert_kvp_str_to_list split_equals
not_a_pair k v s e = rw e refl

-- A dict that `convert_kvp_list_to_dict` returns has the value `v` under the key `k` if and only if
-- a text of the list is read as that key with that value. So a key that appears more than once is
-- no error: it gets all its values.
pub convert_kvp_list-members :
    (l : List String) (d : Dict (List String))
    → convert_kvp_list_to_dict l ≡ ok d
    → (k v : String)
    → has v (members (lookup k d)) ≡ any (λ s. gives k v (convert_kvp_str_to_list s)) l
unfolding convert_kvp_list_to_dict kvp_map_from lookup
convert_kvp_list-members [] d h k v = collected k v [] d [] h
convert_kvp_list-members (s ∷ []) d h k v = elim (Bool-cases (s == "True")) [
  | inl flag ↦
      let nothing : [] ≡ d = cc (rw flag at h) in
      rw (← nothing, not_a_pair k v s ((eq_iff s "True").0 flag)) refl
  | inr pair ↦ collected k v [] d (s ∷ []) (rw pair at h)
]
convert_kvp_list-members (s ∷ t ∷ l) d h k v = collected k v [] d (s ∷ t ∷ l) h
