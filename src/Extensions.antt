-- ===== src/Extensions.antt =====
-- api/extensions.py, `extend_resources`: the map of resources that the extensions extend, each after
-- those that it requires.
pub mod Ends
pub mod Ordered
use apmec.Prelude.{
  ℕ, zero, suc, String, Bool, true, false, Option, none, some, List, [], ◌∷◌, ◌++◌, ◌==◌, any, not,
  length, nat_eq, if◌then◌else◌,
}
use apmec.Value.{Value}
use apmec.Dict.{Dict, lookup, insert, update}

-- The attributes of each resource.
abbrev pub AttrMap : Type 0
AttrMap = Dict (Dict Value)

-- get_extended_resources(version), which an extension may lack or which may raise AttributeError
pub data Extended : Type 0 where
  no_method : Extended
  attribute_raised : Extended
  gives : AttrMap → Extended

-- An extension with what its methods do, none where it lacks one.
pub record Extension : Type 0 where
  pub extended : Extended
  pub required : List String
  pub update_attributes_map : Option (AttrMap → AttrMap)

-- an empty dict is replaced
abbrev extended_entry : Dict Value → Dict Value → Dict Value
extended_entry [] attrs = attrs
extended_entry (e ∷ old) attrs = update (e ∷ old) attrs

-- attr_map[resource].update(resource_attrs), or a new entry
abbrev extend_entry : AttrMap → String → Dict Value → AttrMap
extend_entry attr_map resource attrs = elim (lookup resource attr_map) [
  | none ↦ insert resource attrs attr_map
  | some old ↦ insert resource (extended_entry old attrs) attr_map
]

unfoldable pub extend_map : AttrMap → AttrMap → AttrMap
extend_map attr_map [] = attr_map
extend_map attr_map ((resource, attrs) ∷ more) =
    extend_map (extend_entry attr_map resource attrs) more

abbrev extend_with : AttrMap → Extended → AttrMap
extend_with attr_map no_method = attr_map
extend_with attr_map attribute_raised = attr_map
extend_with attr_map (gives resources) = extend_map attr_map resources

-- update_exts, processed_exts and attr_map
pub record Progress : Type 0 where
  pub update_exts : List (AttrMap → AttrMap)
  pub processed_exts : List String
  pub attr_map : AttrMap

abbrev noted : Option (AttrMap → AttrMap) → List (AttrMap → AttrMap) → List (AttrMap → AttrMap)
noted none update_exts = update_exts
noted (some f) update_exts = update_exts ++ (f ∷ [])

abbrev is_one_of : String → List String → Bool
is_one_of name names = any (λ n. n == name) names

-- not (required_exts_set - processed_exts)
unfoldable pub all_processed : List String → List String → Bool
all_processed [] processed = true
all_processed (name ∷ required) processed =
    let rest = all_processed required processed in if is_one_of name processed then rest else false

abbrev pub process : String → Extension → Progress → Progress
process name ext p = record p {
  processed_exts = p.processed_exts ++ (name ∷ []);
  attr_map = extend_with p.attr_map ext.extended;
}

abbrev pub note : Extension → Progress → Progress
note ext p = record p { update_exts = noted ext.update_attributes_map p.update_exts }

abbrev pub has_method : Extended → Bool
has_method no_method = false
has_method _ = true

-- One iteration over the extensions that are left, and those that are left then.
unfoldable pub one_pass : Progress → Dict Extension → Progress × Dict Extension
one_pass p [] = (p, [])
one_pass p ((name, ext) ∷ rest) =
    if not (has_method ext.extended)
    then one_pass p rest
    else elim (all_processed ext.required p.processed_exts) [
      | true ↦ one_pass (process name ext (note ext p)) rest
      | false ↦ (let (q, left) = one_pass (note ext p) rest in (q, (name, ext) ∷ left))
    ]

-- The loop, which stops where an iteration has processed none: none where the fuel was too little.
unfoldable pub iterate : ℕ → Progress → Dict Extension → Option (Progress × Dict Extension)
iterate fuel p [] = some (p, [])
iterate zero p (e ∷ exts) = none
iterate (suc fuel) p (e ∷ exts) =
    let (q, left) = one_pass p (e ∷ exts) in
    if nat_eq (length q.processed_exts) (length p.processed_exts)
    then some (q, left)
    else iterate fuel q left

-- for ext in update_exts: ext.update_attributes_map(attr_map)
abbrev pub apply_all : List (AttrMap → AttrMap) → AttrMap → AttrMap
apply_all [] attr_map = attr_map
apply_all (f ∷ fs) attr_map = apply_all fs (f attr_map)

abbrev pub start : AttrMap → Progress
start attr_map = record { update_exts = []; processed_exts = []; attr_map = attr_map }

abbrev pub final_map : Option (Progress × Dict Extension) → Option AttrMap
final_map none = none
final_map (some (p, left)) = some (apply_all p.update_exts p.attr_map)

-- `extend_resources`: each iteration but the last leaves fewer extensions
unfoldable pub extend_resources : Dict Extension → AttrMap → Option AttrMap
extend_resources extensions attr_map =
    final_map (iterate (suc (length extensions)) (start attr_map) extensions)
