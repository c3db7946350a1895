-- ===== src/Value.antt =====
-- The values of a request's body, as Python reads them from JSON; numbers with a fraction are left
-- out.
use apmec.Prelude.{
  ℕ, suc, String, Bool, true, false, Option, none, some, List, [], ◌∷◌, ◌&&◌, ◌==◌, nat_eq, ltb,
  if◌then◌else◌,
}

-- The integers, with the library's constructors, over the native numbers: `negsuc n` is -1 - n.
pub data ℤ : Type 0 where
  pos : ℕ → ℤ
  negsuc : ℕ → ℤ

-- a < b
abbrev pub int_lt : ℤ → ℤ → Bool
int_lt (pos a) (pos b) = ltb a b
int_lt (pos a) (negsuc b) = false
int_lt (negsuc a) (pos b) = true
int_lt (negsuc a) (negsuc b) = ltb b a

abbrev pub int_eq : ℤ → ℤ → Bool
int_eq (pos a) (pos b) = nat_eq a b
int_eq (negsuc a) (negsuc b) = nat_eq a b
int_eq _ _ = false

mutual
  pub data Value : Type 0 where
    text : String → Value
    integer : ℤ → Value
    boolean : Bool → Value
    object : Fields → Value
    array : Items → Value
    null : Value

  -- The keys of a dict with their values, in the order of their insertion.
  pub data Fields : Type 0 where
    object_end : Fields
    entry : String → Value → Fields → Fields

  pub data Items : Type 0 where
    array_end : Items
    element : Value → Items → Items

-- The elements of a list, and the list of such elements.
abbrev pub elements : Items → List Value
elements array_end = []
elements (element v vs) = v ∷ elements vs

abbrev pub items_of : List Value → Items
items_of [] = array_end
items_of (v ∷ vs) = element v (items_of vs)

-- d.keys()
abbrev pub keys : Fields → List String
keys object_end = []
keys (entry k v fs) = k ∷ keys fs

abbrev size : Fields → ℕ
size object_end = 0
size (entry k v fs) = suc (size fs)

-- d.get(k)
abbrev pub get : String → Fields → Option Value
get k object_end = none
get k (entry j v fs) = if j == k then some v else get k fs

-- d[k] = v
abbrev pub put : String → Value → Fields → Fields
put k v object_end = entry k v object_end
put k v (entry j w fs) = if j == k then entry j v fs else entry j w (put k v fs)

-- True and False are the integers 1 and 0.
abbrev pub number : Bool → ℤ
number true = pos 1
number false = pos 0

-- `a == b`; two dicts are equal if they have as many keys and the same value under each
unfoldable mutual
  pub value_eq : Value → Value → Bool
  value_eq null null = true
  value_eq (boolean a) (boolean b) = int_eq (number a) (number b)
  value_eq (boolean a) (integer b) = int_eq (number a) b
  value_eq (integer a) (boolean b) = int_eq a (number b)
  value_eq (integer a) (integer b) = int_eq a b
  value_eq (text a) (text b) = a == b
  value_eq (array a) (array b) = items_eq a b
  value_eq (object a) (object b) = nat_eq (size a) (size b) && fields_in a b
  value_eq _ _ = false

  items_eq : Items → Items → Bool
  items_eq array_end array_end = true
  items_eq (element a xs) (element b ys) = value_eq a b && items_eq xs ys
  items_eq _ _ = false

  fields_in : Fields → Fields → Bool
  fields_in object_end b = true
  fields_in (entry k v fs) b =
      (elim (get k b) [ none ↦ false | some w ↦ value_eq v w ]) && fields_in fs b

-- `v in vs`, for a list `vs`
abbrev pub is_in : Value → List Value → Bool
is_in v [] = false
is_in v (w ∷ vs) = if value_eq w v then true else is_in v vs

-- if data
abbrev pub is_truthy : Value → Bool
is_truthy null = false
is_truthy (boolean b) = b
is_truthy (integer n) = if int_eq n (pos 0) then false else true
is_truthy (text s) = if s == "" then false else true
is_truthy (array array_end) = false
is_truthy (array (element _ _)) = true
is_truthy (object object_end) = false
is_truthy (object (entry _ _ _)) = true
