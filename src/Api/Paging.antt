-- ===== src/Api/Paging.antt =====
-- api/api_common.py: the limit and the marker of a request, and the emulated pages of a list.
pub mod Walk
pub mod Back
pub mod Limit
use apmec.Prelude.{
  ℕ, zero, suc, ◌-◌, ◌+◌, String, Bool, true, false, Option, none, some, List, [], ◌∷◌, ◌++◌, not,
  ◌&&◌, ◌==◌, nat_eq, ltb, leb, length, take, drop, if◌then◌else◌,
}
use apmec.Dict.{Dict}
use apmec.Errors.{Result, ok, err, bad_request}
use apmec.Text.{int_of_text, lower_is}
use apmec.Value.{ℤ, pos, negsuc}

-- What `request.GET`, of webob, has under a name: one value and all values, and
-- all names with theirs.
pub record Query : Type 0 where
  pub get : String → Option String
  pub getall : String → List String
  pub dict_of_lists : Dict (List String)

-- [v for v in request.GET.getall(arg) if v]
abbrev pub set_texts : List String → List String
set_texts [] = []
set_texts (v ∷ vs) = let rest = set_texts vs in if v == "" then rest else v ∷ rest

abbrev pub list_args : Query → String → List String
list_args query arg = set_texts (query.getall arg)

-- -1 where it is not given as a number; a 0 is warned of, and returned
abbrev number_or_none : Option ℤ → ℤ
number_or_none none = negsuc 0
number_or_none (some n) = n

unfoldable pub get_pagination_max_limit : String → ℤ
get_pagination_max_limit conf =
    if lower_is "infinite" conf then negsuc 0 else number_or_none (int_of_text conf)

abbrev not_negative : Option ℤ → Result ℕ
not_negative (some (pos n)) = ok n
not_negative _ = err (bad_request "limit")

unfoldable pub get_limit_param : Query → Result ℕ
get_limit_param query = elim (query.get "limit") [
  | none ↦ ok 0
  | some given ↦ not_negative (int_of_text given)
]

-- min(max_limit, limit) or max_limit, where max_limit > 0
abbrev pub at_most : ℤ → ℕ → ℕ
at_most (negsuc m) limit = limit
at_most (pos m) limit =
    if nat_eq m 0 then limit else (if nat_eq limit 0 then m else (if leb m limit then m else limit))

-- None for the limit where it would be 0
abbrev pub limit_and_marker : ℕ → Option String → Option ℕ × Option String
limit_and_marker zero marker = (none, none)
limit_and_marker (suc n) marker = (some (suc n), marker)

unfoldable pub get_limit_and_marker : String → Query → Result (Option ℕ × Option String)
get_limit_and_marker conf query = elim (get_limit_param query) [
  | err e ↦ err e
  | ok limit ↦
      ok (limit_and_marker (at_most (get_pagination_max_limit conf) limit) (query.get "marker"))
]

-- a - b
abbrev minus : ℕ → ℕ → ℤ
minus a b = if leb b a then pos (a - b) else negsuc (b - suc a)

-- Where an index of a slice stands in a list of `n`: a negative one counts from the end.
abbrev clamp : ℕ → ℤ → ℕ
clamp n (pos i) = i
clamp n (negsuc i) = n - suc i

-- xs[a:b]
abbrev slice : {A : Type 0} → ℤ → ℤ → List A → List A
slice a b xs = let first = clamp (length xs) a in take (clamp (length xs) b - first) (drop first xs)

-- An entry of the links: the `marker` of its URL, and its `page_reverse`.
pub data Link : Type 0 where
  next previous : Option String → Link

module _ {A : Type 0} (key : A → String) where
  -- How many elements the loop of `paginate` has looked at: i + 1.
  unfoldable pub looked_at : String → List A → ℕ
  looked_at marker [] = 0
  looked_at marker (item ∷ items) =
      let rest = looked_at marker items in if key item == marker then 1 else suc rest

  -- if self.marker: for item in items: …
  abbrev pub seen : Option String → List A → ℕ
  seen none items = 0
  seen (some marker) items = if marker == "" then 0 else looked_at marker items

  abbrev pub page : ℕ → Bool → ℕ → List A → List A
  page limit true k items = slice (minus k (suc limit)) (minus k 1) items
  page limit false k items = slice (pos k) (pos (k + limit)) items

  -- PaginationEmulatedHelper.paginate, where each item has the primary key
  unfoldable pub paginate : Option ℕ → Option String → Bool → List A → List A
  paginate none marker page_reverse items = items
  paginate (some limit) marker page_reverse items =
      page limit page_reverse (seen marker items) items

  -- items[0][id_key], if items
  abbrev first_key : List A → Option String
  first_key [] = none
  first_key (item ∷ items) = some (key item)

  -- items[-1][id_key], if items
  abbrev pub last_key : List A → Option String
  last_key [] = none
  last_key (item ∷ []) = some (key item)
  last_key (item ∷ other ∷ items) = last_key (other ∷ items)

  abbrev link_if : Bool → Link → List Link
  link_if true link = link ∷ []
  link_if false link = []

  unfoldable pub get_pagination_links : List A → Option ℕ → Bool → List Link
  get_pagination_links items none page_reverse = []
  get_pagination_links items (some limit) page_reverse =
      link_if (not (ltb (length items) limit && not page_reverse)) (next (last_key items))
      ++ link_if (not (ltb (length items) limit && page_reverse)) (previous (first_key items))
