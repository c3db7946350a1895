-- ===== src/Attributes/FixedIps.antt =====
-- api/v1/attributes.py: what a list of fixed IPs that `_validate_fixed_ips` accepts is like.
use apmec.Prelude.{
  ◌≡◌, ◌≢◌, refl, String, false, Option, none, some, List, [], ◌∷◌, ◌++◌, All, arith, ◌==◌, eq_iff,
  Bool-cases, inl, inr,
}
use apmec.Value.{
  Value, text, object, array, null, boolean, integer, Items, array_end, element, Fields, elements,
  get, is_in, value_eq,
}
use apmec.Attributes.Message.{Message}
use apmec.Attributes.Scalar.{Net, validate_uuid, validate_no_whitespace}
use apmec.Attributes.Network.{
  check_key, check_address, validate_ip_address, fixed_ip_checks, fixed_ips_from,
  validate_fixed_ips,
}
use apmec.Attributes.Accepts.{or_check-none}

-- The predicate holds of the value if there is one.
abbrev IfGiven : (Value → Type 0) → Option Value → Type 0
IfGiven P none = Unit
IfGiven P (some v) = P v

-- No two of the texts are the same.
abbrev pub Unique : List String → Type 0
Unique [] = Unit
Unique (s ∷ rest) = All (λ t. t ≢ s) rest × Unique rest

abbrev text_of : Option Value → List String
text_of (some (text s)) = s ∷ []
text_of _ = []

-- The texts under `ip_address`.
abbrev pub addresses : Items → List String
addresses array_end = []
addresses (element (object fixed_ip) rest) = text_of (get "ip_address" fixed_ip) ++ addresses rest
addresses (element _ rest) = addresses rest

module _ (net : Net) where
  -- A dict whose `ip_address` is an address, and whose `subnet_id` is a UUID, where it has them.
  abbrev pub IsFixedIp : Value → Type 0
  IsFixedIp v =
      (fixed_ip : Fields) × (v ≡ object fixed_ip)
      × IfGiven (λ a. validate_ip_address net a ≡ none) (get "ip_address" fixed_ip)
      × IfGiven (λ i. validate_uuid net i ≡ none) (get "subnet_id" fixed_ip)

  -- None of the texts is one of the values.
  abbrev Unseen : List Value → List String → Type 0
  Unseen seen ss = All (λ s. is_in (text s) seen ≡ false) ss

  check_address-none :
      (seen : List Value) (a : Value)
      → check_address net seen a ≡ none
      → (is_in a seen ≡ false) × (validate_ip_address net a ≡ none)
  check_address-none seen a h = elim (Bool-cases (is_in a seen)) [
    | inl hit ↦ absurd (cc (rw hit at h))
    | inr miss ↦ (miss, rw miss at h)
  ]

  address_text : (a : Value) → validate_ip_address net a ≡ none → (s : String) × (a ≡ text s)
  unfolding validate_ip_address validate_no_whitespace
  address_text (text s) h = (s, refl)
  address_text null h = absurd (cc)
  address_text (boolean b) h = absurd (cc)
  address_text (integer n) h = absurd (cc)
  address_text (array l) h = absurd (cc)
  address_text (object f) h = absurd (cc)

  check_key-none :
      (validate : Value → Option Message) (k : String) (f : Fields)
      → check_key validate k (object f) ≡ none
      → IfGiven (λ v. validate v ≡ none) (get k f)
  check_key-none validate k f h = go (get k f) refl
    where
      go : (o : Option Value) → get k f ≡ o → IfGiven (λ v. validate v ≡ none) (get k f)
      go none e = rw e tt
      go (some v) e = rw e (rw (check_key, e) at h)

  abbrev Accepted : List Value → Items → Type 0
  Accepted seen items =
      All IsFixedIp (elements items) × Unique (addresses items) × Unseen seen (addresses items)

  after_one :
      (s : String) (seen : List Value) (ss : List String)
      → Unseen (text s ∷ seen) ss
      → All (λ t. t ≢ s) ss × Unseen seen ss
  unfolding value_eq
  after_one s seen [] h = (tt, tt)
  after_one s seen (t ∷ ss) (h, hs) =
      let (others, unseen) = after_one s seen ss hs in
      elim (Bool-cases (s == t)) [
        | inl same ↦ absurd (cc (rw same at h))
        | inr differ ↦ ((λ e. ground (arith, eq_iff s t), others), (rw differ at h, unseen))
      ]

  checks_one :
      (seen : List Value) (f : Fields) (rest : Items)
      → (o : Option Value) → get "ip_address" f ≡ o
      → ((seen' : List Value) → fixed_ips_from net seen' rest ≡ none → Accepted seen' rest)
      → fixed_ip_checks net seen f (λ seen'. fixed_ips_from net seen' rest) o ≡ none
      → Accepted seen (element (object f) rest)
  checks_one seen f rest none e later h =
      let (subnet, after) = (or_check-none _ _).0 h in
      let (good, unique, unseen) = later seen after in
      rw e (
        ((f, refl, rw e tt, check_key-none (validate_uuid net) "subnet_id" f subnet), good),
        unique,
        unseen,
      )
  checks_one seen f rest (some a) e later h =
      let (first, more) = (or_check-none _ _).0 h in
      let (subnet, after) = (or_check-none _ _).0 more in
      let (new, address) = check_address-none seen a first in
      let (good, unique, unseen) = later (a ∷ seen) after in
      let (s, is_text) = address_text a address in
      let (others, old) = after_one s seen (addresses rest) (rw is_text at unseen) in
      let one : IsFixedIp (object f) =
        (f, refl, rw e address, check_key-none (validate_uuid net) "subnet_id" f subnet) in
      rw (e, is_text) ((one, good), (others, unique), (rw is_text at new, old))

  accepted :
      (seen : List Value) (items : Items)
      → fixed_ips_from net seen items ≡ none
      → Accepted seen items
  unfolding fixed_ips_from
  accepted seen array_end h = (tt, tt, tt)
  accepted seen (element (object f) rest) h =
      checks_one seen f rest (get "ip_address" f) refl (λ seen'. accepted seen' rest) h
  accepted seen (element null rest) h = absurd (cc)
  accepted seen (element (boolean b) rest) h = absurd (cc)
  accepted seen (element (integer n) rest) h = absurd (cc)
  accepted seen (element (text t) rest) h = absurd (cc)
  accepted seen (element (array l) rest) h = absurd (cc)

  -- A list that `_validate_fixed_ips` accepts holds dicts only, each with a valid IP address and a
  -- UUID where it has an `ip_address` and a `subnet_id`, and no address is there twice.
  pub validate_fixed_ips-Unique :
      (items : Items)
      → validate_fixed_ips net (array items) ≡ none
      → All IsFixedIp (elements items) × Unique (addresses items)
  unfolding validate_fixed_ips
  validate_fixed_ips-Unique items h = let (good, unique, _) = accepted [] items h in (good, unique)
