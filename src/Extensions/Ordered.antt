-- ===== src/Extensions/Ordered.antt =====
-- api/extensions.py: `extend_resources` processes each extension after those that it requires, and
-- leaves none that it could process.
use mathlib.Core.List.{Memᴰ}
use apmec.Prelude.{
  ℕ, zero, suc, String, ◌≡◌, refl, true, false, Option, some, List, [], ◌∷◌, ◌++◌, length-append,
  nat_eq, arith, Bool-cases, inl, inr, All,
}
use apmec.Dict.{Dict}
use apmec.Extensions.{
  Extension, AttrMap, Progress, has_method, is_one_of, all_processed, process, note, one_pass,
  iterate, start,
}
use apmec.Extensions.Ends.{done, one_pass_counts}

-- Each of the extensions required is among the names.
abbrev pub AllAmong : List String → List String → Type 0
AllAmong required names = All (λ (name : String). is_one_of name names ≡ true) required

all_processed-among :
    (required names : List String) → all_processed required names ≡ true → AllAmong required names
unfolding all_processed
all_processed-among [] names e = tt
all_processed-among (name ∷ required) names e = elim (Bool-cases (is_one_of name names)) [
  | inl has ↦ (has, all_processed-among required names (rw has at e))
  | inr lacks ↦ absurd (cc (rw lacks at e))
]

all_processed-waits :
    (required names : List String)
    → all_processed required names ≡ false
    → ¬ AllAmong required names
unfolding all_processed
all_processed-waits [] names e h = absurd (cc)
all_processed-waits (name ∷ required) names e h =
    all_processed-waits required names (rw (h.0) at e) h.1

-- Names in an order in which each extension comes after those that it requires.
pub data Ordered (exts : Dict Extension) : List String → Type 0 where
  none_yet : Ordered exts []
  next :
      {names : List String} (name : String) (ext : Extension)
      → Ordered exts names
      → Memᴰ (name, ext) exts
      → AllAmong ext.required names
      → Ordered exts (names ++ (name ∷ []))

-- Of each extension that is left, one that it requires has not been processed.
abbrev pub AllWait : Dict Extension → List String → Type 0
AllWait left names = All (λ (e : String × Extension). ¬ AllAmong e.1.required names) left

some_parts : {A : Type 0} {a b : A} → Path (Option A) (some a) (some b) → a ≡ b
some_parts e = cc

module _ (exts : Dict Extension) where
  abbrev AllIn : Dict Extension → Type 0
  AllIn some_exts = All (λ e. Memᴰ e exts) some_exts

  one_pass-Ordered :
      (p : Progress) (rest : Dict Extension)
      → AllIn rest
      → Ordered exts p.processed_exts
      → Ordered exts (one_pass p rest).0.processed_exts × AllIn (one_pass p rest).1
  unfolding one_pass
  one_pass-Ordered p [] h o = (o, tt)
  one_pass-Ordered p ((name, ext) ∷ rest) h o = elim (Bool-cases (has_method ext.extended)) [
    | inr lacks ↦ rw lacks (one_pass-Ordered p rest h.1 o)
    | inl has ↦ elim (Bool-cases (all_processed ext.required p.processed_exts)) [
      | inl ready ↦
          rw (has, ready)
            (one_pass-Ordered (process name ext (note ext p)) rest h.1
              (next name ext o h.0 (all_processed-among ext.required p.processed_exts ready)))
      | inr waits ↦
          let (o', inside) = one_pass-Ordered (note ext p) rest h.1 o in
          rw (has, waits) (o', (h.0, inside))
    ]
  ]

  -- An iteration that has processed none.
  one_pass-AllWait :
      (p : Progress) (rest : Dict Extension)
      → done (one_pass p rest).0 ≡ done p
      → ((one_pass p rest).0.processed_exts ≡ p.processed_exts)
        × AllWait (one_pass p rest).1 p.processed_exts
  unfolding one_pass
  one_pass-AllWait p [] e = (refl, tt)
  one_pass-AllWait p ((name, ext) ∷ rest) e = elim (Bool-cases (has_method ext.extended)) [
    | inr lacks ↦ rw lacks (one_pass-AllWait p rest (rw lacks at e))
    | inl has ↦ elim (Bool-cases (all_processed ext.required p.processed_exts)) [
      | inl ready ↦
          let (up, _) = one_pass_counts (process name ext (note ext p)) rest in
          let more = length-append p.processed_exts (name ∷ []) in
          absurd (omega (arith, up, more, rw (has, ready) at e))
      | inr waits ↦
          let (same, wait) = one_pass-AllWait (note ext p) rest (rw (has, waits) at e) in
          rw (has, waits) (same, (all_processed-waits ext.required p.processed_exts waits, wait))
    ]
  ]

  iterate-Ordered :
      (fuel : ℕ) (p : Progress) (rest : Dict Extension) (r : Progress × Dict Extension)
      → AllIn rest
      → Ordered exts p.processed_exts
      → iterate fuel p rest ≡ some r
      → Ordered exts r.0.processed_exts × AllWait r.1 r.0.processed_exts
  unfolding iterate
  iterate-Ordered fuel p [] r h o e = rw (← (some_parts e)) (o, tt)
  iterate-Ordered zero p (x ∷ rest) r h o e = absurd (cc)
  iterate-Ordered (suc fuel) p (x ∷ rest) r h o e =
      let (o', inside) = one_pass-Ordered p (x ∷ rest) h o in
      elim (Bool-cases (nat_eq (done (one_pass p (x ∷ rest)).0) (done p))) [
        | inl stays ↦
            let (same, wait) = one_pass-AllWait p (x ∷ rest) (ground (arith, stays)) in
            rw (← (some_parts (rw stays at e))) (o', rw same wait)
        | inr moves ↦
            iterate-Ordered fuel (one_pass p (x ∷ rest)).0 (one_pass p (x ∷ rest)).1 r inside o'
              (rw moves at e)
      ]

later_in :
    (x : String × Extension) (exts some_exts : Dict Extension)
    → All (λ e. Memᴰ e exts) some_exts
    → All (λ e. Memᴰ e (x ∷ exts)) some_exts
later_in x exts [] h = tt
later_in x exts (y ∷ ys) h = (Memᴰ.tail h.0, later_in x exts ys h.1)

All-self : (exts : Dict Extension) → All (λ e. Memᴰ e exts) exts
All-self [] = tt
All-self (x ∷ exts) = (Memᴰ.head refl, later_in x exts exts (All-self exts))

-- Where the loop of `extend_resources` ends, the extensions have been processed in an order in which
-- each comes after all those that it requires, and each that is left requires at least one that has
-- not been processed.
pub iterate_all-Ordered :
    (fuel : ℕ) (extensions : Dict Extension) (attr_map : AttrMap) (r : Progress × Dict Extension)
    → iterate fuel (start attr_map) extensions ≡ some r
    → Ordered extensions r.0.processed_exts × AllWait r.1 r.0.processed_exts
iterate_all-Ordered fuel extensions attr_map r e =
    iterate-Ordered extensions fuel (start attr_map) extensions r (All-self extensions) none_yet e
