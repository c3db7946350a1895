-- ===== src/Extensions/Ends.antt =====
-- api/extensions.py: the loop of `extend_resources` ends.
use apmec.Prelude.{
  ℕ, zero, suc, ◌+◌, ◌≤◌, ◌<◌, ◌≡◌, refl, ap, some, [], ◌∷◌, length, length-append, nat_eq, arith,
  Bool-cases, inl, inr,
}
use apmec.Dict.{Dict}
use apmec.Extensions.{
  Extension, AttrMap, Progress, has_method, all_processed, process, note, one_pass, apply_all,
  final_map, iterate, start, extend_resources,
}

abbrev pub done : Progress → ℕ
done p = length p.processed_exts

-- An iteration processes some, leaves some, and takes none in.
pub one_pass_counts :
    (p : Progress) (exts : Dict Extension)
    → (done p ≤ done (one_pass p exts).0)
      × (done (one_pass p exts).0 + length (one_pass p exts).1 ≤ done p + length exts)
unfolding one_pass
one_pass_counts p [] = (omega arith, omega arith)
one_pass_counts p ((name, ext) ∷ rest) = elim (Bool-cases (has_method ext.extended)) [
  | inr lacks ↦ let (up, few) = one_pass_counts p rest in rw lacks (up, omega (arith, few))
  | inl has ↦ elim (Bool-cases (all_processed ext.required p.processed_exts)) [
    | inl ready ↦
        let (up, few) = one_pass_counts (process name ext (note ext p)) rest in
        let more = length-append p.processed_exts (name ∷ []) in
        rw (has, ready) (omega (arith, up, more), omega (arith, few, more))
    | inr waits ↦
        let (up, few) = one_pass_counts (note ext p) rest in
        rw (has, waits) (up, omega (arith, few))
  ]
]

iterate-Ends :
    (fuel : ℕ) (p : Progress) (exts : Dict Extension)
    → length exts < fuel
    → (r : Progress × Dict Extension) × (iterate fuel p exts ≡ some r)
unfolding iterate
iterate-Ends fuel p [] h = ((p, []), refl)
iterate-Ends zero p (e ∷ exts) h = absurd (omega (arith, h))
iterate-Ends (suc fuel) p (e ∷ exts) h =
    let (up, few) = one_pass_counts p (e ∷ exts) in
    elim (Bool-cases (nat_eq (done (one_pass p (e ∷ exts)).0) (done p))) [
      | inl stays ↦ (one_pass p (e ∷ exts), rw stays refl)
      | inr moves ↦
          let (r, same) =
            iterate-Ends fuel (one_pass p (e ∷ exts)).0 (one_pass p (e ∷ exts)).1
              (ground (arith, moves, up, few, h)) in
          (r, rw moves same)
    ]

-- `extend_resources` returns: it needs no more iterations than there are extensions, and one.
pub extend_resources-Ends :
    (extensions : Dict Extension) (attr_map : AttrMap)
    → (m : AttrMap) × (extend_resources extensions attr_map ≡ some m)
unfolding extend_resources
extend_resources-Ends extensions attr_map =
    let (r, same) =
      iterate-Ends (suc (length extensions)) (start attr_map) extensions (omega arith) in
    (apply_all r.0.update_exts r.0.attr_map, ap final_map same)
