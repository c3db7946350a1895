-- ===== src/Api/Policy/Passed.antt =====
-- policy.py: which rules an action that is let through has passed.
use apmec.Prelude.{
  ◌≡◌, refl, sym, ◌∙◌, String, Bool, true, false, Option, none, some, List, [], ◌∷◌, ◌<>◌, ◌&&◌,
  ◌==◌, eq_iff, arith, Bool-cases, inl, inr, if◌then◌else◌,
}
use apmec.Db.{Context}
use apmec.Dict.{Dict, lookup}
use apmec.Errors.{Result, ok, err}
use apmec.Request.{Slot}
use apmec.Api.Policy.{
  Info, Target, Enforcer, MatchRule, MatchRules, rule_check, and_check, and_rule, held, attr_rule,
  is_attribute_explicitly_set, get_resource_and_action, add_attr_rules, build_match_rule,
  or_refused, enforce,
}

-- What oslo.policy documents of AndCheck: it lets through what each of its rules lets through.
pub record IsConjunctive (enforcer : Enforcer) : Type 0 where
  pub conjuncts :
      (rule : MatchRule) (rules : MatchRules) (target : Target) (context : Context)
      → enforcer.enforce (and_check (and_rule rule rules)) target context ≡ ok true
      → (enforcer.enforce rule target context ≡ ok true)
        × (enforcer.enforce (and_check rules) target context ≡ ok true)

ok_same : (a b : Bool) → Path (Result Bool) (ok a) (ok b) → a ≡ b
ok_same a b e = cc

ok_rule : {a b : MatchRule} → Path (Result MatchRule) (ok a) (ok b) → a ≡ b
ok_rule e = cc

no_admin :
    (b : Bool) (r : Result (Unit {0})) → b ≡ false → (if b then ok tt else r) ≡ ok tt → r ≡ ok tt
no_admin true r plain e = absurd (cc)
no_admin false r plain e = e

module _ (enforcer : Enforcer) (engine : IsConjunctive enforcer) (context : Context)
    (action : String) (target : Target) where
  abbrev Passes : MatchRule → Type 0
  Passes rule = enforcer.enforce rule target context ≡ ok true

  attr-Passes :
      (name : String) (v : Option Slot) (subs : List String)
      → Passes (attr_rule name v subs)
      → Passes (rule_check name)
  attr-Passes name none subs h = h
  attr-Passes name (some v) [] h = h
  attr-Passes name (some v) (sub ∷ subs) h = go (held v sub) refl h
    where
      go :
          (o : Option Bool)
          → held v sub ≡ o
          → Passes (attr_rule name (some v) (sub ∷ subs))
          → Passes (rule_check name)
      go none e h = rw (attr_rule, e) at h
      go (some b) e h = (engine.conjuncts _ _ target context (rw (attr_rule, e) at h)).0

  -- of each attribute that the target sets and whose policy is enforced
  abbrev SetPass : Dict Info → Type 0
  SetPass infos =
      (name : String) (info : Info)
      → lookup name infos ≡ some info
      → is_attribute_explicitly_set name info target action ≡ ok true
      → info.enforce_policy ≡ true
      → Passes (rule_check (action <> (":" <> name)))

  one_more :
      (name : String) (info : Info) (infos : Dict Info)
      → (is_attribute_explicitly_set name info target action ≡ ok true
          → info.enforce_policy ≡ true
          → Passes (rule_check (action <> (":" <> name))))
      → SetPass infos
      → SetPass ((name, info) ∷ infos)
  unfolding lookup
  one_more name info infos here rest n i m set_n forced = elim (Bool-cases (name == n)) [
    | inr other ↦ rest n i (rw other at m) set_n forced
    | inl same ↦
        let named : name ≡ n = ground (arith, eq_iff name n) in
        let found : info ≡ i = cc (rw same at m) in
        rw (← named) (here (rw (named, found) set_n) (rw found forced))
  ]

  next_added :
      (name : String) (info : Info) (infos : Dict Info) (rule r : MatchRule)
      → ((rule : MatchRule)
          → add_attr_rules action target infos rule ≡ ok r
          → Passes rule × SetPass infos)
      → (o : Result Bool) → is_attribute_explicitly_set name info target action ≡ o
      → add_attr_rules action target ((name, info) ∷ infos) rule ≡ ok r
      → Passes rule × SetPass ((name, info) ∷ infos)
  unfolding add_attr_rules
  next_added name info infos rule r rest (err x) eq e = absurd (cc (rw (add_attr_rules, eq) at e))
  next_added name info infos rule r rest (ok set) eq e =
      elim (Bool-cases (set && info.enforce_policy)) [
        | inl asked ↦
            let (passes, more) = rest _ (rw (add_attr_rules, eq, asked) at e) in
            let (here, attr) = engine.conjuncts _ _ target context passes in
            let own = attr-Passes _ _ _ (engine.conjuncts _ _ target context attr).0 in
            (here, one_more name info infos (λ set_here forced. own) more)
        | inr not_asked ↦
            let (passes, more) = rest rule (rw (add_attr_rules, eq, not_asked) at e) in
            (
              passes,
              one_more name info infos
                  (λ set_here forced.
                    absurd (cc (rw (ok_same set true (sym eq ∙ set_here), forced) at not_asked)))
                  more,
            )
      ]

  added :
      (infos : Dict Info) (rule r : MatchRule)
      → Passes r
      → add_attr_rules action target infos rule ≡ ok r
      → Passes rule × SetPass infos
  unfolding add_attr_rules lookup
  added [] rule r h e =
      let same : rule ≡ r = cc in (rw same h, λ name info m set_here forced. absurd (cc))
  added ((name, info) ∷ infos) rule r h e =
      next_added name info infos rule r (λ rule e. added infos rule r h e) _ refl e

  abbrev Passed : Dict (Dict Info) → Type 0
  Passed res_map =
      Passes (rule_check action)
      × ((infos : Dict Info)
          → (get_resource_and_action action).1 ≡ true
          → lookup (get_resource_and_action action).0 res_map ≡ some infos
          → SetPass infos)

  built :
      (res_map : Dict (Dict Info)) (rule : MatchRule)
      → build_match_rule res_map action target ≡ ok rule
      → Passes rule
      → Passed res_map
  unfolding build_match_rule
  built res_map rule e h = elim (Bool-cases (get_resource_and_action action).1) [
    | inr plain ↦
        let same : rule_check action ≡ rule = ok_rule (rw plain at e) in
        (rw same h, λ infos attrs. absurd (cc (rw plain at attrs)))
    | inl attrs ↦ go (lookup (get_resource_and_action action).0 res_map) refl (rw attrs at e)
  ]
    where
      go :
          (o : Option (Dict Info))
          → lookup (get_resource_and_action action).0 res_map ≡ o
          → (elim o [
            | none ↦ ok (rule_check action)
            | some infos ↦ add_attr_rules action target infos (rule_check action)
          ])
            ≡ ok rule
          → Passed res_map
      go none eq e =
          let same : rule_check action ≡ rule = ok_rule e in
          (rw same h, λ infos attrs found. absurd (cc (rw eq at found)))
      go (some infos) eq e =
          let (passes, set_pass) = added infos (rule_check action) rule h e in
          (
            passes,
            λ i attrs found. let same : infos ≡ i = cc (rw eq at found) in rw (← same) set_pass,
          )

  let_through :
      (o : Result MatchRule)
      → or_refused (elim o [ err e ↦ err e | ok rule ↦ enforcer.enforce rule target context ])
        ≡ ok tt
      → (rule : MatchRule) × (o ≡ ok rule) × Passes rule
  let_through (err x) e = absurd (cc)
  let_through (ok rule) e = (rule, refl, go (enforcer.enforce rule target context) refl e)
    where
      go :
          (o : Result Bool)
          → enforcer.enforce rule target context ≡ o
          → or_refused o ≡ ok tt
          → Passes rule
      go (ok true) eq e = eq
      go (ok false) eq e = absurd (cc)
      go (err x) eq e = absurd (cc)

  -- An action that is no get or delete, and that `enforce` lets through in a context that is no
  -- administrator's, has passed the rule of its name, and the rule `action:attribute` of every attribute
  -- of its resource that the target sets explicitly and that has `enforce_policy`. The engine is taken to
  -- let through with an AndCheck only what it lets through with each of its rules.
  pub enforce-passed :
      (res_map : Dict (Dict Info)) (infos : Dict Info) (name : String) (info : Info)
      → context.is_admin ≡ false
      → enforce enforcer res_map context action target ≡ ok tt
      → (get_resource_and_action action).1 ≡ true
      → lookup (get_resource_and_action action).0 res_map ≡ some infos
      → lookup name infos ≡ some info
      → is_attribute_explicitly_set name info target action ≡ ok true
      → info.enforce_policy ≡ true
      → Passes (rule_check action) × Passes (rule_check (action <> (":" <> name)))
  unfolding enforce
  enforce-passed res_map infos name info plain e attrs found here set forced =
      let (rule, made, passes) =
        let_through (build_match_rule res_map action target)
          (no_admin context.is_admin _ plain e) in
      let (first, each) = built res_map rule made passes in
      (first, each infos attrs found name info here set forced)
