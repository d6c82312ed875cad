-- ===== src/Policy/Loader/Rules.antt =====
-- The rules section of a policy file (src/modelguard/policy/loader.py) and the rules of
-- src/modelguard/policy/engine.py, by their names.
use mathlib.Core.Path.{subst}
use mathlib.Core.Logic.{⊎_elim}
use mathlib.Core.List.Memᴰ
use modelguard.Base.{
  String, ◌≡◌, refl, sym, ap, ◌⊎◌, inl, inr, Bool, true, ◌&&◌, Option, some, List, [], ◌∷◌, All,
  Memᴰ, map, arith,
}
use modelguard.Base.{◌==◌, string_eq, contains, Memᴰ-append, Bool-cases, text_eq}
use modelguard.Base.Dict.{Dict, keys, get}
use modelguard.Base.Result.{ok, bind_elim, ok-injective}
use modelguard.Policy.Models.{RuleConfig, RuleResult, PolicyDocument}
use modelguard.Policy.Engine.{
  PolicyEvaluationContext, RuleCheck, rule_checks, evaluate, integrity_gate,
}
use modelguard.Policy.Engine.Outcomes.{
  active, when_enabled, outcome, reported, evaluate-rule_results,
}
use modelguard.Policy.Loader.{
  Key, Fields, empty_mapping, field, keys_of, key_text, is_name, known_rule_names, Conversions,
  rule_config, rule_configs, check_rule_names,
}

abbrev pub IsKnown : String → Type 0
IsKnown n = contains known_rule_names n ≡ true

right_of : (a b : Bool) → a && b ≡ true → b ≡ true
right_of a b h = ground arith

pub check_rule_names-Known :
    (conv : Conversions) (ks : List Key)
    → check_rule_names conv ks ≡ ok tt
    → All IsKnown (map key_text ks)
unfolding check_rule_names
check_rule_names-Known conv [] h = tt
check_rule_names-Known conv (k ∷ ks) h =
    elim (Bool-cases (is_name k && contains known_rule_names (key_text k))) [
      | inl known ↦ (
        right_of (is_name k) _ known,
        check_rule_names-Known conv ks (rw (known, check_rule_names) at h),
      )
      | inr unknown ↦ absurd (let e = rw (unknown, check_rule_names) at h in cc)
    ]

pub keys-rule_configs :
    (conv : Conversions) (fs : Fields) (d : Dict String RuleConfig)
    → rule_configs conv fs ≡ ok d
    → keys d ≡ map key_text (keys_of fs)
unfolding rule_configs keys_of
keys-rule_configs conv empty_mapping d h = rw (← ok-injective h) refl
keys-rule_configs conv (field k v fs) d h = bind_elim (rule_config conv v) _ h λ c at_c h1.
    bind_elim (rule_configs conv fs) _ h1
      λ rest at_rest h2. rw (← ok-injective h2, keys-rule_configs conv fs rest at_rest) refl

in_cons :
    (x y : String) (ys : List String)
    → contains (y ∷ ys) x ≡ true
    → (x ≡ y) ⊎ (contains ys x ≡ true)
in_cons x y ys h = ground arith

pub All-get :
    (P : String → Type 0) (d : Dict String RuleConfig) (n : String) (c : RuleConfig)
    → All P (keys d)
    → get d n ≡ some c
    → P n
unfolding get
All-get P [] n c h e = absurd (cc e)
All-get P ((k, v) ∷ d) n c (p, ps) e = elim (Bool-cases (n == k)) [
  | inl same ↦ subst P (sym (text_eq n k same)) p
  | inr other ↦ All-get P d n c ps (rw (other, get) at e)
]

pub contains-Memᴰ : (n : String) (xs : List String) → contains xs n ≡ true → Memᴰ n xs
contains-Memᴰ n [] h = absurd (cc h)
contains-Memᴰ n (x ∷ xs) h =
    ⊎_elim Memᴰ.head (λ m. Memᴰ.tail (contains-Memᴰ n xs m)) (in_cons n x xs h)

-- The rule of a name that is known.
pub rule_of_name :
    (rules : List RuleCheck) (n : String)
    → Memᴰ n (map (λ rc. rc.0) rules)
    → (rc : RuleCheck) × Memᴰ rc rules × (rc.0 ≡ n)
rule_of_name [] n m = absurd (Memᴰ.not-nil m)
rule_of_name (rc ∷ rules) n m =
    ⊎_elim (λ e. (rc, Memᴰ.head refl, sym e))
      (λ later. let (r, k, e) = rule_of_name rules n later in (r, Memᴰ.tail k, e))
      (Memᴰ.cases_cons m)

pub known_rules : map (λ rc. rc.0) rule_checks ≡ known_rule_names
unfolding rule_checks
known_rules = refl

Memᴰ-outcomes :
    (f : RuleCheck → RuleResult) (rc : RuleCheck) (rules : List RuleCheck)
    → Memᴰ rc rules
    → Memᴰ (f rc) (map f rules)
Memᴰ-outcomes f rc [] m = absurd (Memᴰ.not-nil m)
Memᴰ-outcomes f rc (r ∷ rules) m =
    ⊎_elim (λ e. Memᴰ.head (ap f e)) (λ later. Memᴰ.tail (Memᴰ-outcomes f rc rules later))
      (Memᴰ.cases_cons m)

pub active-get :
    (doc : PolicyDocument) (n : String) (config : RuleConfig)
    → get doc.rules n ≡ some config
    → active doc n ≡ when_enabled (some config)
unfolding active
active-get doc n config configured = rw configured refl

pub reported_of :
    (context : PolicyEvaluationContext) (doc : PolicyDocument) (config : Option RuleConfig)
    (id now : String) (rc : RuleCheck)
    → Memᴰ rc rule_checks
    → active doc rc.0 ≡ config
    → Memᴰ (reported context rc config) (evaluate context doc id now).rule_results
unfolding outcome
reported_of context doc config id now rc m on = rw (evaluate-rule_results context doc id now) (
    (Memᴰ-append _ (integrity_gate context).results (map (outcome context doc) rule_checks)).1 (
      inr (
        subst (λ o. Memᴰ (reported context rc o) (map (outcome context doc) rule_checks)) on
          (Memᴰ-outcomes (outcome context doc) rc rule_checks m))))

pub names_of :
    (conv : Conversions) (k : Key) (ks : List Key)
    → check_rule_names conv (k ∷ ks) ≡ ok tt
    → (is_name k ≡ true) × (check_rule_names conv ks ≡ ok tt)
unfolding check_rule_names
names_of conv k ks h = ground arith

pub same_either_way : (x y : String) → (x == y) ≡ (y == x)
same_either_way x y = ground arith
