-- ===== src/Policy/Loader/Refused.antt =====
-- The exceptions of src/modelguard/policy/loader.py.
use mathlib.Core.Path.{subst}
use modelguard.Base.{
  ap, String, ◌≡◌, refl, Bool, true, false, ◌&&◌, Option, none, some, List, [], ◌∷◌, all, arith,
}
use modelguard.Base.{string_eq, contains, select, is_empty}
use modelguard.Base.Result.{
  Result, ok, err, ok-injective, require, ◌>>=◌, Raises, Raises-ok, Raises-err, Raises-raised,
  Raises->>=, Raises-if,
}
use modelguard.Exceptions.{
  Exception, policy_validation, unknown_rule, PolicyProblem, rules_not_a_mapping, unknown_top_level,
  unknown_policy_fields, no_named_policy,
}
use modelguard.Policy.Models.{RuleAction}
use modelguard.Policy.Loader.{
  Key, Yaml, null, text, plain, mapping, Fields, empty_mapping, field, keys_of, key_text, is_name,
  known_rule_names, PolicyFile, absent, malformed, unreadable, loaded, Conversions, refuse,
  or_default, at_least_zero, action_of, rule_config, rule_configs, check_rule_names, environment_of,
  field_of, sorted_keys, refuse_unknown, unknown_keys, named_section, as_mapping, rules_section,
  policy_document, parse_policy_document, load_policy_file,
}

-- `isinstance(exc, PolicyValidationError)`
unfoldable pub is_policy_error : Exception → Bool
is_policy_error (policy_validation _) = true
is_policy_error (unknown_rule _) = true
is_policy_error _ = false

abbrev IsRefusal : Exception → Type 0
IsRefusal e = is_policy_error e ≡ true

abbrev Refuses : {A : Type 0} → Result Exception A → Type 0
Refuses m = Raises IsRefusal m

Refuses-refuse : {A : Type 0} (o : Option A) → Refuses (refuse o)
unfolding is_policy_error
Refuses-refuse none = Raises-err IsRefusal _ _ refl
Refuses-refuse (some a) = Raises-ok IsRefusal a

Refuses-require : (b : Bool) (p : PolicyProblem) → Refuses (require b (policy_validation p))
unfolding is_policy_error
Refuses-require true p = Raises-ok IsRefusal tt
Refuses-require false p = Raises-err IsRefusal _ _ refl

-- A conversion that is refused ends a chain with a refusal.
refuse_then :
    {A B : Type 0} (o : Option A) (f : A → Result Exception B)
    → ((a : A) → Refuses (f a))
    → Refuses (refuse o >>= f)
refuse_then o f h = Raises->>= IsRefusal (refuse o) f (Refuses-refuse o) λ a _. h a

module _ (conv : Conversions) where
  rule_config-Refuses : (v : Yaml) → Refuses (rule_config conv v)
  unfolding rule_config is_policy_error
  rule_config-Refuses (mapping fields) =
      Raises->>= IsRefusal
        (require (is_empty (unknown_keys fields ("enabled" ∷ "on_fail" ∷ "max_count" ∷ []))) _) _
        (Refuses-require _ _)
        λ _ _. refuse_then (or_default conv.as_bool (field_of fields "enabled") true) _ λ _.
          refuse_then (or_default action_of (field_of fields "on_fail") RuleAction.deny) _ λ _.
            refuse_then
              (or_default (λ v. at_least_zero (conv.as_int v)) (field_of fields "max_count") 0) _
              λ _. Raises-ok IsRefusal _
  rule_config-Refuses null = Raises-err IsRefusal _ _ refl
  rule_config-Refuses (text s) = Raises-err IsRefusal _ _ refl
  rule_config-Refuses (plain s) = Raises-err IsRefusal _ _ refl

  rule_configs-Refuses : (fs : Fields) → Refuses (rule_configs conv fs)
  unfolding rule_configs
  rule_configs-Refuses empty_mapping = Raises-ok IsRefusal []
  rule_configs-Refuses (field k v fs) =
      Raises->>= IsRefusal (rule_config conv v) _ (rule_config-Refuses v) λ _ _.
        Raises->>= IsRefusal (rule_configs conv fs) _ (rule_configs-Refuses fs)
          λ _ _. Raises-ok IsRefusal _

  check_rule_names-Refuses : (ks : List Key) → Refuses (check_rule_names conv ks)
  unfolding check_rule_names is_policy_error
  check_rule_names-Refuses [] = Raises-ok IsRefusal tt
  check_rule_names-Refuses (k ∷ ks) =
      Raises-if IsRefusal (is_name k && contains known_rule_names (key_text k)) _ _
        (check_rule_names-Refuses ks) (Raises-err IsRefusal _ _ refl)

  environment_of-Refuses : (o : Option Yaml) → Refuses (environment_of conv o)
  unfolding environment_of
  environment_of-Refuses none = Raises-ok IsRefusal none
  environment_of-Refuses (some null) = Raises-ok IsRefusal none
  environment_of-Refuses (some (text s)) =
      refuse_then (conv.as_str (text s)) _ λ _. Raises-ok IsRefusal _
  environment_of-Refuses (some (plain s)) =
      refuse_then (conv.as_str (plain s)) _ λ _. Raises-ok IsRefusal _
  environment_of-Refuses (some (mapping s)) =
      refuse_then (conv.as_str (mapping s)) _ λ _. Raises-ok IsRefusal _

  policy_document-Refuses :
      (raw section : Fields) (named : Yaml) (rules : Fields)
      → Refuses (policy_document conv raw section named rules)
  unfolding policy_document
  policy_document-Refuses raw section named rules = refuse_then (conv.as_str named) _ λ _.
      Raises->>= IsRefusal (environment_of conv (field_of section "environment")) _
        (environment_of-Refuses (field_of section "environment"))
        λ _ _.
          Raises->>= IsRefusal (rule_configs conv rules) _ (rule_configs-Refuses rules)
            λ _ _. Raises-ok IsRefusal _

  as_mapping-Refuses : (v : Yaml) (p : PolicyProblem) → Refuses (as_mapping conv v p)
  unfolding as_mapping is_policy_error
  as_mapping-Refuses (mapping fields) p = Raises-ok IsRefusal fields
  as_mapping-Refuses null p = Raises-err IsRefusal _ _ refl
  as_mapping-Refuses (text s) p = Raises-err IsRefusal _ _ refl
  as_mapping-Refuses (plain s) p = Raises-err IsRefusal _ _ refl

  abbrev HasTextKeys : Fields → Type 0
  HasTextKeys fields = all is_name (keys_of fields) ≡ true

  named_field :
      (fields : Fields) (o : Option Yaml)
      → Refuses (elim o as (λ _. Result Exception (Fields × Yaml)) [
        | none ↦ err (policy_validation no_named_policy)
        | some v ↦ ok (fields, v)
      ])
  unfolding is_policy_error
  named_field fields none = Raises-err IsRefusal _ _ refl
  named_field fields (some v) = Raises-ok IsRefusal _

  named_section-Refuses : (o : Option Yaml) → Refuses (named_section conv o)
  unfolding named_section is_policy_error
  named_section-Refuses none = Raises-err IsRefusal _ _ refl
  named_section-Refuses (some (mapping fields)) = named_field fields (field_of fields "name")
  named_section-Refuses (some null) = Raises-err IsRefusal _ _ refl
  named_section-Refuses (some (text s)) = Raises-err IsRefusal _ _ refl
  named_section-Refuses (some (plain s)) = Raises-err IsRefusal _ _ refl

  all-select : (p q : Key → Bool) (ks : List Key) → all p ks ≡ true → all p (select q ks) ≡ true
  all-select p q [] h = refl
  all-select p q (k ∷ ks) h = ground (arith, all-select p q ks)

  unknown-Refuses :
      (problem : List String → PolicyProblem) (ks : List Key)
      → all is_name ks ≡ true
      → Refuses (refuse_unknown conv problem ks)
  unfolding refuse_unknown sorted_keys is_policy_error
  unknown-Refuses problem [] h = Raises-ok IsRefusal tt
  unknown-Refuses problem (k ∷ ks) h = rw (h, sorted_keys) (Raises-err IsRefusal _ _ refl)

  refuse_unknown-Refuses :
      (problem : List String → PolicyProblem) (fields : Fields) (allowed : List String)
      → HasTextKeys fields
      → Refuses (refuse_unknown conv problem (unknown_keys fields allowed))
  unfolding unknown_keys
  refuse_unknown-Refuses problem fields allowed h =
      unknown-Refuses problem _ (all-select is_name _ (keys_of fields) h)

  -- What a file holds where its mapping, and its `policy` section, have keys that are texts.
  abbrev pub HasNames : Yaml → Type 0
  HasNames (mapping fields) = HasTextKeys fields
  HasNames _ = Unit

  abbrev pub IsPlainFile : PolicyFile → Type 0
  IsPlainFile absent = Unit
  IsPlainFile malformed = Unit
  IsPlainFile (unreadable raised) = ⊥
  IsPlainFile (loaded null) = Unit
  IsPlainFile (loaded (text s)) = Unit
  IsPlainFile (loaded (plain s)) = Unit
  IsPlainFile (loaded (mapping fields)) =
      HasTextKeys fields × ((v : Yaml) → field_of fields "policy" ≡ some v → HasNames v)

  section_of_named :
      (fields : Fields) (o : Option Yaml) (section : Fields × Yaml)
      → (elim o as (λ _. Result Exception (Fields × Yaml)) [
        | none ↦ err (policy_validation no_named_policy)
        | some v ↦ ok (fields, v)
      ])
        ≡ ok section
      → fields ≡ section.0
  section_of_named fields none section h = absurd (cc h)
  section_of_named fields (some v) section h = ap (λ s. s.0) (ok-injective h)

  section-HasTextKeys :
      (o : Option Yaml) (section : Fields × Yaml)
      → named_section conv o ≡ ok section
      → ((v : Yaml) → o ≡ some v → HasNames v)
      → HasTextKeys section.0
  unfolding named_section
  section-HasTextKeys none section h names = absurd (cc h)
  section-HasTextKeys (some null) section h names = absurd (cc h)
  section-HasTextKeys (some (text s)) section h names = absurd (cc h)
  section-HasTextKeys (some (plain s)) section h names = absurd (cc h)
  section-HasTextKeys (some (mapping fields)) section h names =
      subst HasTextKeys (section_of_named fields (field_of fields "name") section h)
        (names (mapping fields) refl)

  parse-Refuses :
      (raw : Fields) → IsPlainFile (loaded (mapping raw)) → Refuses (parse_policy_document conv raw)
  unfolding parse_policy_document
  parse-Refuses raw (top, names) =
      Raises->>= IsRefusal
        (refuse_unknown conv unknown_top_level
          (unknown_keys raw ("version" ∷ "policy" ∷ "rules" ∷ [])))
        _ (refuse_unknown-Refuses unknown_top_level raw ("version" ∷ "policy" ∷ "rules" ∷ []) top)
        λ _ _.
          Raises->>= IsRefusal (named_section conv (field_of raw "policy")) _
            (named_section-Refuses (field_of raw "policy"))
            λ section at_section.
              Raises->>= IsRefusal (as_mapping conv (rules_section conv raw) rules_not_a_mapping) _
                (as_mapping-Refuses _ _)
                λ rules _.
                  Raises->>= IsRefusal
                    (refuse_unknown conv unknown_policy_fields
                      (unknown_keys section.0 ("name" ∷ "environment" ∷ [])))
                    _
                    (refuse_unknown-Refuses unknown_policy_fields section.0
                      ("name" ∷ "environment" ∷ [])
                      (section-HasTextKeys _ section at_section names))
                    λ _ _.
                      Raises->>= IsRefusal (check_rule_names conv (keys_of rules)) _
                        (check_rule_names-Refuses (keys_of rules))
                        λ _ _. policy_document-Refuses raw section.0 section.1 rules

  load-Refuses : (file : PolicyFile) → IsPlainFile file → Refuses (load_policy_file conv file)
  unfolding load_policy_file is_policy_error
  load-Refuses absent h = Raises-err IsRefusal _ _ refl
  load-Refuses malformed h = Raises-err IsRefusal _ _ refl
  load-Refuses (unreadable raised) h = absurd h
  load-Refuses (loaded (mapping raw)) h = parse-Refuses raw h
  load-Refuses (loaded null) h = Raises-err IsRefusal _ _ refl
  load-Refuses (loaded (text s)) h = Raises-err IsRefusal _ _ refl
  load-Refuses (loaded (plain s)) h = Raises-err IsRefusal _ _ refl

  -- Where the file can be read, and the keys of its mapping and of its `policy` section are texts,
  -- whatever the loader raises is a `PolicyValidationError`.
  pub load_policy_file-raises :
      (file : PolicyFile) (e : Exception)
      → IsPlainFile file
      → load_policy_file conv file ≡ err e
      → is_policy_error e ≡ true
  load_policy_file-raises file e h raised =
      Raises-raised IsRefusal (load_policy_file conv file) e (load-Refuses file h) raised
