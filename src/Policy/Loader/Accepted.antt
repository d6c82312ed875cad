-- ===== src/Policy/Loader/Accepted.antt =====
-- A policy that src/modelguard/policy/loader.py accepts, and what src/modelguard/policy/engine.py
-- makes of its rules.
use mathlib.Core.Option.{some-injective}
use modelguard.Base.{String, ◌≡◌, refl, ap, ◌∙◌, inl, inr, some, [], ◌∷◌, All, Memᴰ}
use modelguard.Base.{◌==◌, string_eq, Bool-cases}
use modelguard.Base.Dict.{Dict, keys, get}
use modelguard.Base.Result.{ok, bind_elim, ok-injective}
use modelguard.Exceptions.{
  not_a_mapping, rules_not_a_mapping, unknown_top_level, unknown_policy_fields,
}
use modelguard.Policy.Models.{RuleConfig, PolicyDocument}
use modelguard.Policy.Engine.{PolicyEvaluationContext, RuleCheck, rule_checks, evaluate}
use modelguard.Policy.Engine.Outcomes.{when_enabled, reported}
use modelguard.Policy.Loader.{
  Fields, empty_mapping, Yaml, mapping, name, unnamed, field, keys_of, known_rule_names, PolicyFile,
  absent, malformed, unreadable, loaded, Conversions, rule_config, rule_configs, check_rule_names,
  policy_document, parse_policy_document, load_policy_file, refuse, environment_of, field_of,
  refuse_unknown, unknown_keys, named_section, as_mapping, rules_section,
}
use modelguard.Policy.Loader.Rules.{
  IsKnown, check_rule_names-Known, keys-rule_configs, All-get, contains-Memᴰ, rule_of_name,
  known_rules, active-get, reported_of, names_of, same_either_way,
}

module _ (conv : Conversions) where
  get-rule_configs :
      (fs : Fields) (d : Dict String RuleConfig) (n : String) (value : Yaml)
      → check_rule_names conv (keys_of fs) ≡ ok tt
      → rule_configs conv fs ≡ ok d
      → field_of fs n ≡ some value
      → (config : RuleConfig) × (rule_config conv value ≡ ok config) × (get d n ≡ some config)
  unfolding rule_configs keys_of field_of get
  get-rule_configs empty_mapping d n value c h at_n = absurd (cc at_n)
  get-rule_configs (field (unnamed k) v fs) d n value c h at_n =
      absurd (let e = (names_of conv (unnamed k) (keys_of fs) c).0 in cc e)
  get-rule_configs (field (name k) v fs) d n value c h at_n =
      bind_elim (rule_config conv v) _ h λ first at_first h1.
        bind_elim (rule_configs conv fs) _ h1 λ rest at_rest h2. elim (Bool-cases (k == n)) [
          | inl found ↦
              let is_value : v ≡ value = some-injective v value (rw found at at_n) in
              (
                first,
                rw (← is_value) at_first,
                rw (← ok-injective h2, same_either_way n k, found) refl,
              )
          | inr other ↦
              let (config, at_config, held) =
                get-rule_configs fs rest n value (names_of conv (name k) (keys_of fs) c).1 at_rest
                  (rw other at at_n) in
              (config, at_config, rw (← ok-injective h2, same_either_way n k, other) held)
        ]

  rules-policy_document :
      (raw section : Fields) (named : Yaml) (rules : Fields) (doc : PolicyDocument)
      → policy_document conv raw section named rules ≡ ok doc
      → rule_configs conv rules ≡ ok doc.rules
  unfolding policy_document
  rules-policy_document raw section named rules doc h =
      bind_elim (refuse (conv.as_str named)) _ h λ policy_name at_name h1.
        bind_elim (environment_of conv (field_of section "environment")) _ h1
          λ environment at_environment h2.
            bind_elim (rule_configs conv rules) _ h2
              λ configs at_configs h3. at_configs ∙ ap (λ d. ok d.rules) (ok-injective h3)

  parse-Known :
      (raw : Fields) (doc : PolicyDocument)
      → parse_policy_document conv raw ≡ ok doc
      → All IsKnown (keys doc.rules)
  unfolding parse_policy_document
  parse-Known raw doc h =
      bind_elim
        (refuse_unknown conv unknown_top_level
          (unknown_keys raw ("version" ∷ "policy" ∷ "rules" ∷ [])))
        _ h
        λ _ top h1.
          bind_elim (named_section conv (field_of raw "policy")) _ h1 λ section at_section h2.
            bind_elim (as_mapping conv (rules_section conv raw) rules_not_a_mapping) _ h2
              λ rules at_rules h3.
                bind_elim
                  (refuse_unknown conv unknown_policy_fields
                    (unknown_keys section.0 ("name" ∷ "environment" ∷ [])))
                  _ h3
                  λ _ fields h4.
                    bind_elim (check_rule_names conv (keys_of rules)) _ h4 λ _ checked h5.
                      rw
                        (keys-rule_configs conv rules doc.rules
                          (rules-policy_document raw section.0 section.1 rules doc h5))
                        (check_rule_names-Known conv (keys_of rules) checked)

  load-Known :
      (file : PolicyFile) (doc : PolicyDocument)
      → load_policy_file conv file ≡ ok doc
      → All IsKnown (keys doc.rules)
  unfolding load_policy_file
  load-Known absent doc h = absurd (cc h)
  load-Known malformed doc h = absurd (cc h)
  load-Known (unreadable e) doc h = absurd (cc h)
  load-Known (loaded value) doc h =
      bind_elim (as_mapping conv value not_a_mapping) _ h
        λ raw at_raw parsed. parse-Known raw doc parsed

  -- The rules of a policy that is accepted are those of the file.
  rules-parse :
      (raw rules : Fields) (doc : PolicyDocument)
      → field_of raw "rules" ≡ some (mapping rules)
      → parse_policy_document conv raw ≡ ok doc
      → (check_rule_names conv (keys_of rules) ≡ ok tt) × (rule_configs conv rules ≡ ok doc.rules)
  unfolding parse_policy_document as_mapping
  rules-parse raw rules doc at_rules h =
      bind_elim
        (refuse_unknown conv unknown_top_level
          (unknown_keys raw ("version" ∷ "policy" ∷ "rules" ∷ [])))
        _ h
        λ _ top h1.
          bind_elim (named_section conv (field_of raw "policy")) _ h1 λ section at_section h2.
            bind_elim (as_mapping conv (mapping rules) rules_not_a_mapping) _ (rw at_rules at h2)
              λ found at_found h3.
                bind_elim
                  (refuse_unknown conv unknown_policy_fields
                    (unknown_keys section.0 ("name" ∷ "environment" ∷ [])))
                  _ h3
                  λ _ fields h4.
                    bind_elim (check_rule_names conv (keys_of found)) _ h4 λ _ checked h5.
                      rw (ok-injective at_found)
                        (checked, rules-policy_document raw section.0 section.1 found doc h5)

  -- Each entry of the `rules` section of an accepted policy file, found by its name, is converted to a
  -- configuration, which the loaded policy holds under that name; the engine has a check by that name,
  -- and every evaluation of the policy reports it with this configuration: with the verdict of the
  -- check and the configured action if the entry enables it, and as not configured if it does not.
  pub loaded_rule_is_evaluated :
      (raw rules : Fields) (doc : PolicyDocument) (n : String) (value : Yaml)
      → load_policy_file conv (loaded (mapping raw)) ≡ ok doc
      → field_of raw "rules" ≡ some (mapping rules)
      → field_of rules n ≡ some value
      → (config : RuleConfig) × (check : RuleCheck) × (rule_config conv value ≡ ok config)
        × (get doc.rules n ≡ some config)
        × Memᴰ check rule_checks
        × (check.0 ≡ n)
        × ((context : PolicyEvaluationContext) (id now : String)
            → Memᴰ
                (reported context check (when_enabled (some config)))
                (evaluate context doc id now).rule_results)
  unfolding load_policy_file as_mapping
  loaded_rule_is_evaluated raw rules doc n value accepted at_rules at_n =
      let (named, converted) = rules-parse raw rules doc at_rules accepted in
      let (config, at_config, held) =
        get-rule_configs rules doc.rules n value named converted at_n in
      let known =
        All-get IsKnown doc.rules n config (load-Known (loaded (mapping raw)) doc accepted) held in
      let (check, listed, by_name) =
        rule_of_name rule_checks n (rw known_rules (contains-Memᴰ n known_rule_names known)) in
      (
        config,
        check,
        at_config,
        held,
        listed,
        by_name,
        λ context id now.
            reported_of context doc (when_enabled (some config)) id now check listed
              (rw by_name (active-get doc n config held)),
      )
