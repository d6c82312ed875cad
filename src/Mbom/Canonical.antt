-- ===== src/Mbom/Canonical.antt =====
-- `MLBOM.canonical_json` of src/modelguard/mbom/models.py: the members by their aliases, with those
-- that are `None` left out.
use modelguard.Base.{String, Option, none, some, List, [], ◌∷◌}
use modelguard.Base.Bytes.{Bytes}
use modelguard.Base.Json.{
  Json, text, number, array, object, Items, nil, cons, Members, end, member, dumps,
}
use modelguard.Mbom.{
  EvidenceLevel, declared, signed, verified, independently_tested, human_approved, EvidencedField,
  MlBomProperties, MlBomComponent, MlBom,
}

unfoldable pub evidence_text : EvidenceLevel → String
evidence_text declared = "DECLARED"
evidence_text signed = "SIGNED"
evidence_text verified = "VERIFIED"
evidence_text independently_tested = "INDEPENDENTLY_TESTED"
evidence_text human_approved = "HUMAN_APPROVED"

unfoldable pub field_json : EvidencedField → Json
unfolding evidence_text
field_json f =
    object (member "value" (text f.value) (member "evidence" (text (evidence_text f.evidence)) end))

unfoldable pub field_items : List EvidencedField → Items
unfolding field_json
field_items [] = nil
field_items (f ∷ fs) = cons (field_json f) (field_items fs)

unfoldable pub optional_field : String → Option EvidencedField → Members → Members
unfolding field_json
optional_field name none rest = rest
optional_field name (some f) rest = member name (field_json f) rest

unfoldable pub properties_json : MlBomProperties → Json
unfolding field_items optional_field
properties_json p = object (
    member "artifact_digest" (text p.artifact_digest) (
      member "artifact_type" (text p.artifact_type) (
        member "parent_models" (array (field_items p.parent_models)) (
          member "dataset_references" (array (field_items p.dataset_references)) (
            optional_field "training_code_commit" p.training_code_commit (
              optional_field "framework" p.framework (
                optional_field "license" p.license
                  (member "trust_status" (text p.trust_status) end))))))))

unfoldable pub component_items : List MlBomComponent → Items
component_items [] = nil
component_items (c ∷ cs) =
    cons
      (object (
        member "type" (text c.kind) (
          member "name" (text c.name)
            (elim c.version [ none ↦ end | some v ↦ member "version" (text v) end ]))))
      (component_items cs)

unfoldable pub mbom_json : MlBom → Json
unfolding properties_json component_items
mbom_json m = object (
    member "bomFormat" (text m.bom_format) (
      member "specVersion" (text m.spec_version) (
        member "schema_version" (text m.schema_version) (
          member "serialNumber" (text m.serial_number) (
            member "version" (number m.version) (
              member "metadata"
                (object (
                  member "timestamp" (text m.metadata.timestamp) (
                    member "tool_name" (text m.metadata.tool_name)
                      (member "tool_version" (text m.metadata.tool_version) end))))
                (member "components" (array (component_items m.components))
                  (member "modelguard" (properties_json m.properties) end))))))))

unfoldable pub mbom_canonical_json : MlBom → Bytes
unfolding mbom_json dumps
mbom_canonical_json m = dumps (mbom_json m)
