-- ===== src/Controller/Definition.antt =====
-- The custom resource definition that `DuckCustomResourceDefinitionChildReconciler` desires for a
-- duck type, with the schema of its ducks, and what an update takes from it.
use ducks.Prelude.{ℕ, String, Bool, true, List, [], ◌∷◌, Option, none, some}
use ducks.Prelude.Assoc.{Assoc}
use ducks.Api.{DuckType}

-- The validations of a value of `apiextensionsv1.JSONSchemaProps` that the definition uses.
pub record Rules : Type 0 where
  pub type : String
  pub format : String
  pub pattern : String
  pub enum : List String
  pub min_length : Option ℕ
  pub max_length : Option ℕ
  pub minimum : Option ℕ

-- `apiextensionsv1.JSONSchemaProps`: its rules, its properties, those that are required, and the
-- schema of its items.
mutual
  pub data JsonSchema : Type 0 where
    json_schema : Rules → Properties → List String → Items → JsonSchema

  pub data Properties : Type 0 where
    no_properties : Properties
    property : String → JsonSchema → Properties → Properties

  pub data Items : Type 0 where
    no_items : Items
    items : JsonSchema → Items

pub record PrinterColumn : Type 0 where
  pub json_path : String
  pub name : String
  pub type : String

-- `apiextensionsv1.CustomResourceDefinitionNames`
pub record DefinitionNames : Type 0 where
  pub plural : String
  pub singular : String
  pub kind : String
  pub list_kind : String
  pub categories : List String

-- `apiextensionsv1.CustomResourceDefinitionVersion`
pub record DefinitionVersion : Type 0 where
  pub name : String
  pub served : Bool
  pub storage : Bool
  pub selectable_fields : List String
  pub status_subresource : Bool
  pub additional_printer_columns : List PrinterColumn
  pub schema : JsonSchema

-- `apiextensionsv1.CustomResourceDefinitionSpec`
pub record DefinitionSpec : Type 0 where
  pub group : String
  pub scope : String
  pub names : DefinitionNames
  pub versions : List DefinitionVersion
  pub conversion : String

pub record CustomDefinition : Type 0 where
  pub name : String
  pub labels : Assoc String
  pub spec : DefinitionSpec

-- A schema without parts, and one of an object.
abbrev value : Rules → JsonSchema
value rules = json_schema rules no_properties [] no_items

abbrev typed : String → Rules
typed type = record {
  type = type;
  format = "";
  pattern = "";
  enum = [];
  min_length = none;
  max_length = none;
  minimum = none;
}

abbrev object : Properties → List String → JsonSchema
object properties required = json_schema (typed "object") properties required no_items

abbrev string : JsonSchema
string = value (typed "string")

-- A condition of the status.
abbrev condition_schema : JsonSchema
condition_schema =
    object
      (property "lastTransitionTime" (value (record (typed "string") { format = "date-time" })) (
        property "message" (value (record (typed "string") { max_length = some 32768 })) (
          property "observedGeneration"
            (value (record (typed "integer") { format = "int64"; minimum = some 0 }))
            (property "reason"
              (value (record (typed "string") {
                max_length = some 1024;
                min_length = some 1;
                pattern = "^[A-Za-z]([A-Za-z0-9_,:]*[A-Za-z0-9_])?$";
              }))
              (property "status"
                (value (record (typed "string") {
                  enum = "\"True\"" ∷ "\"False\"" ∷ "\"Unknown\"" ∷ [];
                }))
                (property "type"
                  (value (record (typed "string") {
                    max_length = some 316;
                    pattern =
                        "^([a-z0-9]([-a-z0-9]*[a-z0-9])?(\\.[a-z0-9]([-a-z0-9]*[a-z0-9])?)*/)?(([A-Za-z0-9][-A-Za-z0-9_.]*)?[A-Za-z0-9])$";
                  }))
                  no_properties))))))
      ("lastTransitionTime" ∷ "message" ∷ "reason" ∷ "status" ∷ "type" ∷ [])

abbrev spec_schema : JsonSchema
spec_schema =
    object
      (property "group" string (property "version" string (property "kind" string no_properties)))
      ("group" ∷ "version" ∷ "kind" ∷ [])

abbrev status_schema : JsonSchema
status_schema =
    object
      (property "conditions" (json_schema (typed "array") no_properties [] (items condition_schema))
        (property "observedGeneration" (value (record (typed "integer") { format = "int64" })) (
          property "resolved"
            (object (property "apiVersion" string (property "kind" string no_properties)) [])
            no_properties)))
      []

-- The schema of a duck.
abbrev pub duck_schema : JsonSchema
duck_schema =
    object
      (property "apiVersion" string (
        property "kind" string (
          property "metadata" (value (typed "object"))
            (property "spec" spec_schema (property "status" status_schema no_properties)))))
      []

abbrev pub duck_version : DefinitionVersion
duck_version = record {
  name = "v1";
  served = true;
  storage = true;
  selectable_fields = ".spec.group" ∷ ".spec.kind" ∷ [];
  status_subresource = true;
  additional_printer_columns =
      record {
        json_path = ".status.conditions[?(@.type==\"Ready\")].status";
        name = "Ready";
        type = "string";
      }
      ∷ record {
        json_path = ".status.conditions[?(@.type==\"Ready\")].reason";
        name = "Reason";
        type = "string";
      }
      ∷ record { json_path = ".metadata.creationTimestamp"; name = "Age"; type = "date" }
      ∷ [];
  schema = duck_schema;
}

-- `DesiredChild`; its error is always nil.
unfoldable pub desired_definition : {S : Type 0} → DuckType S → CustomDefinition
desired_definition resource = record {
  name = resource.metadata.name;
  labels = [];
  spec = record {
    group = resource.spec.group;
    scope = "Cluster";
    names = record {
      plural = resource.spec.plural;
      singular = resource.spec.singular;
      kind = resource.spec.kind;
      list_kind = resource.spec.list_kind;
      categories = "duck" ∷ [];
    };
    versions = duck_version ∷ [];
    conversion = "None";
  };
}

-- `MergeBeforeUpdate` returns the current definition.
unfoldable pub merge_definition : CustomDefinition → CustomDefinition → CustomDefinition
merge_definition current desired = record current { labels = desired.labels; spec = desired.spec }
