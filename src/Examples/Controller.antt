-- ===== src/Examples/Controller.antt =====
-- The theorems on the controller at a concrete duck type and duck.
use ducks.Prelude.{
  String, Bool, true, inl, ◌≡◌, ◌↔◌, ◌⊎◌, refl, false, ◌&&◌, ◌==◌, List, [], ◌∷◌, Option, none,
  some, arith, eq_iff,
}
use ducks.Prelude.Text.{◌<>◌, has_dot}
use ducks.Prelude.Exec.{Result, ok}
use ducks.Schema.{GroupVersionKind}
use ducks.Api.{
  DuckType, Duck, duck_condition_set, duck_type_condition_set, duck_condition_rbac,
  duck_condition_available, duck_type_condition_rbac, duck_type_condition_established,
}
use ducks.Controller.Roles.{ClusterRole, duck_type_role, duck_role, view_verbs, identify_child}
use ducks.Controller.Roles.Names.{duck_role-same_name}
use ducks.Controller.Roles.Selection.{collects, collects-duck_role}
use ducks.Controller.Reflect.{
  ApiErrors, Crd, condition_true, duck_type_reflect_roles, duck_reflect_roles,
  duck_type_reflect_crd, reflect_crd,
}
use ducks.Controller.Reflect.Marks.{Marks}
use ducks.Controller.Reflect.Ready.{
  is_ok, Established, LacksDetails, passed_on, reflect_roles-Marks, duck_type_reflect_crd-Marks,
}
use ducks.Controller.Available.{ApiResource, sync}
use ducks.Controller.Available.Served.{answered, Reports, Names, sync-Reports}
use ducks.Examples.Instances.{text_schema, flags, flags_living}
use ducks.Examples.Webhook.{external_secrets, provisioned_services}

abbrev services_kind : GroupVersionKind
services_kind = record {
  group = "duck.servicebinding.io";
  version = "v1";
  kind = "ProvisionedService";
}

abbrev services_name : String
services_name = "provisionedservices.duck.servicebinding.io"

abbrev view_role : ClusterRole
view_role = duck_role text_schema services_kind services_name external_secrets "view" view_verbs

collects-duck_role_example :
    (collects (duck_type_role provisioned_services "view") view_role
      ≡ (services_name == provisioned_services.metadata.name && "view" == "view"))
    × (collects
          (duck_type_role provisioned_services "view")
          (duck_type_role provisioned_services "view")
        ≡ false)
collects-duck_role_example =
    collects-duck_role text_schema provisioned_services provisioned_services "view" services_kind
      services_name external_secrets "view" view_verbs

-- Two ducks of different types.
abbrev tables : Duck flags.Status
tables = record external_secrets {
  metadata = record external_secrets.metadata { name = "tables.data-store.example.com" };
}

abbrev stores : Duck flags.Status
stores = record external_secrets {
  metadata = record external_secrets.metadata { name = "store.example.com" };
}

-- Their view roles have the same name.
duck_role-same_name_example :
    ((identify_child
          (duck_role text_schema services_kind "volumes.example.com" tables "view" view_verbs)
        ≡ identify_child (
            duck_role text_schema services_kind "volumes.example.com-tables.data" stores "view"
              view_verbs))
      ↔ (("volumes.example.com" <> "-" <> tables.metadata.name
            ≡ "volumes.example.com-tables.data" <> "-" <> stores.metadata.name)
          × (◌≡◌ {A = String} "view" "view")))
    × ((identify_child (duck_type_role provisioned_services "view")
          ≡ identify_child (
              duck_role text_schema services_kind "volumes.example.com-tables.data" stores "view"
                view_verbs))
        ↔ ((provisioned_services.metadata.name
              ≡ "volumes.example.com-tables.data" <> "-" <> stores.metadata.name)
            × (◌≡◌ {A = String} "view" "view")))
duck_role-same_name_example =
    duck_role-same_name text_schema services_kind services_kind "volumes.example.com"
      "volumes.example.com-tables.data" tables stores provisioned_services "view" "view" view_verbs
      view_verbs (inl refl) (inl refl)

shared_name :
    identify_child
      (duck_role text_schema services_kind "volumes.example.com" tables "view" view_verbs)
    ≡ identify_child (
        duck_role text_schema services_kind "volumes.example.com-tables.data" stores "view"
          view_verbs)
unfolding identify_child duck_role
shared_name = refl

-- An error is the reason that it gives.
abbrev pub reasons : ApiErrors
reasons = record {
  Error = String;
  is_invalid = λ e. e == "Invalid";
  is_already_exists = λ e. e == "AlreadyExists";
  is_not_found = λ e. e == "NotFound";
  reason_for_error = λ e. e;
  details = λ e. none;
  err_quiet = "quiet";
}

reflect_roles-Marks_example :
    ((duck_type_reflect_roles flags reasons (some "Conflict") provisioned_services).0
      ≡ passed_on reasons (λ e. e) (some "Conflict"))
    × ((duck_reflect_roles flags reasons (some "Conflict") external_secrets).0
        ≡ passed_on reasons (λ e. e) (some "Conflict"))
    × Marks flags
        (duck_type_condition_set flags)
        duck_type_condition_rbac
        duck_type_condition_established
        (is_ok {E = String} (some "Conflict"))
        provisioned_services.status
        (duck_type_reflect_roles flags reasons (some "Conflict") provisioned_services).1.status
    × Marks flags
        (duck_condition_set flags)
        duck_condition_rbac
        duck_condition_available
        (is_ok {E = String} (some "Conflict"))
        external_secrets.status
        (duck_reflect_roles flags reasons (some "Conflict") external_secrets).1.status
reflect_roles-Marks_example =
    reflect_roles-Marks flags flags_living reasons (some "Conflict") provisioned_services
      external_secrets

abbrev pub established : Option Crd
established = some (record {
  name = services_name;
  conditions = record { type = "Established"; status = condition_true } ∷ [];
})

duck_type_reflect_crd-Marks_example :
    (LacksDetails reasons none
      × (duck_type_reflect_crd flags reasons established none provisioned_services ≡ none))
    ⊎ ((¬ LacksDetails reasons none)
        × (o : Option String × DuckType flags.Status) × (duck_type_reflect_crd flags reasons
              established none provisioned_services
            ≡ some o)
        × (o.0 ≡ passed_on reasons (λ e. "quiet") none)
        × (o.1 ≡ record provisioned_services { status = o.1.status })
        × (b : Bool) × ((b ≡ true) ↔ Established {E = String} established none)
        × Marks flags
            (duck_type_condition_set flags)
            duck_type_condition_established
            duck_type_condition_rbac
            b
            provisioned_services.status
            o.1.status)
duck_type_reflect_crd-Marks_example =
    duck_type_reflect_crd-Marks flags flags_living reasons established none provisioned_services

-- Another definition of the name, in an error without details.
exists_without_details :
    duck_type_reflect_crd flags reasons none (some "AlreadyExists") provisioned_services ≡ none
unfolding duck_type_reflect_crd reflect_crd
exists_without_details = refl

-- The resources that a server has for every group and version.
abbrev server : String → Result String (List ApiResource)
server version = ok (
    record { name = "secretstores"; kind = "SecretStore" }
    ∷ record { name = "externalsecrets"; kind = "ExternalSecret" }
    ∷ [])

external_secrets-Names : Names external_secrets "externalsecrets" "external-secrets.io"
unfolding Names has_dot
external_secrets-Names = (refl, refl, λ e. ground (arith, eq_iff "external-secrets.io" ""))

sync-Reports_example :
    Reports flags reasons
      (answered reasons "externalsecrets" "external-secrets.io" external_secrets.spec
        (server "external-secrets.io/v1beta1"))
      external_secrets
      (sync flags text_schema reasons server external_secrets)
sync-Reports_example =
    sync-Reports flags flags_living text_schema reasons server external_secrets "externalsecrets"
      "external-secrets.io" external_secrets-Names

-- A duck whose spec names another group than its name.
abbrev other_group : Duck flags.Status
other_group = record external_secrets {
  spec = record external_secrets.spec { group = "secrets.io" };
}

other_group_unserved :
    answered reasons "externalsecrets" "external-secrets.io" other_group.spec
      (server "external-secrets.io/v1beta1")
    ≡ ok false
other_group_unserved = refl
