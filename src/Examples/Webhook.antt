-- ===== src/Examples/Webhook.antt =====
-- The webhook theorems at concrete objects.
use ducks.Prelude.{String, ◌≡◌, ◌↔◌, refl, [], ◌∷◌, none, some}
use ducks.Prelude.Text.{◌<>◌, has_suffix, to_lower}
use ducks.Schema.{TypeMeta}
use ducks.Api.{ObjectMeta, Duck, DuckType}
use ducks.Api.Webhook.{
  duck_validate_create, duck_type_validate_create, duck_type_validate_update, duck_type_default,
}
use ducks.Api.Webhook.Accepts.{IsDuck, duck_validate_create-accepts}
use ducks.Api.Webhook.Defaults.{
  IsDuckType, duck_type_validate_create-accepts, duck_type_validate_update-create,
}
use ducks.Examples.Instances.{text_field, lower, lower_idem, flags}

abbrev pub meta_of : String → ObjectMeta
meta_of name = record {
  name = name;
  uid = "u-" <> name;
  deletion_timestamp = none;
  finalizers = [];
}

abbrev pub no_type : TypeMeta
no_type = record { api_version = ""; kind = "" }

-- The resources of the README.
abbrev pub external_secrets : Duck flags.Status
external_secrets = record {
  type_meta = no_type;
  metadata = meta_of "externalsecrets.external-secrets.io";
  spec = record { group = "external-secrets.io"; version = "v1beta1"; kind = "ExternalSecret" };
  status = flags.blank;
}

abbrev pub provisioned_services : DuckType flags.Status
provisioned_services = record {
  type_meta = no_type;
  metadata = meta_of "provisionedservices.duck.servicebinding.io";
  spec = record {
    group = "duck.servicebinding.io";
    plural = "provisionedservices";
    singular = "";
    kind = "ProvisionedService";
    list_kind = "";
  };
  status = flags.blank;
}

pub duck_accepted : (duck_validate_create text_field external_secrets).error ≡ none
unfolding duck_validate_create has_suffix
duck_accepted = refl

-- A group that is not the end of the name.
wrong_group_refused :
    (duck_validate_create text_field (record external_secrets {
      spec = record external_secrets.spec { group = "secrets.io" };
    })).error
    ≡ some (".spec.group: Invalid value: secrets.io: resource name must end with group" ∷ [])
unfolding duck_validate_create has_suffix
wrong_group_refused = refl

defaults_filled :
    (duck_type_default lower provisioned_services).spec ≡ record provisioned_services.spec {
      singular = "provisionedservice";
      list_kind = "ProvisionedServiceList";
    }
unfolding duck_type_default to_lower
defaults_filled = refl

duck_validate_create-accepts_example :
    (((duck_validate_create text_field external_secrets).error ≡ none) ↔ IsDuck external_secrets)
    × ((duck_validate_create text_field external_secrets).object ≡ external_secrets)
duck_validate_create-accepts_example = duck_validate_create-accepts text_field external_secrets

duck_type_validate_create-accepts_example :
    ((duck_type_validate_create text_field lower provisioned_services).error ≡ none)
    ↔ IsDuckType lower provisioned_services
duck_type_validate_create-accepts_example =
    duck_type_validate_create-accepts lower text_field lower_idem provisioned_services

abbrev checked : DuckType flags.Status
checked = (duck_type_validate_create text_field lower provisioned_services).object

duck_type_validate_update-create_example :
    ((duck_type_validate_update text_field lower provisioned_services checked).object ≡ checked)
    × ((duck_type_validate_update text_field lower provisioned_services checked).error
        ≡ (duck_type_validate_create text_field lower provisioned_services).error)
duck_type_validate_update-create_example =
    duck_type_validate_update-create lower text_field provisioned_services provisioned_services
