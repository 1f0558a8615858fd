-- ===== src/Examples/Lifecycle.antt =====
-- A duck that is created, reconciled and looked up.
use ducks.Prelude.{String, ◌≡◌, ◌↔◌, refl, inl, true, false, List, [], ◌∷◌, Option, none, some}
use ducks.Prelude.Text.{has_dot}
use ducks.Prelude.Exec.{Result, ok}
use ducks.Api.{Duck, DuckType}
use ducks.Api.Webhook.{duck_validate_create, duck_type_validate_create}
use ducks.Client.Wrapped.{Upstream}
use ducks.Client.Select.{duck_type_is_ready}
use ducks.Client.{find_ducks}
use ducks.Client.Found.{Found, AsksFor}
use ducks.Controller.Available.{ApiResource}
use ducks.Controller.Definition.{desired_definition}
use ducks.Controller.Reflect.{
  duck_type_reflect_roles, duck_type_reflect_crd, reflect_roles, reflect_crd,
}
use ducks.Controller.Reflect.Ready.{Established}
use ducks.Lifecycle.{reconciled, reconciled-Found}
use ducks.Lifecycle.Types.{reconciled_type, Answers, reconciled_type-Answers}
use ducks.Examples.Instances.{text_schema, lower, flags, flags_living, text_field}
use ducks.Examples.Webhook.{external_secrets, provisioned_services, duck_accepted}
use ducks.Examples.Controller.{reasons, established}
use ducks.Examples.Client.{server, services, name, secret_kind}

abbrev discovery : String → Result String (List ApiResource)
discovery version = ok (record { name = "externalsecrets"; kind = "ExternalSecret" } ∷ [])

abbrev secrets : Duck flags.Status
secrets = (reconciled flags text_schema reasons none discovery external_secrets).1

-- The API server after the reconcile.
abbrev after : Upstream flags.Status
after = record server { list_ducks = λ meta w. (ok (secrets ∷ []), w) }

reconciled-Found_example :
    Found text_schema flags lower after secrets
      (find_ducks text_schema flags lower after name secret_kind false [])
    ↔ ((◌≡◌ {A = Option String} none none)
        × (true ≡ true)
        × AsksFor text_schema flags lower after secret_kind external_secrets.spec)
unfolding duck_validate_create duck_type_is_ready has_dot
reconciled-Found_example =
    reconciled-Found text_schema flags lower after flags_living text_field reasons external_secrets
      "externalsecrets" none discovery true name secret_kind false services (secrets ∷ []) [] [] []
      duck_accepted refl refl refl refl refl refl (inl refl)

-- A duck type whose definition is established, and the API server that has it.
abbrev services_up : DuckType flags.Status
services_up = elim (reconciled_type flags reasons none established none provisioned_services) [
  | none ↦ provisioned_services
  | some out ↦ out.1
]

services_up_reconciled :
    reconciled_type flags reasons none established none provisioned_services
    ≡ some (none, services_up)
unfolding reconciled_type duck_type_reflect_roles duck_type_reflect_crd reflect_roles reflect_crd
services_up_reconciled = refl

abbrev with_services : Upstream flags.Status
with_services = record server { get_duck_type = λ n w. (ok services_up, w) }

reconciled_type-Answers_example :
    Answers text_schema flags lower with_services
      ((◌≡◌ {A = Option String} none none) × Established {E = String} established none)
      (desired_definition (duck_type_validate_create text_field lower provisioned_services).object)
      secret_kind
      false
      []
      (find_ducks text_schema flags lower with_services name secret_kind false [])
reconciled_type-Answers_example =
    reconciled_type-Answers text_schema flags lower with_services text_field reasons flags_living
      none established none provisioned_services name secret_kind false [] [] services_up_reconciled
      refl
