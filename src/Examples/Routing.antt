-- ===== src/Examples/Routing.antt =====
-- The theorems on the cache of a sub-manager at concrete caches.
use ducks.Prelude.{String, ◌≡◌, ◌↔◌, refl, Bool, true, List, [], ◌∷◌, In}
use ducks.Prelude.Text.{◌<>◌}
use ducks.Prelude.Exec.{ok}
use ducks.Schema.{GroupVersionKind}
use ducks.Api.{DuckType}
use ducks.Routing.{Kit, Cache, SubCache, is_local_kind}
use ducks.Routing.Sides.{Calls, side, calls_side}
use ducks.Examples.Instances.{text_schema, flags}
use ducks.Examples.Webhook.{provisioned_services}

-- Objects are their kinds, and the world is a log.
abbrev kit : Kit
kit = record {
  World = List String;
  Error = String;
  Object = GroupVersionKind;
  Key = String;
  Opts = Unit {0};
  Informer = String;
  Extract = Unit {0};
  group_version_kind_for = λ obj. ok obj;
}

abbrev named : String → Bool → Cache kit
named name synced = record {
  get = λ key opts obj w. (ok obj, (name <> key) ∷ w);
  list = λ opts obj w. (ok obj, name ∷ w);
  get_informer = λ obj opts w. (ok name, w);
  get_informer_for_kind = λ gvk opts w. (ok name, w);
  remove_informer = λ obj w. (ok tt, name ∷ w);
  start = λ w. (ok tt, name ∷ w);
  wait_for_cache_sync = λ w. (synced, name ∷ w);
  index_field = λ obj field extract w. (ok tt, field ∷ w);
}

abbrev services : DuckType flags.Status
services = record provisioned_services {
  spec = record provisioned_services.spec { list_kind = "ProvisionedServiceList" };
}

abbrev cache : SubCache text_schema kit
cache = record {
  types =
      record { group = "duck.servicebinding.io"; kind = "ProvisionedService" }
      ∷ record { group = "duck.servicebinding.io"; kind = "ProvisionedServiceList" }
      ∷ [];
  local = named "local" true;
  upstream = named "upstream" true;
}

abbrev services_list : GroupVersionKind
services_list = record {
  group = "duck.servicebinding.io";
  version = "v1";
  kind = "ProvisionedServiceList";
}

calls_side_example :
    Calls text_schema kit cache
      (side text_schema kit cache (is_local_kind text_schema kit cache services_list))
      services_list
      services_list
      []
    × ((is_local_kind text_schema kit cache services_list ≡ true)
        ↔ In (record { group = services_list.group; kind = services_list.kind }) cache.types)
calls_side_example = calls_side text_schema kit cache services_list services_list [] refl
