-- ===== src/Examples/Client.antt =====
-- The client theorems over a small API server with one duck type and two ducks.
use ducks.Prelude.{String, ◌≡◌, refl, Bool, true, false, List, [], ◌∷◌, ◌==◌, if◌then◌else◌}
use ducks.Prelude.Text.{◌<>◌}
use ducks.Prelude.Exec.{ok, err}
use ducks.Schema.{GroupKind}
use ducks.Api.{Duck, DuckType}
use ducks.Api.Webhook.{duck_type_default}
use ducks.Client.Wrapped.{Upstream, Object}
use ducks.Client.Select.{duck_is_ready, duck_type_is_ready, matches_kind, select_ducks}
use ducks.Client.Lookup.{Finds, find_ducks-Finds}
use ducks.Client.Reads.{ReadsAs, get-ReadsAs}
use ducks.Client.Spread.{ListsAs, list-ListsAs}
use ducks.Client.Deletes.{DeletesAs, delete_all_of-DeletesAs}
use ducks.Client.{
  find_duck, list_each, find_ducks, set_duck_version, get, track_and_get, list, track_and_list,
  delete_all_of, group_version_kind_for,
}
use ducks.Examples.Instances.{text_schema, lower, flags}
use ducks.Examples.Webhook.{external_secrets, provisioned_services, meta_of, no_type}

abbrev ready : String → Bool
ready type = true

abbrev secrets : Duck flags.Status
secrets = record external_secrets { status = ready }

abbrev clusters : Duck flags.Status
clusters = record {
  type_meta = no_type;
  metadata = meta_of "clusters.postgresql.cnpg.io";
  spec = record { group = "postgresql.cnpg.io"; version = "v1"; kind = "Cluster" };
  status = ready;
}

abbrev pub services : DuckType flags.Status
services = record provisioned_services { status = ready }

abbrev pub name : String
name = "provisionedservices.duck.servicebinding.io"

abbrev concat : List String → String
concat [] = ""
concat (x ∷ xs) = x <> ", " <> concat xs

-- The world is the log of the writes; a text is an error, a key, an item and a content.
abbrev pub server : Upstream flags.Status
server = record {
  World = List String;
  Error = String;
  Key = String;
  Content = String;
  Item = String;
  Opts = Unit {0};
  is_not_found = λ e. e == "not found";
  get_duck_type = λ n w. (if n == name then ok services else err "not found", w);
  list_ducks = λ meta w. (ok (secrets ∷ clusters ∷ []), w);
  track_and_list_ducks = λ meta w. (ok (secrets ∷ clusters ∷ []), ("track " <> meta.kind) ∷ w);
  get = λ key opts obj w. (ok tt, record obj { content = key <> " " <> obj.gvk.version }, w);
  track_and_get = λ key opts obj w.
      (ok tt, record obj { content = key <> " " <> obj.gvk.version }, ("track " <> key) ∷ w);
  list = λ gvk opts w. (ok ((gvk.kind <> " " <> gvk.version) ∷ []), w);
  track_and_list =
      λ gvk opts w. (ok ((gvk.kind <> " " <> gvk.version) ∷ []), ("track " <> gvk.kind) ∷ w);
  delete_all_of = λ obj opts w. (ok tt, ("delete " <> obj.gvk.kind) ∷ w);
  apply = λ obj opts w. (ok tt, w);
  create = λ opts obj w. (ok tt, obj, w);
  delete = λ obj opts w. (ok tt, w);
  update = λ opts obj w. (ok tt, obj, w);
  Patch = String;
  patch = λ p opts obj w. (ok tt, obj, w);
  Scheme = Unit {0};
  RestMapper = Unit {0};
  scheme = tt;
  rest_mapper = tt;
  is_object_namespaced = λ obj. ok true;
  convert = λ items target. (ok tt, record target { content = concat items });
}

-- An object of the kind of the external secrets, with no version.
abbrev wanted : Object String
wanted = record {
  gvk = record { group = "external-secrets.io"; version = ""; kind = "ExternalSecret" };
  content = "";
}

-- A list of all kinds.
abbrev everything : Object String
everything = record { gvk = record { group = ""; version = ""; kind = "" }; content = "" }

abbrev pub secret_kind : GroupKind
secret_kind = record { group = "external-secrets.io"; kind = "ExternalSecret" }

version_found : group_version_kind_for text_schema flags lower server name wanted [] ≡ (
  ok (record { group = "external-secrets.io"; version = "v1beta1"; kind = "ExternalSecret" }),
  [],
)
unfolding group_version_kind_for set_duck_version find_duck find_ducks duck_type_is_ready
    select_ducks duck_is_ready matches_kind duck_type_default
version_found = refl

all_listed :
    (list text_schema flags lower server name tt everything []).1.content
    ≡ "ExternalSecretList v1beta1, ClusterList v1, "
unfolding list list_each find_ducks duck_type_is_ready select_ducks duck_is_ready matches_kind
    duck_type_default
all_listed = refl

find_ducks-Finds_example :
    Finds text_schema flags lower server name secret_kind true []
      (find_ducks text_schema flags lower server name secret_kind true [])
find_ducks-Finds_example = find_ducks-Finds text_schema flags lower server name secret_kind true []

get-ReadsAs_example :
    ReadsAs text_schema flags lower server name wanted false []
      (server.get "db" tt)
      (get text_schema flags lower server name "db" tt wanted [])
    × ReadsAs text_schema flags lower server name wanted true []
        (server.track_and_get "db" tt)
        (track_and_get text_schema flags lower server name "db" tt wanted [])
get-ReadsAs_example = get-ReadsAs text_schema flags lower server name "db" tt wanted []

list-ListsAs_example :
    ListsAs text_schema flags lower server name everything false []
      (λ gvk. server.list gvk tt)
      (list text_schema flags lower server name tt everything [])
    × ListsAs text_schema flags lower server name everything true []
        (λ gvk. server.track_and_list gvk tt)
        (track_and_list text_schema flags lower server name tt everything [])
list-ListsAs_example = list-ListsAs text_schema flags lower server name tt everything []

delete_all_of-DeletesAs_example :
    DeletesAs text_schema flags lower server name everything tt []
      (delete_all_of text_schema flags lower server name everything tt [])
delete_all_of-DeletesAs_example =
    delete_all_of-DeletesAs text_schema flags lower server name everything tt []
