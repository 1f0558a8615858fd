-- ===== src/Schema.antt =====
-- The package `k8s.io/apimachinery/pkg/runtime/schema`, of which the program uses the plain
-- structs and a few functions. The structs are records with the fields of the package; the
-- functions are the fields of `Schema`, each with what its documentation says of it.
use ducks.Prelude.{String, ◌≡◌, ◌≢◌, ◌↔◌, Bool, true, false}
use ducks.Prelude.Text.{◌<>◌, has_dot}

pub record GroupKind : Type 0 where
  pub group : String
  pub kind : String

pub record GroupVersion : Type 0 where
  pub group : String
  pub version : String

pub record GroupResource : Type 0 where
  pub group : String
  pub resource : String

pub record GroupVersionKind : Type 0 where
  pub group : String
  pub version : String
  pub kind : String

pub record GroupVersionResource : Type 0 where
  pub group : String
  pub version : String
  pub resource : String

-- `metav1.TypeMeta`.
pub record TypeMeta : Type 0 where
  pub api_version : String
  pub kind : String

pub record Schema : Type 0 where
  -- `ParseGroupResource` splits a name at its first dot.
  pub parse_group_resource : String → GroupResource
  pub parse_group_resource_lem :
      (resource group : String)
      → has_dot resource ≡ false
      → parse_group_resource (resource <> "." <> group)
        ≡ record { group = group; resource = resource }
  -- `GroupResource.String` is `resource.group`, or `resource` in the core group.
  pub group_resource_string : GroupResource → String
  pub group_resource_string_lem :
      (resource group : String)
      → group ≢ ""
      → group_resource_string (record { group = group; resource = resource })
        ≡ resource <> "." <> group
  -- `GroupVersion.String`.
  pub group_version_string : GroupVersion → String
  -- `GroupResource.WithVersion`.
  pub with_version : GroupResource → String → GroupVersionResource
  pub with_version_lem :
      (gr : GroupResource) (version : String)
      → with_version gr version
        ≡ record { group = gr.group; version = version; resource = gr.resource }
  -- `GroupVersionKind.GroupKind` forgets the version.
  pub group_kind : GroupVersionKind → GroupKind
  pub group_kind_lem :
      (gvk : GroupVersionKind) → group_kind gvk ≡ record { group = gvk.group; kind = gvk.kind }
  -- `GroupKind.Empty` says whether both parts are empty.
  pub is_empty : GroupKind → Bool
  pub is_empty_iff : (gk : GroupKind) → (is_empty gk ≡ true) ↔ ((gk.group ≡ "") × (gk.kind ≡ ""))
