-- ===== src/Controller/Assembled.antt =====
-- How `internal/controller/ducktype_controller.go` assembles its reconcilers: `DuckTypeReconciler`,
-- `DuckReconciler` and `DuckSubReconciler`, which runs a `DuckReconciler` in each sub-manager.
pub mod Fields
pub mod Starts
use Prim.Native.Char.{Char}
use ducks.Prelude.{ℕ, String, false, List, [], ◌∷◌, Option, none, some}
use ducks.Prelude.Text.{◌<>◌, to_lower}
use ducks.Prelude.Exec.{Result, ok, err}
use ducks.Schema.{Schema, GroupKind, GroupVersionKind, TypeMeta}
use ducks.Api.{DuckType}
use ducks.Routing.{local_types}
use ducks.SubManager.Platform.{Host}
use ducks.SubManager.{SubManagerReconciler}

-- The parts that run in sequence for a duck type and for a duck.
pub data DuckTypePart : Type 0 where
  cluster_roles custom_resource_definition sub_managers : DuckTypePart

pub data DuckPart : Type 0 where
  cluster_roles ready_check : DuckPart

-- A `ResourceReconciler` of `reconciler.io/runtime`, by the fields that are set: the kind of its
-- resources and the name of its controller, where they are not the default ones, the finalizer of
-- `WithFinalizer`, and the `Sequence`.
pub record ResourceReconciler (Config Part : Type 0) : Type 0 where
  pub config : Config
  pub type_meta : Option TypeMeta
  pub named : Option String
  pub finalizer : Option String
  pub sequence : List Part

-- `GroupVersion.Group` of `api/v1`.
abbrev pub duck_group : String
duck_group = "duck.reconciler.io"

abbrev pub reconciler_finalizer : String
reconciler_finalizer = duck_group <> "/reconciler"

unfoldable pub duck_type_reconciler :
    {Config : Type 0} → Config → ResourceReconciler Config DuckTypePart
duck_type_reconciler config = record {
  config = config;
  type_meta = none;
  named = none;
  finalizer = some reconciler_finalizer;
  sequence =
      DuckTypePart.cluster_roles ∷ DuckTypePart.custom_resource_definition
      ∷ DuckTypePart.sub_managers ∷ [];
}

-- What the assembly calls: `schema.FromAPIVersionAndKind`, `GroupKind.String`,
-- `reconcilers.NewConfig` with its period in seconds, and `SetupWithManager` of a reconciler.
pub record Kit (h : Host) (S : Type 0) : Type 1 where
  pub Config : Type 0
  pub from_api_version_and_kind : String → String → GroupVersionKind
  pub group_kind_string : GroupKind → String
  pub new_config : h.Manager → ℕ → Config
  pub setup_with_manager :
      ResourceReconciler Config DuckPart
      → h.Context
      → h.Manager
      → h.World
      → Result h.Error Unit × h.World
  -- The resources of the host are duck types.
  pub duck_type : h.Resource → DuckType S

-- Ten hours, in seconds.
abbrev pub sync_period : ℕ
sync_period = 36000

module _ (s : Schema) (lower : Char → Char) (h : Host) {S : Type 0} (k : Kit h S) where
  open h use {World, Error, Manager, Context, Resource}

  unfoldable pub duck_reconciler : k.Config → TypeMeta → ResourceReconciler k.Config DuckPart
  duck_reconciler config type_meta = record {
    config = config;
    type_meta = some type_meta;
    named = some (
        to_lower lower (
          k.group_kind_string
            (s.group_kind (k.from_api_version_and_kind type_meta.api_version type_meta.kind))));
    finalizer = none;
    sequence = DuckPart.cluster_roles ∷ DuckPart.ready_check ∷ [];
  }

  -- The kind of a duck type's ducks.
  abbrev pub duck_type_meta : DuckType S → TypeMeta
  duck_type_meta t = record {
    api_version = s.group_version_string (record { group = t.spec.group; version = "v1" });
    kind = t.spec.kind;
  }

  -- `SetupWithSubManager` of `DuckSubReconciler`.
  unfoldable pub setup_ducks : Context → Manager → Resource → World → Result Error Unit × World
  unfolding duck_reconciler
  setup_ducks ctx mgr resource w =
      k.setup_with_manager
        (duck_reconciler (k.new_config mgr sync_period) (duck_type_meta (k.duck_type resource))) ctx
        mgr w

  unfoldable pub duck_sub_reconciler : SubManagerReconciler h
  unfolding setup_ducks local_types
  duck_sub_reconciler = record {
    name = "";
    setup = none;
    sync_period = some sync_period;
    assert_finalizer = reconciler_finalizer;
    local_types = some (λ resource w. (ok (local_types (k.duck_type resource)), w));
    setup_with_sub_manager = some setup_ducks;
    initialized = false;
    mgr = none;
    managers = [];
  }
