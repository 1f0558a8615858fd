-- ===== src/Client/Wrapped.antt =====
-- The client that a duck client wraps: `reconcilers.Config` of `reconciler.io/runtime`, and the
-- conversion `duck.Convert`. It reads and writes a `World` that it shares with everybody else.
-- Its methods are polymorphic in the Go type of their object; here there is one operation for each
-- type at which `client/client.go` calls a method.
use ducks.Prelude.{String, Bool, List}
use ducks.Prelude.Exec.{Exec, Result}
use ducks.Schema.{GroupVersionKind, TypeMeta}
use ducks.Api.{Duck, DuckType}

-- A `client.Object` or a `client.ObjectList`: the kind that its type metadata names, and the rest.
pub record Object (Content : Type 0) : Type 0 where
  pub gvk : GroupVersionKind
  pub content : Content

pub record Upstream (S : Type 0) : Type 1 where
  pub World : Type 0
  pub Error : Type 0
  pub Key : Type 0
  pub Content : Type 0
  -- An item of an `unstructured.UnstructuredList`.
  pub Item : Type 0
  -- The options of reads, lists and deletes.
  pub Opts : Type 0
  -- `apierrs.IsNotFound`
  pub is_not_found : Error → Bool
  -- `Get` of a `DuckType` by its name, and `List` and `TrackAndList` of a `DuckList`.
  pub get_duck_type : String → Exec World Error (DuckType S)
  pub list_ducks : TypeMeta → Exec World Error (List (Duck S))
  pub track_and_list_ducks : TypeMeta → Exec World Error (List (Duck S))
  -- A read fills its object, whether it fails or not.
  pub get : Key → Opts → Object Content → World → Result Error Unit × Object Content × World
  pub track_and_get :
      Key → Opts → Object Content → World → Result Error Unit × Object Content × World
  -- `List` and `TrackAndList` of an unstructured list of the given kind.
  pub list : GroupVersionKind → Opts → Exec World Error (List Item)
  pub track_and_list : GroupVersionKind → Opts → Exec World Error (List Item)
  pub delete_all_of : Object Content → Opts → Exec World Error Unit
  -- The calls that a duck client passes on. A write fills its object.
  pub apply : Content → Opts → Exec World Error Unit
  pub create : Opts → Object Content → World → Result Error Unit × Object Content × World
  pub delete : Object Content → Opts → Exec World Error Unit
  pub update : Opts → Object Content → World → Result Error Unit × Object Content × World
  pub Patch : Type 0
  pub patch : Patch → Opts → Object Content → World → Result Error Unit × Object Content × World
  pub Scheme : Type 0
  pub RestMapper : Type 0
  pub scheme : Scheme
  pub rest_mapper : RestMapper
  pub is_object_namespaced : Object Content → Result Error Bool
  -- `duck.Convert(from, to)`: what it reports, and the list as it leaves it.
  pub convert : List Item → Object Content → Result Error Unit × Object Content
