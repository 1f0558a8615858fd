-- ===== src/Routing.antt =====
-- The cache of a sub-manager, `internal/submanager/submanager.go`: it reads the local types from a
-- cache of its own and everything else from the cache of the main manager.
pub mod Sides
pub mod Setup
use ducks.Prelude.{
  String, ◌==◌, Bool, true, false, ◌&&◌, ◌||◌, List, [], ◌∷◌, Option, none, some, if◌then◌else◌,
}
use ducks.Prelude.Exec.{Exec, Result, ok, err}
use ducks.Schema.{Schema, GroupKind, GroupVersionKind}
use ducks.Api.{DuckType}

-- What a `cache.Cache` works on. A read fills its object.
pub record Kit : Type 1 where
  pub World : Type 0
  pub Error : Type 0
  pub Object : Type 0
  pub Key : Type 0
  pub Opts : Type 0
  pub Informer : Type 0
  -- `client.IndexerFunc`
  pub Extract : Type 0
  -- `GroupVersionKindFor` of the client.
  pub group_version_kind_for : Object → Result Error GroupVersionKind

-- The methods of a `cache.Cache`.
pub record Cache (k : Kit) : Type 0 where
  pub get : k.Key → k.Opts → k.Object → Exec k.World k.Error k.Object
  pub list : k.Opts → k.Object → Exec k.World k.Error k.Object
  pub get_informer : k.Object → k.Opts → Exec k.World k.Error k.Informer
  pub get_informer_for_kind : GroupVersionKind → k.Opts → Exec k.World k.Error k.Informer
  pub remove_informer : k.Object → Exec k.World k.Error Unit
  pub start : Exec k.World k.Error Unit
  pub wait_for_cache_sync : k.World → Bool × k.World
  pub index_field : k.Object → String → k.Extract → Exec k.World k.Error Unit

-- The set of the local types, with the test of `sets.Set`.
abbrev pub same_kind : GroupKind → GroupKind → Bool
same_kind a b = a.group == b.group && a.kind == b.kind

unfoldable pub has_kind : List GroupKind → GroupKind → Bool
has_kind [] gk = false
has_kind (x ∷ xs) gk = same_kind x gk || has_kind xs gk

-- `DuckSubReconciler` makes the kinds of a duck type's ducks and of their lists local.
unfoldable pub local_types : {S : Type 0} → DuckType S → List GroupKind
local_types resource =
    record { group = resource.spec.group; kind = resource.spec.kind }
    ∷ record { group = resource.spec.group; kind = resource.spec.list_kind }
    ∷ []

module _ (s : Schema) (k : Kit) where
  -- The struct `Cache`; its client is that of the kit.
  pub record SubCache : Type 0 where
    pub types : List GroupKind
    pub local : Cache k
    pub upstream : Cache k

  -- `isLocalKind`
  unfoldable pub is_local_kind : SubCache → GroupVersionKind → Bool
  unfolding has_kind
  is_local_kind c gvk = has_kind c.types (s.group_kind gvk)

  abbrev pub local_of : SubCache → Result k.Error GroupVersionKind → Option Bool
  local_of c (ok gvk) = some (is_local_kind c gvk)
  local_of c (err e) = none

  -- `isLocal`; `none` is its panic.
  unfoldable pub is_local : SubCache → k.Object → Option Bool
  unfolding is_local_kind
  is_local c obj = local_of c (k.group_version_kind_for obj)

  -- The branches of a method: a call of the one cache or of the other, or the panic.
  abbrev pub route : {A : Type 0} → Option Bool → (Cache k → A) → SubCache → Option A
  route none call c = none
  route (some is) call c = some (if is then call c.local else call c.upstream)

  unfoldable pub get :
      SubCache → k.Key → k.Opts → k.Object → k.World → Option (Result k.Error k.Object × k.World)
  unfolding is_local
  get c key opts obj w = route (is_local c obj) (λ to. to.get key opts obj w) c

  unfoldable pub list :
      SubCache → k.Opts → k.Object → k.World → Option (Result k.Error k.Object × k.World)
  unfolding is_local
  list c opts obj w = route (is_local c obj) (λ to. to.list opts obj w) c

  unfoldable pub get_informer :
      SubCache → k.Object → k.Opts → k.World → Option (Result k.Error k.Informer × k.World)
  unfolding is_local
  get_informer c obj opts w = route (is_local c obj) (λ to. to.get_informer obj opts w) c

  unfoldable pub get_informer_for_kind :
      SubCache → GroupVersionKind → k.Opts → k.World → Option (Result k.Error k.Informer × k.World)
  unfolding is_local_kind
  get_informer_for_kind c gvk opts w =
      route (some (is_local_kind c gvk)) (λ to. to.get_informer_for_kind gvk opts w) c

  unfoldable pub remove_informer :
      SubCache → k.Object → k.World → Option (Result k.Error Unit × k.World)
  unfolding is_local
  remove_informer c obj w = route (is_local c obj) (λ to. to.remove_informer obj w) c

  unfoldable pub index_field :
      SubCache → k.Object → String → k.Extract → k.World → Option (Result k.Error Unit × k.World)
  unfolding is_local
  index_field c obj field extract w =
      route (is_local c obj) (λ to. to.index_field obj field extract w) c

  -- `Start` runs the local cache only.
  unfoldable pub start : SubCache → k.World → Result k.Error Unit × k.World
  start c w = c.local.start w

  abbrev pub and_wait : Bool × k.World → (k.World → Bool × k.World) → Bool × k.World
  and_wait (false, w) next = (false, w)
  and_wait (true, w) next = next w

  -- `WaitForCacheSync` asks the local cache only if the other one is synchronized.
  unfoldable pub wait_for_cache_sync : SubCache → k.World → Bool × k.World
  wait_for_cache_sync c w = and_wait (c.upstream.wait_for_cache_sync w) c.local.wait_for_cache_sync

-- The parts of `manager.Options` that `New` sets.
pub record Options (Scheme : Type 0) : Type 0 where
  pub scheme : Option Scheme
  pub skip_name_validation : Option Bool
  pub bind_address : String
  pub leader_election : Bool

abbrev pub or_else : {A : Type 0} → Option A → A → Option A
or_else none a = some a
or_else (some b) a = some b

-- The options with which `New` makes the sub-manager, given the scheme of the main manager.
unfoldable pub new_options : {Scheme : Type 0} → Scheme → Options Scheme → Options Scheme
new_options scheme opts = record {
  scheme = or_else opts.scheme scheme;
  skip_name_validation = or_else opts.skip_name_validation true;
  bind_address = if opts.bind_address == "" then "0" else opts.bind_address;
  leader_election = false;
}

-- The cache that `New` makes from its own cache and that of the main manager.
unfoldable pub new_cache :
    (s : Schema) (k : Kit)
    → Result k.Error (Cache k)
    → Cache k
    → List GroupKind
    → Result k.Error (SubCache s k)
new_cache s k (err e) upstream types = err e
new_cache s k (ok local) upstream types =
    ok (record { types = types; local = local; upstream = upstream })
