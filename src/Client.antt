-- ===== src/Client.antt =====
-- The duck client of `client/client.go`: it finds the ducks of a duck type, fills in the version
-- of the resource that is asked for, and spreads lists and deletes over all resources.
pub mod Wrapped
pub mod Select
pub mod Lookup
pub mod Found
pub mod Reads
pub mod Spread
pub mod Deletes
pub mod Calls
use Prim.Native.Char.{Char}
use ducks.Prelude.{
  String, Bool, true, false, not, ◌&&◌, List, [], ◌∷◌, ◌++◌, Option, none, some, ◌==◌, ◌≡◌,
  if◌then◌else◌,
}
use ducks.Prelude.Text.{◌<>◌}
use ducks.Prelude.Exec.{Exec, Result, ok, err, pure, raise, map_error, map_result, ◌>>=◌, ◌>>◌}
use ducks.Schema.{Schema, GroupKind, GroupVersionKind, TypeMeta}
use ducks.Conditions.{Conditions}
use ducks.Api.{
  Duck, DuckType, ObjectMeta, condition_ready, duck_get_condition, duck_type_get_condition,
}
use ducks.Api.Webhook.{duck_type_default}
use Select.{Ducks, duck_type_is_ready, duck_list_meta, select_ducks, is_nil}
use Wrapped.{Upstream, Object}

-- The sentinel errors, and an error of the wrapped client.
pub data ClientError (E : Type 0) : Type 0 where
  unknown_duck_type unknown_duck duck_type_not_ready : ClientError E
  other : E → ClientError E

module _ (s : Schema) (c : Conditions) (lower : Char → Char) (u : Upstream c.Status) where
  open u use {World, Error, Key, Content, Item, Opts}

  abbrev pub Call : Type 0 → Type 0
  Call A = Exec World (ClientError Error) A

  abbrev pub lookup_error : Error → ClientError Error
  lookup_error e = if u.is_not_found e then unknown_duck_type else other e

  -- The list of a duck type's ducks, by the tracking method or the plain one.
  abbrev pub read_items : DuckType c.Status → Bool → Exec World Error (Ducks c)
  read_items t track =
      if track
      then u.track_and_list_ducks (duck_list_meta s c t)
      else u.list_ducks (duck_list_meta s c t)

  -- The end of `ducks`: nothing found is an error, unless everything was asked for.
  abbrev pub check_found : GroupKind → Ducks c → Call (Ducks c)
  check_found gk selected =
      if not (s.is_empty gk) && is_nil selected then raise unknown_duck else pure selected

  -- `ducks` of the client for the duck type `name`.
  unfoldable pub find_ducks : String → GroupKind → Bool → Call (Ducks c)
  unfolding duck_type_default
  find_ducks name gk track = do
    found ← map_error lookup_error (u.get_duck_type name)
    let duck_type = duck_type_default lower found
    if not (duck_type_is_ready c duck_type) then raise duck_type_not_ready else do
      items ← map_error other (read_items duck_type track)
      check_found gk (select_ducks s c gk items)

  -- `duck` wants exactly one.
  abbrev pub only_duck : Ducks c → Call (Duck c.Status)
  only_duck [] = raise unknown_duck
  only_duck (d ∷ []) = pure d
  only_duck (d ∷ d' ∷ ds) = raise unknown_duck

  unfoldable pub find_duck : String → GroupKind → Bool → Call (Duck c.Status)
  find_duck name gk track = do found ← find_ducks name gk track; only_duck found

  abbrev pub versioned : Object Content → Duck c.Status → Object Content
  versioned obj d = record obj { gvk = record obj.gvk { version = d.spec.version } }

  -- `setDuckVersion` returns the object with its version set; on an error the object is as it was.
  unfoldable pub set_duck_version : String → Object Content → Bool → Call (Object Content)
  set_duck_version name obj track = do
    d ← find_duck name (s.group_kind obj.gvk) track
    pure (versioned obj d)

  -- A call that writes to its object returns the object beside the result.
  abbrev pub Reply : Type 0
  Reply = Result (ClientError Error) Unit × Object Content × World

  abbrev pub lift_reply : Result Error Unit × Object Content × World → Reply
  lift_reply (ok a, obj, w) = (ok a, obj, w)
  lift_reply (err e, obj, w) = (err (other e), obj, w)

  -- The body of a read after `setDuckVersion`.
  abbrev pub then_read :
      Object Content
      → Result (ClientError Error) (Object Content) × World
      → (Object Content → World → Result Error Unit × Object Content × World)
      → Reply
  then_read obj (ok obj', w) read = lift_reply (read obj' w)
  then_read obj (err e, w) read = (err e, obj, w)

  pub get : String → Key → Opts → Object Content → World → Reply
  get name key opts obj w = then_read obj (set_duck_version name obj false w) (u.get key opts)

  pub track_and_get : String → Key → Opts → Object Content → World → Reply
  track_and_get name key opts obj w =
      then_read obj (set_duck_version name obj true w) (u.track_and_get key opts)

  -- The kinds that a list and a delete name for one duck.
  abbrev pub list_gvk : Duck c.Status → GroupVersionKind
  list_gvk d = record {
    group = d.spec.group;
    version = d.spec.version;
    kind = d.spec.kind <> "List";
  }

  abbrev pub duck_gvk : Duck c.Status → GroupVersionKind
  duck_gvk d = record { group = d.spec.group; version = d.spec.version; kind = d.spec.kind }

  -- The loop of `List` and `TrackAndList`, which append to `aggregate`.
  unfoldable pub list_each :
      (GroupVersionKind → Exec World Error (List Item)) → Ducks c → List Item → Call (List Item)
  list_each read [] aggregate = pure aggregate
  list_each read (d ∷ ds) aggregate = do
    items ← map_error other (read (list_gvk d))
    list_each read ds (aggregate ++ items)

  abbrev pub then_convert : Object Content → Result (ClientError Error) (List Item) × World → Reply
  then_convert target (err e, w) = (err e, target, w)
  then_convert target (ok items, w) =
      let (r, target') = u.convert items target in lift_reply (r, target', w)

  unfoldable pub list : String → Opts → Object Content → World → Reply
  unfolding list_each
  list name opts target w = then_convert target (
      (find_ducks name (s.group_kind target.gvk) false >>= λ found.
      list_each (λ gvk. u.list gvk opts) found [])
        w)

  pub track_and_list : String → Opts → Object Content → World → Reply
  unfolding list_each
  track_and_list name opts target w = then_convert target (
      (find_ducks name (s.group_kind target.gvk) true >>= λ found.
      list_each (λ gvk. u.track_and_list gvk opts) found [])
        w)

  -- The loop of `DeleteAllOf`, on a copy of the object for each duck.
  pub delete_each : Object Content → Opts → Ducks c → Call Unit
  delete_each obj opts [] = pure tt
  delete_each obj opts (d ∷ ds) = do
    map_error other (u.delete_all_of (record obj { gvk = duck_gvk d }) opts)
    delete_each obj opts ds

  pub delete_all_of : String → Object Content → Opts → Call Unit
  unfolding delete_each
  delete_all_of name obj opts = do
    found ← find_ducks name (s.group_kind obj.gvk) false
    delete_each obj opts found

  -- `GroupVersionKindFor` sets the version of a copy.
  unfoldable pub group_version_kind_for : String → Object Content → Call GroupVersionKind
  group_version_kind_for name obj = do obj' ← set_duck_version name obj false; pure obj'.gvk
