-- ===== src/Client/Calls.antt =====
-- All calls of a duck client together: those that look ducks up, those that are passed on, and those
-- that panic.
use Prim.Native.Char.{Char}
use ducks.Prelude.{String, Bool, ◌≡◌, ◌↔◌, ◌⊎◌, inl, inr, refl, Option, none, some}
use ducks.Prelude.Exec.{Exec, Result, map_error}
use ducks.Schema.{Schema, GroupVersionKind}
use ducks.Conditions.{Conditions}
use ducks.Client.Wrapped.{Upstream, Object}
use ducks.Client
use ducks.Client.{ClientError, Reply, lift_reply}

module _ (s : Schema) (c : Conditions) (lower : Char → Char) (u : Upstream c.Status) where
  open u use {World, Error, Key, Content, Item, Opts, Patch, Scheme, RestMapper}

  -- A call with its arguments.
  pub data Request : Type 0 where
    get track_and_get : Key → Opts → Object Content → Request
    list track_and_list : Opts → Object Content → Request
    delete_all_of : Object Content → Opts → Request
    group_version_kind_for : Object Content → Request
    apply : Content → Opts → Request
    create update : Opts → Object Content → Request
    delete : Object Content → Opts → Request
    patch : Patch → Opts → Object Content → Request
    is_object_namespaced : Object Content → Request
    watch : Opts → Object Content → Request
    status scheme rest_mapper : Request
    sub_resource : String → Request

  -- What a call returns: an object beside the result, a result alone, a kind, or an answer.
  pub data Response : Type 0 where
    replied : Result (ClientError Error) Unit × Object Content × World → Response
    finished : Result (ClientError Error) Unit × World → Response
    kind_is : Result (ClientError Error) GroupVersionKind × World → Response
    namespaced : Result Error Bool × World → Response
    scheme_is : Scheme → Response
    rest_mapper_is : RestMapper → Response

  -- The calls that are passed on.
  unfoldable pub apply_passed : Content → Opts → Exec World (ClientError Error) Unit
  apply_passed obj opts = map_error ClientError.other (u.apply obj opts)

  unfoldable pub create_passed : Opts → Object Content → World → Reply s c lower u
  create_passed opts obj w = lift_reply s c lower u (u.create opts obj w)

  unfoldable pub delete_passed : Object Content → Opts → Exec World (ClientError Error) Unit
  delete_passed obj opts = map_error ClientError.other (u.delete obj opts)

  unfoldable pub update_passed : Opts → Object Content → World → Reply s c lower u
  update_passed opts obj w = lift_reply s c lower u (u.update opts obj w)

  unfoldable pub patch_passed : Patch → Opts → Object Content → World → Reply s c lower u
  patch_passed p opts obj w = lift_reply s c lower u (u.patch p opts obj w)

  -- A call of the client for the duck type `name`; `none` is a panic.
  pub serve : String → Request → World → Option Response
  unfolding apply_passed create_passed delete_passed update_passed patch_passed
  serve name (get key opts obj) w = some (replied (Client.get s c lower u name key opts obj w))
  serve name (track_and_get key opts obj) w =
      some (replied (Client.track_and_get s c lower u name key opts obj w))
  serve name (list opts target) w = some (replied (Client.list s c lower u name opts target w))
  serve name (track_and_list opts target) w =
      some (replied (Client.track_and_list s c lower u name opts target w))
  serve name (delete_all_of obj opts) w =
      some (finished (Client.delete_all_of s c lower u name obj opts w))
  serve name (group_version_kind_for obj) w =
      some (kind_is (Client.group_version_kind_for s c lower u name obj w))
  serve name (apply obj opts) w = some (finished (apply_passed obj opts w))
  serve name (create opts obj) w = some (replied (create_passed opts obj w))
  serve name (update opts obj) w = some (replied (update_passed opts obj w))
  serve name (delete obj opts) w = some (finished (delete_passed obj opts w))
  serve name (patch p opts obj) w = some (replied (patch_passed p opts obj w))
  serve name (is_object_namespaced obj) w = some (namespaced (u.is_object_namespaced obj, w))
  serve name scheme w = some (scheme_is u.scheme)
  serve name rest_mapper w = some (rest_mapper_is u.rest_mapper)
  serve name (watch opts target) w = none
  serve name status w = none
  serve name (sub_resource sub) w = none

  -- The calls that the client does not implement, and those that look ducks up.
  abbrev IsUnsupported : Request → Type 0
  IsUnsupported (watch opts target) = Unit
  IsUnsupported status = Unit
  IsUnsupported (sub_resource sub) = Unit
  IsUnsupported _ = ⊥

  abbrev LooksUp : Request → Type 0
  LooksUp (get key opts obj) = Unit
  LooksUp (track_and_get key opts obj) = Unit
  LooksUp (list opts target) = Unit
  LooksUp (track_and_list opts target) = Unit
  LooksUp (delete_all_of obj opts) = Unit
  LooksUp (group_version_kind_for obj) = Unit
  LooksUp _ = ⊥

  answered : {a : Response} → (some a ≡ none) ↔ ⊥
  answered = ((λ e. cc e), λ h. absurd h)

  -- A call panics exactly if it is `Watch`, `Status` or `SubResource`; and the duck type plays a part
  -- in those calls only that look ducks up, which are the reads, `DeleteAllOf` and
  -- `GroupVersionKindFor`.
  serve_lem :
      (name name' : String) (q : Request) (w : World)
      → ((serve name q w ≡ none) ↔ IsUnsupported q)
        × ((serve name q w ≡ serve name' q w) ⊎ LooksUp q)
  unfolding serve
  serve_lem name name' (get key opts obj) w = (answered, inr tt)
  serve_lem name name' (track_and_get key opts obj) w = (answered, inr tt)
  serve_lem name name' (list opts target) w = (answered, inr tt)
  serve_lem name name' (track_and_list opts target) w = (answered, inr tt)
  serve_lem name name' (delete_all_of obj opts) w = (answered, inr tt)
  serve_lem name name' (group_version_kind_for obj) w = (answered, inr tt)
  serve_lem name name' (apply obj opts) w = (answered, inl refl)
  serve_lem name name' (create opts obj) w = (answered, inl refl)
  serve_lem name name' (update opts obj) w = (answered, inl refl)
  serve_lem name name' (delete obj opts) w = (answered, inl refl)
  serve_lem name name' (patch p opts obj) w = (answered, inl refl)
  serve_lem name name' (is_object_namespaced obj) w = (answered, inl refl)
  serve_lem name name' scheme w = (answered, inl refl)
  serve_lem name name' rest_mapper w = (answered, inl refl)
  serve_lem name name' (watch opts target) w = ((λ e. tt, λ h. refl), inl refl)
  serve_lem name name' status w = ((λ e. tt, λ h. refl), inl refl)
  serve_lem name name' (sub_resource sub) w = ((λ e. tt, λ h. refl), inl refl)
