-- ===== src/Broker/Informers.antt =====
-- The runnable of `NewBroker` in `client/broker.go`: it watches the ducks of a duck type, and keeps
-- an informer, with a registration of the broker's handlers, for the resource of each ready duck.
pub mod Paired
pub mod Entries
pub mod Handlers
pub mod Watched
use ducks.Prelude.{
  String, Bool, true, false, not, List, [], ◌∷◌, Option, none, some, if◌then◌else◌, ◌≡◌,
}
use ducks.Prelude.Exec.{Exec, Result, ok, err, ◌>>=◌, ◌>>◌, pure}
use ducks.Prelude.Assoc.{Assoc, lookup, insert, remove}
use ducks.Schema.{GroupVersionKind, GroupKind}
use ducks.Conditions.{Conditions}
use ducks.Api.{Duck, group_version_kind}
use ducks.Client.Select.{duck_is_ready}

-- `mgr.GetCache().GetInformer` and the two methods of `cache.Informer`, over a world that they
-- change; and an `*unstructured.Unstructured` with its `GetName`, and its conversion to a `Duck` by
-- `runtime.DefaultUnstructuredConverter`; and the `cancel` of the context that `Start` runs in.
pub record Cache (S : Type 0) : Type 1 where
  pub World : Type 0
  pub Error : Type 0
  pub Informer : Type 0
  pub Registration : Type 0
  pub get_informer : GroupVersionKind → Exec World Error Informer
  pub add_event_handler : Informer → Exec World Error Registration
  pub remove_event_handler : Informer → Registration → Exec World Error Unit
  pub Object : Type 0
  pub get_name : Object → String
  pub from_unstructured : Object → Result Error (Duck S)
  -- The end of the context of `Start`.
  pub cancel : World → World

-- What an informer gives to a handler: an object, or, for a deletion that it has missed, a
-- `cache.DeletedFinalStateUnknown` with the key of the object.
pub data Given (O : Type 0) : Type 0 where
  object : O → Given O
  final_state_unknown : String → Given O

-- The assertions `obj.(*unstructured.Unstructured)` and `obj.(client.Object)`; `none` is the panic.
abbrev pub asserted : {O : Type 0} → Given O → Option O
asserted (object o) = some o
asserted (final_state_unknown key) = none

-- What the informer of a resource reports: for an update the old object and the new one.
pub data Event (O : Type 0) : Type 0 where
  added : Given O → Event O
  updated : Given O → Given O → Event O
  deleted : Given O → Event O

-- The object that the broker's handlers of a duck's resource publish; `none` is a panic.
unfoldable pub published : {O : Type 0} → Event O → Option O
published (added obj) = asserted obj
published (updated old obj) = asserted obj
published (deleted obj) = asserted obj

module _ (c : Conditions) (k : Cache c.Status) where
  open k use {
    World, Error, Informer, Registration, Object, get_informer, add_event_handler,
    remove_event_handler, get_name, from_unstructured, cancel,
  }

  -- The maps that the handlers share under the mutex `m`.
  pub record Informers : Type 0 where
    pub duck_informers : Assoc Informer
    pub duck_registrations : Assoc Registration

  abbrev pub no_informers : Informers
  no_informers = record { duck_informers = []; duck_registrations = [] }

  -- The end of `informOn`: the errors of the two calls are logged and dropped.
  abbrev pub record_informer :
      String → Informers → Result Error (Informer × Registration) × World → Informers × World
  record_informer name st (err e, w) = (st, w)
  record_informer name st (ok (i, r), w) = (
    record {
      duck_informers = insert name i st.duck_informers;
      duck_registrations = insert name r st.duck_registrations;
    },
    w,
  )

  abbrev pub start_informer : Duck c.Status → Exec World Error (Informer × Registration)
  start_informer r = do
    i ← get_informer (group_version_kind r.spec)
    reg ← add_event_handler i
    pure (i, reg)

  -- `informOn`
  unfoldable pub inform_on : Duck c.Status → Informers → World → Informers × World
  inform_on r st w = elim (lookup r.metadata.name st.duck_informers) [
    | some i ↦ (st, w)
    | none ↦
        if not (duck_is_ready c r)
        then (st, w)
        else record_informer r.metadata.name st (start_informer r w)
  ]

  abbrev pub forget : String → Informers → Result Error Unit × World → Informers × World
  forget name st (err e, w) = (st, w)
  forget name st (ok u, w) = (
    record {
      duck_informers = remove name st.duck_informers;
      duck_registrations = remove name st.duck_registrations;
    },
    w,
  )

  -- The handler of a deleted duck. `none` is the panic of a call on a nil informer.
  unfoldable pub on_delete : String → Informers → World → Option (Informers × World)
  on_delete name st w = elim (lookup name st.duck_registrations) [
    | none ↦ some (st, w)
    | some reg ↦ elim (lookup name st.duck_informers) [
      | none ↦ none
      | some i ↦ some (forget name st (remove_event_handler i reg w))
    ]
  ]

  -- The duck of an object, of which a failed conversion panics too.
  abbrev pub converted : Result Error (Duck c.Status) → Option (Duck c.Status)
  converted (ok r) = some r
  converted (err e) = none

  abbrev pub given_duck : Given Object → Option (Duck c.Status)
  given_duck (object o) = converted (from_unstructured o)
  given_duck (final_state_unknown key) = none

  abbrev pub inform_on_given :
      Option (Duck c.Status) → Informers → World → Option (Informers × World)
  inform_on_given none st w = none
  inform_on_given (some r) st w = some (inform_on r st w)

  abbrev pub on_delete_given : Option Object → Informers → World → Option (Informers × World)
  on_delete_given none st w = none
  on_delete_given (some o) st w = on_delete (get_name o) st w

  -- The three handlers of the informer of the duck type; the mutex makes each of them one step.
  unfoldable pub handle : Event Object → Informers → World → Option (Informers × World)
  unfolding inform_on on_delete
  handle (added obj) st w = inform_on_given (given_duck obj) st w
  handle (updated old obj) st w = inform_on_given (given_duck obj) st w
  handle (deleted obj) st w = on_delete_given (asserted obj) st w

  abbrev pub and_then :
      Option (Informers × World)
      → (Informers → World → Option (Informers × World))
      → Option (Informers × World)
  and_then none f = none
  and_then (some (st, w)) f = f st w

  unfoldable pub handle_all : List (Event Object) → Informers → World → Option (Informers × World)
  handle_all [] st w = some (st, w)
  handle_all (e ∷ es) st w = and_then (handle e st w) (handle_all es)

  abbrev pub unless_failed :
      Result Error Unit × World
      → (World → Option (Result Error Unit × World))
      → Option (Result Error Unit × World)
  unless_failed (err e, w) f = some (err e, w)
  unless_failed (ok u, w) f = f w

  -- The loop at the end of the runnable, over the registrations that are left. `none` is again the
  -- panic of a call on a nil informer.
  pub remove_handlers : Assoc Registration → Informers → World → Option (Result Error Unit × World)
  remove_handlers [] st w = some (ok tt, w)
  remove_handlers ((name, reg) ∷ regs) st w = elim (lookup name st.duck_informers) [
    | none ↦ none
    | some i ↦ unless_failed (remove_event_handler i reg w) (remove_handlers regs st)
  ]

  -- The end of the runnable, which goes through the map of registrations in an order that Go chooses.
  abbrev pub finish :
      (Assoc Registration → Assoc Registration)
      → Informer
      → Registration
      → Option (Informers × World)
      → Option (Result Error Unit × World)
  finish order i reg none = none
  finish order i reg (some (st, w)) =
      unless_failed (remove_event_handler i reg (cancel w))
        (remove_handlers (order st.duck_registrations) st)

  abbrev pub watch_ducks :
      (Assoc Registration → Assoc Registration)
      → List (Event Object)
      → Result Error (Informer × Registration) × World
      → Option (Result Error Unit × World)
  watch_ducks order events (err e, w) = some (err e, w)
  watch_ducks order events (ok (i, reg), w) = finish order i reg (handle_all events no_informers w)

  -- The calls before the runnable waits for the end of its context.
  unfoldable pub start_watch : GroupKind → Exec World Error (Informer × Registration)
  start_watch duck = do
    i ← get_informer (record { group = duck.group; version = "v1"; kind = duck.kind })
    reg ← add_event_handler i
    pure (i, reg)

  -- The runnable from its start to the end of its context, with what the informer of the duck type
  -- reports in between, and the order of the last loop.
  unfoldable pub run :
      (Assoc Registration → Assoc Registration)
      → GroupKind
      → List (Event Object)
      → World
      → Option (Result Error Unit × World)
  unfolding start_watch handle handle_all remove_handlers
  run order duck events w = watch_ducks order events (start_watch duck w)
