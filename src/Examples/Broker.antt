-- ===== src/Examples/Broker.antt =====
-- The broker theorems at concrete states and runs.
use ducks.Prelude.{
  ℕ, ◌+◌, ◌≡◌, ◌<◌, refl, true, List, [], ◌∷◌, length, arith, String, some, none, All, ◌↔◌, ◌⊎◌,
  eqb, if◌then◌else◌,
}
use ducks.Prelude.Exec.{Result, ok}
use ducks.Prelude.Assoc.{lookup, insert, remove}
use ducks.Broker.{
  receive, on_sent, on_send, on_publish, offer, takes_publish, sends, ends_sends, receives, Broker,
  new_broker, IsOrder, member, Steps, here, next, publish_capacity, publish, subscribe, on_sub,
  on_done, publishes, subscribes, takes_sub, takes_done, start,
}
use ducks.Broker.Delivery.{Delivers, publish-Delivers}
use ducks.Broker.Order.{Runs, begin, step, InOrder, Runs-InOrder}
use ducks.Broker.Ends.{IsLeaked, Steps-IsLeaked, race_leaks, stopped_publish_waits}
use ducks.Broker.Informers.{
  Cache, Event, added, updated, deleted, object, final_state_unknown, run, start_watch, handle,
  handle_all, published, Informers, no_informers, inform_on, on_delete,
}
use ducks.Broker.Informers.Paired.{IsReadable, FailsToWatch, Reorders, run_returns_iff}
use ducks.Broker.Informers.Entries.{NeverFails, IsLive, Entry, IsStarted}
use ducks.Broker.Informers.Watched.{handle_all-IsLive}
use ducks.Schema.{GroupKind}
use ducks.Api.{group_version_kind}
use ducks.Client.Select.{duck_is_ready}
use ducks.Examples.Instances.{flags}
use ducks.Examples.Webhook.{external_secrets}

-- One subscriber, one published message that waits.
abbrev one_sub : Broker ℕ
one_sub = on_sub 0 [] (subscribe new_broker)

abbrev one_message : Broker ℕ
one_message = publish 7 one_sub

one_sub-IsOrder : IsOrder (0 ∷ []) one_message.subs
unfolding publish on_sub subscribe member
one_sub-IsOrder = record { distinct = (refl, tt); same_members = λ ch. refl }

publish-Delivers_example :
    (b' : Broker ℕ) × Steps one_message b'
    × Delivers 7 one_message.subs (record one_message { publish_ch = [] }) b'
unfolding publish on_sub subscribe
publish-Delivers_example =
    publish-Delivers {b = one_message} 7 [] (0 ∷ []) refl refl one_sub-IsOrder

-- The message is sent to the subscriber, which receives it.
abbrev received : Broker ℕ
received = receive 0 [] (on_sent (on_send 7 0 [] (on_publish 7 [] (0 ∷ []) one_message)))

abbrev seven_to_zero : ℕ → List ℕ
seven_to_zero j = if eqb 0 j then 7 ∷ [] else []

received-Runs : Runs received (7 ∷ []) seven_to_zero
unfolding receive on_sent on_send on_publish publish on_sub subscribe offer
received-Runs =
    let subscribed = step (step begin (subscribes (omega arith))) (takes_sub 0 [] refl refl) in
    let published = step subscribed (publishes 7 (omega arith)) in
    let sending = step published (takes_publish 7 [] (0 ∷ []) refl refl one_sub-IsOrder) in
    let sent = step (step sending (sends 7 0 [] refl)) (ends_sends 7 refl) in
    step sent (receives 0 7 [] refl)

Runs-InOrder_example : InOrder received (7 ∷ []) seven_to_zero
Runs-InOrder_example = Runs-InOrder received-Runs

race_leaks_example : (b' : Broker ℕ) × Steps new_broker b' × IsLeaked 0 b'
race_leaks_example = race_leaks start (λ e. cc) refl refl

abbrev leaked : Broker ℕ
leaked = record one_sub { waiting = [] }

leaked-IsLeaked : IsLeaked 0 leaked
unfolding member on_sub subscribe
leaked-IsLeaked = record { made = omega arith; subscribed = refl; over = refl; unsent = refl }

Steps-IsLeaked_example : IsLeaked 0 (on_done leaked)
unfolding on_sub subscribe
Steps-IsLeaked_example = Steps-IsLeaked 0 (next here (takes_done refl)) leaked-IsLeaked

stopped_publish_waits_example : ¬ (length (on_done one_message).publish_ch < publish_capacity)
unfolding on_done publish on_sub subscribe
stopped_publish_waits_example = stopped_publish_waits {b = on_done one_message} here refl (λ e. cc)

-- A cache in which the world counts the calls; its objects are the names of ducks, all of one kind.
abbrev cache : Cache flags.Status
cache = record {
  World = ℕ;
  Error = String;
  Informer = String;
  Registration = ℕ;
  get_informer = λ gvk w. (ok gvk.kind, w + 1);
  add_event_handler = λ i w. (ok w, w + 1);
  remove_event_handler = λ i r w. (ok tt, w + 1);
  cancel = λ w. w + 1;
  Object = String;
  get_name = λ o. o;
  from_unstructured = λ o. ok (record external_secrets {
    metadata = record external_secrets.metadata { name = o };
    status = λ t. true;
  });
}

abbrev duck_kind : GroupKind
duck_kind = record { group = "duck.servicebinding.io"; kind = "ProvisionedService" }

abbrev events : List (Event String)
events =
    added (object "externalsecrets.external-secrets.io")
    ∷ updated (object "b") (object "b")
    ∷ deleted (object "b")
    ∷ []

abbrev same_order : List (String × ℕ) → List (String × ℕ)
same_order regs = regs

same_order-Reorders : Reorders flags cache same_order
same_order-Reorders regs x = ((λ i. i), λ i. i)

run_returns_iff_example :
    ((r : Result String Unit × ℕ) × (run flags cache same_order duck_kind events 0 ≡ some r))
    ↔ (FailsToWatch flags cache duck_kind 0 ⊎ All (IsReadable flags cache) events)
run_returns_iff_example =
    run_returns_iff flags cache same_order same_order-Reorders duck_kind events 0

cache-NeverFails : NeverFails flags cache
cache-NeverFails = record {
  informs = λ gvk w. (gvk.kind, w + 1, refl);
  handles = λ i w. (w, w + 1, refl);
  removes = λ i reg w. (w + 1, refl);
}

-- What is left of the two ducks after the reports.
abbrev one_watched : Informers flags cache
one_watched = record {
  duck_informers = ("externalsecrets.external-secrets.io", "ExternalSecret") ∷ [];
  duck_registrations = ("externalsecrets.external-secrets.io", 1) ∷ [];
}

handled : handle_all flags cache events (no_informers flags cache) 0 ≡ some (one_watched, 5)
unfolding handle_all handle inform_on on_delete lookup insert remove duck_is_ready
    group_version_kind
handled = refl

handle_all-IsLive_example :
    ((i : String) (reg : ℕ)
      → Entry flags cache one_watched "externalsecrets.external-secrets.io" i reg
      → IsLive flags cache
          (IsStarted flags cache i reg)
          "externalsecrets.external-secrets.io"
          events)
    × (IsLive flags cache (λ _. Unit) "externalsecrets.external-secrets.io" events
        → (i : String) × (reg : ℕ) × Entry flags cache one_watched
            "externalsecrets.external-secrets.io" i reg)
handle_all-IsLive_example =
    handle_all-IsLive flags cache events 0 "externalsecrets.external-secrets.io" cache-NeverFails
      handled

-- A deletion that the informer missed.
missed_deletion :
    run flags cache same_order duck_kind (deleted (final_state_unknown "b") ∷ []) 0 ≡ none
unfolding run start_watch handle handle_all
missed_deletion = refl

missed_message : published {O = String} (deleted (final_state_unknown "b")) ≡ none
unfolding published
missed_message = refl
