-- ===== src/Broker/Informers/Handlers.antt =====
-- What a report to the runnable of `NewBroker` in `client/broker.go` does to the entries of a name.
use ducks.Prelude.{
  String, ◌≡◌, ◌⊎◌, sym, ap, subst, true, none, some, some_inj, inl, inr, Option-cases,
}
use ducks.Prelude.Exec.{ok}
use ducks.Prelude.Assoc.{lookup}
use ducks.Conditions.{Conditions}
use ducks.Api.{Duck}
use ducks.Client.Select.{duck_is_ready}
use ducks.Broker.Informers.{
  Cache, Given, object, final_state_unknown, Event, added, updated, deleted, Informers, inform_on,
  inform_on_given, given_duck, forget, on_delete, handle,
}
use ducks.Broker.Informers.Entries.{
  NeverFails, Deletes, Announces, Entry, IsStarted, Has, forgotten-Entry, forgotten-keeps,
  inform_on-Entry, inform_on-keeps, inform_on-starts,
}

module _ (c : Conditions) (k : Cache c.Status) where
  -- The outcome of `informOn` is the state after a report that a handler could read.
  module _ (st : Informers c k) (w : k.World) {st' : Informers c k} {w' : k.World}
      (obj : Given k.Object)
      (did : inform_on_given c k (given_duck c k obj) st w ≡ some (st', w')) where
    informed :
        (r : Duck c.Status) × (given_duck c k obj ≡ some r) × ((inform_on c k r st w).0 ≡ st')
    informed = elim (Option-cases (given_duck c k obj)) [
      | inl panics ↦ absurd (cc (rw panics at did))
      | inr (r, given) ↦ (r, given, ap (λ o. o.0) (some_inj.0 (rw given at did)))
    ]

    given-Entry :
        {name : String} {i : k.Informer} {reg : k.Registration}
        → Entry c k st' name i reg
        → Entry c k st name i reg
          ⊎ ((r : Duck c.Status) × (given_duck c k obj ≡ some r)
              × (r.metadata.name ≡ name)
              × (duck_is_ready c r ≡ true)
              × IsStarted c k i reg r)
    given-Entry {name} entry =
        let (r, given, same) = informed in
        elim (inform_on-Entry c k name r st w (rw same entry)) [
          | inl before ↦ inl before
          | inr (named, ready, started) ↦ inr (r, given, named, ready, started)
        ]

    given-keeps : (name : String) → Has c k name st → Has c k name st'
    given-keeps name there =
        let (r, given, same) = informed in
        subst (Has c k name) same (inform_on-keeps c k name r st w there)

    given-starts :
        {name : String} (r : Duck c.Status)
        → NeverFails c k
        → given_duck c k obj ≡ some r
        → r.metadata.name ≡ name
        → duck_is_ready c r ≡ true
        → Has c k name st'
    given-starts {name} r calls given named ready =
        subst (Has c k name) (ap (λ o. o.0) (some_inj.0 (rw given at did)))
          (inform_on-starts c k name r st w calls named ready)

  module _ (calls : NeverFails c k) (key : String) (st : Informers c k) (w : k.World)
      {st' : Informers c k} {w' : k.World} (did : on_delete c k key st w ≡ some (st', w')) where
    -- Either the name has no registration, or its entries are deleted.
    deleted_cases :
        ((lookup key st.duck_registrations ≡ none) × (st ≡ st'))
        ⊎ ((w₁ : k.World) × ((forget c k key st (ok tt, w₁)).0 ≡ st'))
    unfolding on_delete
    deleted_cases = elim (Option-cases (lookup key st.duck_registrations)) [
      | inl unknown ↦ inl (unknown, ap (λ o. o.0) (some_inj.0 (rw (unknown, on_delete) at did)))
      | inr (reg₀, known) ↦ elim (Option-cases (lookup key st.duck_informers)) [
        | inl missing ↦ absurd (cc (rw (known, missing, on_delete) at did))
        | inr (i₀, there) ↦
            let (w₁, removed) = calls.removes i₀ reg₀ w in
            inr (w₁, ap (λ o. o.0) (some_inj.0 (rw (known, there, removed, on_delete) at did)))
      ]
    ]

    on_delete-Entry :
        {name : String} {i : k.Informer} {reg : k.Registration}
        → Entry c k st' name i reg
        → (¬ (key ≡ name)) × Entry c k st name i reg
    on_delete-Entry entry = elim deleted_cases [
      | inl (unknown, same) ↦
          let before = rw (sym same) at entry in
          ((λ e. cc (unknown, before.registration, e)), before)
      | inr (w₁, same) ↦ forgotten-Entry c k key st w₁ (rw same entry)
    ]

    on_delete-keeps : {name : String} → ¬ (key ≡ name) → Has c k name st → Has c k name st'
    on_delete-keeps {name} other there = elim deleted_cases [
      | inl (unknown, same) ↦ subst (Has c k name) same there
      | inr (w₁, same) ↦ subst (Has c k name) same (forgotten-keeps c k key st w₁ other there)
    ]

  module _ (calls : NeverFails c k) where
    pub handle-Entry :
        {name : String} {i : k.Informer} {reg : k.Registration} (e : Event k.Object)
        (st : Informers c k) (w : k.World) {st' : Informers c k} {w' : k.World}
        → handle c k e st w ≡ some (st', w')
        → Entry c k st' name i reg
        → (Entry c k st name i reg × (¬ Deletes c k name e))
          ⊎ Announces c k (IsStarted c k i reg) name e
    unfolding handle
    handle-Entry (added obj) st w did entry = elim (given-Entry st w obj did entry) [
      | inl before ↦ inl (before, λ x. x)
      | inr (r, given, named, ready, started) ↦
          inr (record { duck = r; reported = given; named = named; ready = ready; holds = started })
    ]
    handle-Entry (updated old obj) st w did entry = elim (given-Entry st w obj did entry) [
      | inl before ↦ inl (before, λ x. x)
      | inr (r, given, named, ready, started) ↦
          inr (record { duck = r; reported = given; named = named; ready = ready; holds = started })
    ]
    handle-Entry (deleted (object o)) st w did entry =
        let (other, before) = on_delete-Entry calls (k.get_name o) st w did entry in
        inl (before, other)
    handle-Entry (deleted (final_state_unknown key)) st w did entry = absurd (cc did)

    pub handle-keeps :
        (name : String) (e : Event k.Object) (st : Informers c k) (w : k.World)
        {st' : Informers c k} {w' : k.World}
        → handle c k e st w ≡ some (st', w')
        → ¬ Deletes c k name e
        → Has c k name st
        → Has c k name st'
    unfolding handle
    handle-keeps name (added obj) st w did kept there = given-keeps st w obj did name there
    handle-keeps name (updated old obj) st w did kept there = given-keeps st w obj did name there
    handle-keeps name (deleted (object o)) st w did kept there =
        on_delete-keeps calls (k.get_name o) st w did kept there
    handle-keeps name (deleted (final_state_unknown key)) st w did kept there = absurd (cc did)

    pub handle-starts :
        {P : Duck c.Status → Type 0} (name : String) (e : Event k.Object) (st : Informers c k)
        (w : k.World) {st' : Informers c k} {w' : k.World}
        → handle c k e st w ≡ some (st', w')
        → Announces c k P name e
        → Has c k name st'
    unfolding handle
    handle-starts name (added obj) st w did a =
        given-starts st w obj did a.duck calls a.reported a.named a.ready
    handle-starts name (updated old obj) st w did a =
        given-starts st w obj did a.duck calls a.reported a.named a.ready
    handle-starts name (deleted obj) st w did a = absurd (cc (a.reported))
