-- ===== src/Broker/Informers/Entries.antt =====
-- The entries of the maps of the runnable of `NewBroker` in `client/broker.go`, and what `informOn`
-- does to them.
use ducks.Prelude.{
  String, ◌≡◌, ◌⊎◌, All, refl, sym, ap, ◌∙◌, true, List, ◌∷◌, Option, none, some, some_inj, ◌==◌,
  arith, inl, inr, eq_iff, Option-cases, Bool-cases,
}
use ducks.Prelude.Exec.{Result, ok, outcome_cases}
use ducks.Prelude.Assoc.{
  lookup, insert, lookup-insert_self, lookup-insert_ne, lookup-remove_self, lookup-remove_ne,
}
use ducks.Schema.{GroupVersionKind}
use ducks.Conditions.{Conditions}
use ducks.Api.{Duck, group_version_kind}
use ducks.Client.Select.{duck_is_ready}
use ducks.Broker.Informers.{
  Cache, object, final_state_unknown, Event, added, updated, deleted, Informers, record_informer,
  start_informer, inform_on, given_duck, forget,
}

name_cases : (a b : String) → (a ≡ b) ⊎ (¬ (a ≡ b))
name_cases a b = elim (Bool-cases (a == b)) [
  | inl same ↦ inl (ground (arith, eq_iff a b))
  | inr other ↦ inr (ground (arith, eq_iff a b))
]

module _ (c : Conditions) (k : Cache c.Status) where
  -- No call to the cache fails.
  pub record NeverFails : Type 0 where
    pub informs :
        (gvk : GroupVersionKind) (w : k.World)
        → (i : k.Informer) × (w' : k.World) × (k.get_informer gvk w ≡ (ok i, w'))
    pub handles :
        (i : k.Informer) (w : k.World)
        → (reg : k.Registration) × (w' : k.World) × (k.add_event_handler i w ≡ (ok reg, w'))
    pub removes :
        (i : k.Informer) (reg : k.Registration) (w : k.World)
        → (w' : k.World) × (k.remove_event_handler i reg w ≡ (ok tt, w'))

  -- The duck that a report adds or updates.
  abbrev pub announced : Event k.Object → Option (Duck c.Status)
  announced (added obj) = given_duck c k obj
  announced (updated old obj) = given_duck c k obj
  announced (deleted obj) = none

  abbrev pub Deletes : String → Event k.Object → Type 0
  Deletes name (added obj) = ⊥
  Deletes name (updated old obj) = ⊥
  Deletes name (deleted (object o)) = k.get_name o ≡ name
  Deletes name (deleted (final_state_unknown key)) = ⊥

  -- A report of a ready duck with the name, of which `P` holds.
  pub record Announces (P : Duck c.Status → Type 0) (name : String) (e : Event k.Object)
      : Type 0 where
    pub duck : Duck c.Status
    pub reported : announced e ≡ some duck
    pub named : duck.metadata.name ≡ name
    pub ready : duck_is_ready c duck ≡ true
    pub holds : P duck

  -- Among the reports is one of a ready duck with the name, and none of its deletion after that.
  pub data IsLive (P : Duck c.Status → Type 0) (name : String)
      : List (Event k.Object) → Type 0 where
    announced_here :
        {e : Event k.Object} {es : List (Event k.Object)}
        → Announces P name e
        → All (λ x. ¬ Deletes name x) es
        → IsLive P name (e ∷ es)
    later :
        {e : Event k.Object} {es : List (Event k.Object)}
        → IsLive P name es
        → IsLive P name (e ∷ es)

  -- The entries of the two maps for a name.
  pub record Entry (st : Informers c k) (name : String) (i : k.Informer) (reg : k.Registration)
      : Type 0 where
    pub informer : lookup name st.duck_informers ≡ some i
    pub registration : lookup name st.duck_registrations ≡ some reg

  -- The informer was got for the resource of the duck, and the registration is one of the handlers
  -- that were added to it next.
  abbrev pub IsStarted : k.Informer → k.Registration → Duck c.Status → Type 0
  IsStarted i reg r =
      (w : k.World) × (w₁ : k.World) × (w₂ : k.World) × (k.get_informer
          (record { group = r.spec.group; version = r.spec.version; kind = r.spec.kind }) w
        ≡ (ok i, w₁))
      × (k.add_event_handler i w₁ ≡ (ok reg, w₂))

  start_informer-IsStarted :
      (i : k.Informer) (reg : k.Registration) (r : Duck c.Status) (w w' : k.World)
      → start_informer c k r w ≡ (ok (i, reg), w')
      → IsStarted i reg r
  unfolding group_version_kind
  start_informer-IsStarted i reg r w w' started =
      elim (outcome_cases (k.get_informer (group_version_kind r.spec) w)) [
        | inr (e, w₁, failed) ↦ cc (rw failed at started)
        | inl (i₀, w₁, got) ↦ elim (outcome_cases (k.add_event_handler i₀ w₁)) [
          | inr (e, w₂, failed) ↦ cc (rw (got, failed) at started)
          | inl (reg₀, w₂, added_too) ↦
              let same : ◌≡◌ {A = Result k.Error (k.Informer × k.Registration) × k.World}
                  (ok (i₀, reg₀), w₂) (ok (i, reg), w') =
                (rw (got, added_too) at started) in
              (w, w₁, w₂, cc (got, same), cc (added_too, same))
        ]
      ]

  starts :
      NeverFails
      → (r : Duck c.Status) (w : k.World)
      → (i : k.Informer) × (reg : k.Registration) × (w' : k.World) × (start_informer c k r w
          ≡ (ok (i, reg), w'))
  starts calls r w =
      let (i, w₁, got) = calls.informs (group_version_kind r.spec) w in
      let (reg, w₂, handled) = calls.handles i w₁ in (i, reg, w₂, rw (got, handled) refl)

  -- What recording an informer, and forgetting one, does to the entry of a name.
  recorded-Entry :
      {name : String} {i : k.Informer} {reg : k.Registration} (key : String) (i₀ : k.Informer)
      (reg₀ : k.Registration) (st : Informers c k) (w : k.World)
      → Entry (record_informer c k key st (ok (i₀, reg₀), w)).0 name i reg
      → Entry st name i reg ⊎ ((key ≡ name) × (i₀ ≡ i) × (reg₀ ≡ reg))
  recorded-Entry {name} {i} {reg} key i₀ reg₀ st w entry = elim (name_cases key name) [
    | inl same ↦ inr (
      same,
      some_inj.0 (sym (lookup-insert_self name i₀ _) ∙ (rw same at entry.informer)),
      some_inj.0 (sym (lookup-insert_self name reg₀ _) ∙ (rw same at entry.registration)),
    )
    | inr other ↦ inl (record {
      informer = sym (lookup-insert_ne key name i₀ _ λ e. other (sym e)) ∙ entry.informer;
      registration = sym (lookup-insert_ne key name reg₀ _ λ e. other (sym e)) ∙ entry.registration;
    })
  ]

  pub forgotten-Entry :
      {name : String} {i : k.Informer} {reg : k.Registration} (key : String) (st : Informers c k)
      (w : k.World)
      → Entry (forget c k key st (ok tt, w)).0 name i reg
      → (¬ (key ≡ name)) × Entry st name i reg
  forgotten-Entry {name} key st w entry = elim (name_cases key name) [
    | inl same ↦ absurd (cc (lookup-remove_self key st.duck_informers, entry.informer, same))
    | inr other ↦ (
      other,
      record {
        informer = sym (lookup-remove_ne key name _ λ e. other (sym e)) ∙ entry.informer;
        registration = sym (lookup-remove_ne key name _ λ e. other (sym e)) ∙ entry.registration;
      },
    )
  ]

  -- An informer for the name.
  abbrev pub Has : String → Informers c k → Type 0
  Has name st = (i : k.Informer) × (lookup name st.duck_informers ≡ some i)

  pub forgotten-keeps :
      {name : String} (key : String) (st : Informers c k) (w : k.World)
      → ¬ (key ≡ name)
      → Has name st
      → Has name (forget c k key st (ok tt, w)).0
  forgotten-keeps {name} key st w other (i, there) =
      (i, lookup-remove_ne key name _ (λ e. other (sym e)) ∙ there)

  module _ (name : String) (r : Duck c.Status) (st : Informers c k) (w : k.World) where
    -- An entry after `informOn` was there before, or is one for the duck.
    pub inform_on-Entry :
        {i : k.Informer} {reg : k.Registration}
        → Entry (inform_on c k r st w).0 name i reg
        → Entry st name i reg
          ⊎ ((r.metadata.name ≡ name) × (duck_is_ready c r ≡ true) × IsStarted i reg r)
    unfolding inform_on
    inform_on-Entry {i} {reg} entry =
        elim (Option-cases (lookup r.metadata.name st.duck_informers)) [
          | inr (i₀, known) ↦ inl (rw (known, inform_on) at entry)
          | inl new ↦ elim (Bool-cases (duck_is_ready c r)) [
            | inr waits ↦ inl (rw (new, waits, inform_on) at entry)
            | inl ready ↦ elim (outcome_cases (start_informer c k r w)) [
              | inr (e, w', failed) ↦ inl (rw (new, ready, failed, inform_on) at entry)
              | inl ((i₀, reg₀), w', started) ↦
                  let now = rw (new, ready, started, inform_on) at entry in
                  elim (recorded-Entry r.metadata.name i₀ reg₀ st w' now) [
                    | inl before ↦ inl before
                    | inr (same, at_i, at_reg) ↦ inr (
                      same,
                      ready,
                      start_informer-IsStarted i reg r w w' (rw (sym at_i, sym at_reg) started),
                    )
                  ]
            ]
          ]
        ]

    pub inform_on-keeps : Has name st → Has name (inform_on c k r st w).0
    unfolding inform_on
    inform_on-keeps (i, there) = elim (Option-cases (lookup r.metadata.name st.duck_informers)) [
      | inr (i₀, known) ↦ rw (known, inform_on) (i, there)
      | inl new ↦ elim (Bool-cases (duck_is_ready c r)) [
        | inr waits ↦ rw (new, waits, inform_on) (i, there)
        | inl ready ↦ elim (outcome_cases (start_informer c k r w)) [
          | inr (e, w', failed) ↦ rw (new, ready, failed, inform_on) (i, there)
          | inl ((i₀, reg₀), w', started) ↦
              rw (new, ready, started, inform_on)
                (i, lookup-insert_ne _ name i₀ _ (λ e. cc (e, new, there)) ∙ there)
        ]
      ]
    ]

    pub inform_on-starts :
        NeverFails
        → r.metadata.name ≡ name
        → duck_is_ready c r ≡ true
        → Has name (inform_on c k r st w).0
    unfolding inform_on
    inform_on-starts calls named ready =
        elim (Option-cases (lookup r.metadata.name st.duck_informers)) [
          | inr (i₀, known) ↦ rw (known, inform_on) (i₀, (rw named at known))
          | inl new ↦
              let (i, reg, w', started) = starts calls r w in
              rw (new, ready, started, inform_on)
                (
                  i,
                  ap (λ n. lookup n (insert r.metadata.name i st.duck_informers)) (sym named)
                      ∙ lookup-insert_self r.metadata.name i st.duck_informers,
                )
        ]
