-- ===== src/Broker/Informers/Paired.antt =====
-- The keys of the two maps of the informers, and the reports at which the runnable of `NewBroker` in
-- `client/broker.go` panics.
use ducks.Prelude.{
  String, ◌≡◌, ◌≢◌, ◌↔◌, ◌⊎◌, All, In, refl, List, [], ◌∷◌, Option, none, some, some_inj, sym, ap,
  subst, ◌∙◌, arith, inl, inr, eq_iff, Option-cases, Bool-cases,
}
use ducks.Prelude.Exec.{Result, ok, err, outcome_cases}
use ducks.Prelude.Assoc.{Assoc, lookup, lookup-insert, lookup-remove, lookup-nil}
use ducks.Schema.{GroupKind}
use ducks.Conditions.{Conditions}
use ducks.Api.{Duck}
use ducks.Client.Select.{duck_is_ready}
use ducks.Broker.Informers.{
  Cache, object, final_state_unknown, Event, added, updated, deleted, Informers, no_informers,
  record_informer, start_informer, inform_on, inform_on_given, given_duck, forget, on_delete,
  handle, handle_all, remove_handlers, start_watch, watch_ducks, unless_failed, run,
}

result_cases : {E A : Type 0} (r : Result E A) → ((a : A) × (r ≡ ok a)) ⊎ ((e : E) × (r ≡ err e))
result_cases (ok a) = inl (a, refl)
result_cases (err e) = inr (e, refl)

module _ {V : Type 0} where
  lookup-cons-ne-none : (name : String) (v : V) (m : Assoc V) → lookup name ((name, v) ∷ m) ≢ none
  unfolding lookup
  lookup-cons-ne-none name v m = ground (arith, eq_iff name name)

  lookup-head : (j name : String) (v : V) (m : Assoc V) → lookup j ((name, v) ∷ m) ≡ none → name ≢ j
  unfolding lookup
  lookup-head j name v m h = ground (arith, eq_iff name j)

  lookup-cons_none :
      (j name : String) (v : V) (m : Assoc V)
      → name ≢ j
      → lookup j m ≡ none
      → lookup j ((name, v) ∷ m) ≡ none
  unfolding lookup
  lookup-cons_none j name v m ne h = ground (arith, eq_iff name j)

  lookup-tail :
      (j name : String) (v : V) (m : Assoc V) → lookup j ((name, v) ∷ m) ≡ none → lookup j m ≡ none
  unfolding lookup
  lookup-tail j name v m h = ground arith

  lookup-ne : (j : String) (m : Assoc V) (x : String × V) → lookup j m ≡ none → In x m → x.0 ≢ j
  lookup-ne j [] x h i = absurd i
  lookup-ne j ((name, v) ∷ m) x h (inl e) =
      λ same. lookup-head j name v m h (ap (λ y. y.0) (sym e) ∙ same)
  lookup-ne j ((name, v) ∷ m) x h (inr i) = lookup-ne j m x (lookup-tail j name v m h) i

  lookup-eq_none :
      (j : String) (m : Assoc V) → ((x : String × V) → In x m → x.0 ≢ j) → lookup j m ≡ none
  lookup-eq_none j [] h = lookup-nil j
  lookup-eq_none j ((name, v) ∷ m) h =
      lookup-cons_none j name v m (h (name, v) (inl refl)) (lookup-eq_none j m λ x i. h x (inr i))

module _ (c : Conditions) (k : Cache c.Status) where
  -- The keys of the two maps are the same.
  pub record IsPaired (st : Informers c k) : Type 0 where
    pub keys :
        (name : String)
        → (lookup name st.duck_registrations ≡ none) ↔ (lookup name st.duck_informers ≡ none)

  record_informer-IsPaired :
      (name : String) (st : Informers c k)
      (r : Result k.Error (k.Informer × k.Registration) × k.World)
      → IsPaired st
      → IsPaired (record_informer c k name st r).0
  record_informer-IsPaired name st (err e, w) h = h
  record_informer-IsPaired name st (ok (i, reg), w) h = record {
    keys = λ j. ground (
      arith,
      h.keys j,
      lookup-insert name j i st.duck_informers,
      lookup-insert name j reg st.duck_registrations,
    );
  }

  inform_on-IsPaired :
      (r : Duck c.Status) (st : Informers c k) (w : k.World)
      → IsPaired st
      → IsPaired (inform_on c k r st w).0
  unfolding inform_on
  inform_on-IsPaired r st w h = elim (Option-cases (lookup r.metadata.name st.duck_informers)) [
    | inr (i, known) ↦ rw (known, inform_on) h
    | inl new ↦ elim (Bool-cases (duck_is_ready c r)) [
      | inr waits ↦ rw (new, waits, inform_on) h
      | inl ready ↦
          rw (new, ready, inform_on)
            (record_informer-IsPaired r.metadata.name st (start_informer c k r w) h)
    ]
  ]

  forget-IsPaired :
      (name : String) (st : Informers c k) (r : Result k.Error Unit × k.World)
      → IsPaired st
      → IsPaired (forget c k name st r).0
  forget-IsPaired name st (err e, w) h = h
  forget-IsPaired name st (ok u, w) h = record {
    keys = λ j. ground (
      arith,
      h.keys j,
      lookup-remove name j st.duck_informers,
      lookup-remove name j st.duck_registrations,
    );
  }

  -- The outcome of a handler that did not panic.
  abbrev Handles : Option (Informers c k × k.World) → Type 0
  Handles r = (st : Informers c k) × (w : k.World) × (r ≡ some (st, w)) × IsPaired st

  on_delete-Handles :
      (name : String) (st : Informers c k) (w : k.World)
      → IsPaired st
      → Handles (on_delete c k name st w)
  unfolding on_delete
  on_delete-Handles name st w h = elim (Option-cases (lookup name st.duck_registrations)) [
    | inl unknown ↦ rw (unknown, on_delete) (st, w, refl, h)
    | inr (reg, known) ↦ elim (Option-cases (lookup name st.duck_informers)) [
      | inl missing ↦ cc (known, (h.keys name).1 missing)
      | inr (i, there) ↦
          rw (known, there, on_delete)
            (_, _, refl, forget-IsPaired name st (k.remove_event_handler i reg w) h)
    ]
  ]

  -- A report that the handlers can read: an object that converts to a duck, or the last state of a
  -- deleted object.
  pub IsReadable : Event k.Object → Type 0
  IsReadable (added (object o)) = (r : Duck c.Status) × (k.from_unstructured o ≡ ok r)
  IsReadable (added (final_state_unknown key)) = ⊥
  IsReadable (updated old (object o)) = (r : Duck c.Status) × (k.from_unstructured o ≡ ok r)
  IsReadable (updated old (final_state_unknown key)) = ⊥
  IsReadable (deleted (object o)) = Unit
  IsReadable (deleted (final_state_unknown key)) = ⊥

  -- A handler panics exactly at a report that it cannot read.
  abbrev Outcome : Type 0 → Option (Informers c k × k.World) → Type 0
  Outcome readable out = (readable × Handles out) ⊎ ((¬ readable) × (out ≡ none))

  given-Outcome :
      (o : k.Object) (st : Informers c k) (w : k.World)
      → IsPaired st
      → Outcome
          ((r : Duck c.Status) × (k.from_unstructured o ≡ ok r))
          (inform_on_given c k (given_duck c k (object o)) st w)
  given-Outcome o st w h = elim (result_cases (k.from_unstructured o)) [
    | inl (r, e) ↦ rw e (inl ((r, refl), (_, _, refl, inform_on-IsPaired r st w h)))
    | inr (e, failed) ↦ rw failed (inr ((λ x. cc (x.1)), refl))
  ]

  handle-Outcome :
      (e : Event k.Object) (st : Informers c k) (w : k.World)
      → IsPaired st
      → Outcome (IsReadable e) (handle c k e st w)
  unfolding handle IsReadable
  handle-Outcome (added (object o)) st w h = given-Outcome o st w h
  handle-Outcome (updated old (object o)) st w h = given-Outcome o st w h
  handle-Outcome (deleted (object o)) st w h = inl (tt, on_delete-Handles (k.get_name o) st w h)
  handle-Outcome (added (final_state_unknown key)) st w h = inr ((λ x. x), refl)
  handle-Outcome (updated old (final_state_unknown key)) st w h = inr ((λ x. x), refl)
  handle-Outcome (deleted (final_state_unknown key)) st w h = inr ((λ x. x), refl)

  handle_all-Outcome :
      (es : List (Event k.Object)) (st : Informers c k) (w : k.World)
      → IsPaired st
      → Outcome (All IsReadable es) (handle_all c k es st w)
  unfolding handle_all
  handle_all-Outcome [] st w h = inl (tt, (st, w, refl, h))
  handle_all-Outcome (e ∷ es) st w h = elim (handle-Outcome e st w h) [
    | inr (unreadable, panics) ↦ rw panics (inr ((λ x. unreadable (x.0)), refl))
    | inl (readable, (st', w', step, h')) ↦ rw step (elim (handle_all-Outcome es st' w' h') [
      | inl (others, handled) ↦ inl ((readable, others), handled)
      | inr (unreadable, panics) ↦ inr ((λ x. unreadable (x.1)), panics)
    ])
  ]

  abbrev Ends : Option (Result k.Error Unit × k.World) → Type 0
  Ends o = (r : Result k.Error Unit × k.World) × (o ≡ some r)

  unless_failed_total :
      (r : Result k.Error Unit × k.World) (f : k.World → Option (Result k.Error Unit × k.World))
      → ((w : k.World) → Ends (f w))
      → Ends (unless_failed c k r f)
  unless_failed_total (err e, w) f h = (_, refl)
  unless_failed_total (ok u, w) f h = h w

  remove_handlers_total :
      (regs : Assoc k.Registration) (st : Informers c k) (w : k.World)
      → ((name : String) → lookup name st.duck_informers ≡ none → lookup name regs ≡ none)
      → Ends (remove_handlers c k regs st w)
  unfolding remove_handlers
  remove_handlers_total [] st w h = (_, refl)
  remove_handlers_total ((name, reg) ∷ regs) st w h =
      elim (Option-cases (lookup name st.duck_informers)) [
        | inl missing ↦ absurd (lookup-cons-ne-none name reg regs (h name missing))
        | inr (i, there) ↦
            rw (there, remove_handlers)
              (unless_failed_total (k.remove_event_handler i reg w) (remove_handlers c k regs st)
                λ w'. remove_handlers_total regs st w' λ j e. lookup-tail j name reg regs (h j e))
      ]

  no_informers-IsPaired : IsPaired (no_informers c k)
  no_informers-IsPaired = record { keys = λ j. ((λ _. lookup-nil j), λ _. lookup-nil j) }

  -- So the keys of the two maps are the same after all reports.
  pub handle_all-IsPaired :
      (es : List (Event k.Object)) (w : k.World) {st : Informers c k} {w' : k.World}
      → handle_all c k es (no_informers c k) w ≡ some (st, w')
      → IsPaired st
  handle_all-IsPaired es w did =
      elim (handle_all-Outcome es (no_informers c k) w no_informers-IsPaired) [
        | inl (readable, (st', w'', handled, paired)) ↦
            subst IsPaired (ap (λ o. o.0) (some_inj.0 (sym handled ∙ did))) paired
        | inr (unreadable, panics) ↦ absurd (cc (panics, did))
      ]

  -- The runnable could not watch the ducks.
  abbrev pub FailsToWatch : GroupKind → k.World → Type 0
  FailsToWatch duck w = (e : k.Error) × (w' : k.World) × (start_watch c k duck w ≡ (err e, w'))

  -- An order of Go's for a map: it has the same entries.
  abbrev pub Reorders : (Assoc k.Registration → Assoc k.Registration) → Type 0
  Reorders order =
      (regs : Assoc k.Registration) (x : String × k.Registration) → In x (order regs) ↔ In x regs

  watch_ducks_iff :
      (order : Assoc k.Registration → Assoc k.Registration)
      → Reorders order
      → (events : List (Event k.Object)) (i : k.Informer) (reg : k.Registration) (w : k.World)
      → Ends (watch_ducks c k order events (ok (i, reg), w)) ↔ All IsReadable events
  watch_ducks_iff order reorders events i reg w =
      elim (handle_all-Outcome events (no_informers c k) w no_informers-IsPaired) [
        | inl (readable, (st, w', handled, paired)) ↦ rw handled (
          (λ _. readable),
          λ _.
              unless_failed_total (k.remove_event_handler i reg (k.cancel w'))
                (remove_handlers c k (order st.duck_registrations) st)
                λ w''. remove_handlers_total (order st.duck_registrations) st w'' λ j missing.
                  lookup-eq_none j (order st.duck_registrations) λ x i.
                    lookup-ne j st.duck_registrations x ((paired.keys j).1 missing)
                      ((reorders st.duck_registrations x).0 i),
        )
        | inr (unreadable, panics) ↦ rw panics ((λ x. cc (x.1)), λ x. absurd (unreadable x))
      ]

  -- Whatever the informer of the duck type reports, in whatever order, whichever calls fail, and
  -- however Go orders the last loop, the runnable of the broker ends with a result, an error included, exactly if it could not watch the
  -- ducks, or all reports are objects that convert to ducks or last states of deleted objects;
  -- otherwise a handler panics. No handler and no clean-up calls a nil informer.
  pub run_returns_iff :
      (order : Assoc k.Registration → Assoc k.Registration)
      → Reorders order
      → (duck : GroupKind) (events : List (Event k.Object)) (w : k.World)
      → ((r : Result k.Error Unit × k.World) × (run c k order duck events w ≡ some r))
        ↔ (FailsToWatch duck w ⊎ All IsReadable events)
  unfolding run
  run_returns_iff order reorders duck events w = elim (outcome_cases (start_watch c k duck w)) [
    | inr (e, w', failed) ↦ rw failed ((λ _. inl (e, w', refl)), λ _. (_, refl))
    | inl ((i, reg), w', watched) ↦ rw watched (
      (λ ends. inr ((watch_ducks_iff order reorders events i reg w').0 ends)),
      λ h. elim h [
        | inl (e, w'', failed) ↦ cc failed
        | inr readable ↦ (watch_ducks_iff order reorders events i reg w').1 readable
      ],
    )
  ]
