-- ===== src/Broker/Informers/Watched.antt =====
-- Which ducks' resources the runnable of `NewBroker` in `client/broker.go` watches after the reports
-- of the informer of the duck type.
use ducks.Prelude.{
  String, ◌≡◌, ◌⊎◌, All, refl, ap, subst, List, [], ◌∷◌, Option, none, some, some_inj, inl, inr,
  Option-cases,
}
use ducks.Prelude.Assoc.{lookup, lookup-nil}
use ducks.Conditions.{Conditions}
use ducks.Api.{Duck}
use ducks.Broker.Informers.{Cache, Event, Informers, no_informers, handle, handle_all, and_then}
use ducks.Broker.Informers.Paired.{handle_all-IsPaired}
use ducks.Broker.Informers.Entries.{
  NeverFails, Deletes, IsLive, announced_here, later, Entry, IsStarted, Has,
}
use ducks.Broker.Informers.Handlers.{handle-Entry, handle-keeps, handle-starts}

module _ (c : Conditions) (k : Cache c.Status) where
  and_then_cases :
      {out : Informers c k × k.World} (o : Option (Informers c k × k.World))
      (f : Informers c k → k.World → Option (Informers c k × k.World))
      → and_then c k o f ≡ some out
      → (st : Informers c k) × (w : k.World) × (o ≡ some (st, w)) × (f st w ≡ some out)
  and_then_cases none f did = absurd (cc did)
  and_then_cases (some (st, w)) f did = (st, w, refl, did)

  module _ (calls : NeverFails c k) (name : String) where
    -- No report is one of the deletion of the name.
    abbrev AreKept : List (Event k.Object) → Type 0
    AreKept es = All (λ x. ¬ Deletes c k name x) es

    handle_all-Entry :
        {i : k.Informer} {reg : k.Registration} (es : List (Event k.Object)) (st : Informers c k)
        (w : k.World) {st' : Informers c k} {w' : k.World}
        → handle_all c k es st w ≡ some (st', w')
        → Entry c k st' name i reg
        → (Entry c k st name i reg × AreKept es) ⊎ IsLive c k (IsStarted c k i reg) name es
    unfolding handle_all
    handle_all-Entry [] st w did entry = inl (rw (ap (λ o. o.0) (some_inj.0 did)) entry, tt)
    handle_all-Entry (e ∷ es) st w did entry =
        let (st₁, w₁, handled, rest) = and_then_cases (handle c k e st w) (handle_all c k es) did in
        elim (handle_all-Entry es st₁ w₁ rest entry) [
          | inr live ↦ inr (later live)
          | inl (there, kept) ↦ elim (handle-Entry c k calls e st w handled there) [
            | inl (before, stays) ↦ inl (before, (stays, kept))
            | inr announces ↦ inr (announced_here announces kept)
          ]
        ]

    handle_all-keeps :
        (es : List (Event k.Object)) (st : Informers c k) (w : k.World) {st' : Informers c k}
        {w' : k.World}
        → handle_all c k es st w ≡ some (st', w')
        → AreKept es
        → Has c k name st
        → Has c k name st'
    unfolding handle_all
    handle_all-keeps [] st w did kept there =
        subst (Has c k name) (ap (λ o. o.0) (some_inj.0 did)) there
    handle_all-keeps (e ∷ es) st w did (stays, kept) there =
        let (st₁, w₁, handled, rest) = and_then_cases (handle c k e st w) (handle_all c k es) did in
        handle_all-keeps es st₁ w₁ rest kept
          (handle-keeps c k calls name e st w handled stays there)

    handle_all-Has :
        {P : Duck c.Status → Type 0} {es : List (Event k.Object)} (st : Informers c k) (w : k.World)
        {st' : Informers c k} {w' : k.World}
        → handle_all c k es st w ≡ some (st', w')
        → IsLive c k P name es
        → Has c k name st'
    unfolding handle_all
    handle_all-Has st w did (announced_here {e} {es} announces kept) =
        let (st₁, w₁, handled, rest) = and_then_cases (handle c k e st w) (handle_all c k es) did in
        handle_all-keeps es st₁ w₁ rest kept (handle-starts c k calls name e st w handled announces)
    handle_all-Has st w did (later {e} {es} live) =
        let (st₁, w₁, handled, rest) = and_then_cases (handle c k e st w) (handle_all c k es) did in
        handle_all-Has st₁ w₁ rest live

  -- Where no call to the cache fails, and after any reports that the handlers could read: an entry of
  -- a name is an informer and a registration that were started for a ready duck of the name, which
  -- was reported with no report of its deletion after that; and if there was such a report then the
  -- name has an entry.
  pub handle_all-IsLive :
      (es : List (Event k.Object)) (w : k.World) (name : String) {st : Informers c k} {w' : k.World}
      → NeverFails c k
      → handle_all c k es (no_informers c k) w ≡ some (st, w')
      → ((i : k.Informer) (reg : k.Registration)
          → Entry c k st name i reg
          → IsLive c k (IsStarted c k i reg) name es)
        × (IsLive c k (λ _. Unit) name es
            → (i : k.Informer) × (reg : k.Registration) × Entry c k st name i reg)
  handle_all-IsLive es w name {st} calls did = (
    (λ i reg entry. elim (handle_all-Entry calls name es (no_informers c k) w did entry) [
      | inl (before, kept) ↦ absurd (cc (lookup-nil {V = k.Informer} name, before.informer))
      | inr live ↦ live
    ]),
    λ live.
        let (i, there) = handle_all-Has calls name (no_informers c k) w did live in
        elim (Option-cases (lookup name st.duck_registrations)) [
          | inl missing ↦
              absurd (cc (((handle_all-IsPaired c k es w did).keys name).0 missing, there))
          | inr (reg, registered) ↦ (i, reg, record { informer = there; registration = registered })
        ],
  )
