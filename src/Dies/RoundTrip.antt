-- ===== src/Dies/RoundTrip.antt =====
-- What is released as JSON, and fed to a die again.
use ducks.Prelude.{
  ℕ, ◌<◌, ◌≡◌, refl, sym, ap, subst, ◌∙◌, Bool, true, false, Option, none, some, inl, inr,
  Bool-cases, Option-cases,
}
use ducks.Copies.{Memory}
use ducks.Copies.Laws.{Held, Copies, copy-Held}
use ducks.Dies.Keeps.{view_of, IsSound, made_die, struct_of}
use ducks.Dies.Stamping.{
  release_immutable, release_mutable, feed_immutable, feed_mutable, set_here, fed_struct,
}
use ducks.Dies.Codec.{Encodings, die_feed_json, die_release_json, fed_or_panic, encoded}
use ducks.Dies.{DieKind, Die, Dies, die_feed, die_release}

module _ {C : Type 0} (k : DieKind C) (p : Copies k.resource) (e : Encodings k.resource) where
  open k use {resource, Frozen, freeze}
  open resource use {Value, View, view, deep_copy}

  -- What the JSON package promises of the values that JSON represents, which are those without, for
  -- instance, an empty slice in a field that is omitted when empty: decoding what was encoded gives
  -- a value that reads the same.
  pub record RoundTrips : Type 1 where
    pub IsExact : View → Type 0
    pub unmarshal-marshal :
        (r : Value) (m m' : Memory C) (j : e.Bytes)
        → Held resource r m
        → IsExact (view r m)
        → e.marshal r m ≡ some j
        → ((e.unmarshal j m').0 ≡ true)
          × (view (e.unmarshal j m').1 (e.unmarshal j m').2 ≡ view r m)

  module _ (laws : RoundTrips) where
    -- A release of a sound die, whether it is mutable or not.
    release_lem :
        (q : ℕ) (st : Dies k)
        → IsSound k st
        → q < st.count
        → (view (die_release k q st).0 (die_release k q st).1.memory ≡ view_of k q st)
          × Held resource (die_release k q st).0 (die_release k q st).1.memory
    release_lem q st sound made_q = elim (Bool-cases (st.die q).mutable) [
      | inl inplace ↦ rw (release_mutable k p q st inplace) (refl, sound.r q made_q)
      | inr frozen ↦ rw (release_immutable k p q st frozen) (
        p.view-copy (st.die q).r st.memory (sound.r q made_q),
        copy-Held resource p (st.die q).r st.memory,
      )
    ]

    feed-view :
        (q : ℕ) (r : Value) (st : Dies k) (m : Memory C)
        → view_of k
            (die_feed k q r (record st { memory = m })).0
            (die_feed k q r (record st { memory = m })).1
          ≡ view r m
    feed-view q r st m = elim (Bool-cases (st.die q).mutable) [
      | inl inplace ↦ rw (feed_mutable k p q r st m inplace) (
          ap (λ (d : Die Value Frozen). view d.r m)
            (set_here k p q (fed_struct k p r (st.die q)) st))
      | inr frozen ↦ rw (feed_immutable k p q r st m frozen) (
          ap (λ (d : Die Value Frozen). view d.r m)
            (made_die k p (struct_of k p r (st.die q).mutable (st.die q).seal) st m))
    ]

    encoded-some :
        (x : Value × Dies k) (j : e.Bytes) (st₁ : Dies k)
        → encoded k e e.marshal x ≡ some (j, st₁)
        → e.marshal x.0 x.1.memory ≡ some j
    encoded-some x j st₁ h = elim (Option-cases (e.marshal x.0 x.1.memory)) [
      | inl fails ↦ cc (rw fails at h)
      | inr (j', fine) ↦
          fine
          ∙ ap (λ (o : Option (e.Bytes × Dies k)). elim o [ none ↦ none | some y ↦ some y.0 ])
              (rw fine at h)
    ]

    fed :
        (q : ℕ) (st : Dies k) (u : Bool × Value × Memory C)
        → u.0 ≡ true
        → fed_or_panic k e q st u ≡ some (die_feed k q u.1 (record st { memory = u.2 }))
    fed q st (true, r, m) h = refl
    fed q st (false, r, m) h = cc

    -- Feeding a die with the JSON of a value.
    feed_json_lem :
        (r : Value) (m : Memory C) (j : e.Bytes) (q : ℕ) (st : Dies k)
        → Held resource r m
        → laws.IsExact (view r m)
        → e.marshal r m ≡ some j
        → (out : ℕ × Dies k) × (die_feed_json k e q j st ≡ some out)
          × (view_of k out.0 out.1 ≡ view r m)
    unfolding die_feed_json
    feed_json_lem r m j q st held exact encodes =
        let (fine, same) = laws.unmarshal-marshal r m st.memory j held exact encodes in
        let u = e.unmarshal j st.memory in (_, fed q st u fine, feed-view q u.1 st u.2 ∙ same)

    -- With deep copies, and JSON as `RoundTrips` has it: if a die that refers to cells in use, and
    -- reads as something that JSON represents, releases its resource as JSON, then any die can be
    -- fed with that JSON in any later state, without a panic, and what can be read of the die that
    -- the feed returns is what could be read of the first one.
    pub die_feed_json-die_release_json :
        (q : ℕ) (st : Dies k) (j : e.Bytes) (st₁ : Dies k) (q' : ℕ) (st₂ : Dies k)
        → IsSound k st
        → q < st.count
        → laws.IsExact (view_of k q st)
        → die_release_json k e q st ≡ some (j, st₁)
        → (out : ℕ × Dies k) × (die_feed_json k e q' j st₂ ≡ some out)
          × (view_of k out.0 out.1 ≡ view_of k q st)
    unfolding die_release_json
    die_feed_json-die_release_json q st j st₁ q' st₂ sound made_q exact released =
        let (reads, held) = release_lem q st sound made_q in
        let (out, fed, same) =
          feed_json_lem (die_release k q st).0 (die_release k q st).1.memory j q' st₂ held
            (subst laws.IsExact (sym reads) exact)
            (encoded-some (die_release k q st) j st₁ released) in
        (out, fed, same ∙ reads)
