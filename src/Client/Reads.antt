-- ===== src/Client/Reads.antt =====
-- What the reads of one object do: which call reaches the wrapped client, and for which kind.
use Prim.Native.Char.{Char}
use ducks.Prelude.{String, ◌≡◌, ◌≢◌, inl, inr, Bool, true, false, [], ◌∷◌, arith, length}
use ducks.Prelude.Exec.{Result, ok, err, outcome_cases, ◌>>=◌, pure}
use ducks.Schema.{Schema, GroupKind, GroupVersionKind}
use ducks.Conditions.{Conditions}
use ducks.Api.{Duck}
use ducks.Client.Wrapped.{Upstream, Object}
use ducks.Client.Select.{Ducks}
use ducks.Client.Lookup.{Finds, find_ducks-Finds}
use ducks.Client.{
  ClientError, unknown_duck, only_duck, then_read, Reply, lift_reply, versioned, find_ducks,
  find_duck, set_duck_version, get, track_and_get, group_version_kind_for,
}

module _ (s : Schema) (c : Conditions) (lower : Char → Char) (u : Upstream c.Status) where
  open u use {World, Error, Key, Content, Opts}

  abbrev kind_of : Object Content → GroupKind
  kind_of obj = record { group = obj.gvk.group; kind = obj.gvk.kind }

  -- An object under another version.
  abbrev pub at_version : Object Content → String → Object Content
  at_version obj version = record {
    gvk = record { group = obj.gvk.group; version = version; kind = obj.gvk.kind };
    content = obj.content;
  }

  -- An object under the kind that a call returns.
  abbrev under :
      Object Content
      → Result (ClientError Error) GroupVersionKind × World
      → Result (ClientError Error) (Object Content) × World
  under obj (ok gvk, w) = (ok (record obj { gvk = gvk }), w)
  under obj (err e, w) = (err e, w)

  -- The outcomes of a read of `obj`, where `read` is the wrapped client's.
  pub data ReadsAs (name : String) (obj : Object Content) (track : Bool) (w : World)
      (read : Object Content → World → Result Error Unit × Object Content × World)
      : Reply s c lower u → Type 0 where
    lookup_failed :
        {e : ClientError Error} {w₁ : World}
        → Finds s c lower u name (kind_of obj) track w (err e, w₁)
        → ReadsAs name obj track w read (err e, obj, w₁)
    not_one :
        {found : Ducks c} {w₁ : World}
        → Finds s c lower u name (kind_of obj) track w (ok found, w₁)
        → length found ≢ 1
        → ReadsAs name obj track w read (err unknown_duck, obj, w₁)
    routed :
        {d : Duck c.Status} {w₁ : World}
        → Finds s c lower u name (kind_of obj) track w (ok (d ∷ []), w₁)
        → ReadsAs name obj track w read
            (lift_reply s c lower u (read (at_version obj d.spec.version) w₁))

  -- The outcomes of `setDuckVersion`, from which those of the reads follow.
  data Versions (name : String) (obj : Object Content) (track : Bool) (w : World)
      : Result (ClientError Error) (Object Content) × World → Type 0 where
    lookup_failed :
        {e : ClientError Error} {w₁ : World}
        → Finds s c lower u name (kind_of obj) track w (err e, w₁)
        → Versions name obj track w (err e, w₁)
    not_one :
        {found : Ducks c} {w₁ : World}
        → Finds s c lower u name (kind_of obj) track w (ok found, w₁)
        → length found ≢ 1
        → Versions name obj track w (err unknown_duck, w₁)
    set :
        {d : Duck c.Status} {w₁ : World}
        → Finds s c lower u name (kind_of obj) track w (ok (d ∷ []), w₁)
        → Versions name obj track w (ok (at_version obj d.spec.version), w₁)

  module _ (name : String) (obj : Object Content) (track : Bool) (w : World) where
    finds :
        Finds s c lower u name
          (kind_of obj)
          track
          w
          (find_ducks s c lower u name (s.group_kind obj.gvk) track w)
    finds = rw (s.group_kind_lem obj.gvk) (find_ducks-Finds s c lower u name (kind_of obj) track w)

    one_found :
        (found : Ducks c) {w₁ : World}
        → Finds s c lower u name (kind_of obj) track w (ok found, w₁)
        → Versions name obj track w
            ((only_duck s c lower u found >>= λ d. pure (versioned s c lower u obj d)) w₁)
    one_found [] f = not_one f (omega arith)
    one_found (d ∷ []) f = set f
    one_found (d ∷ d' ∷ ds) f = not_one f (omega arith)

    set_duck_version-Versions :
        Versions name obj track w (set_duck_version s c lower u name obj track w)
    unfolding set_duck_version find_duck
    set_duck_version-Versions =
        elim (outcome_cases (find_ducks s c lower u name (s.group_kind obj.gvk) track w)) [
          | inr (e, w₁, failed) ↦ rw failed (lookup_failed (rw failed at finds))
          | inl (found, w₁, listed) ↦ rw listed (one_found found (rw listed at finds))
        ]

  module _ (name : String) (obj : Object Content) (track : Bool) (w : World)
      (read : Object Content → World → Result Error Unit × Object Content × World) where
    then_read-ReadsAs :
        (r : Result (ClientError Error) (Object Content) × World)
        → Versions name obj track w r
        → ReadsAs name obj track w read (then_read s c lower u obj r read)
    then_read-ReadsAs r (Versions.lookup_failed f) = ReadsAs.lookup_failed f
    then_read-ReadsAs r (Versions.not_one f h) = ReadsAs.not_one f h
    then_read-ReadsAs r (set f) = routed f

  module _ (name : String) (key : Key) (opts : Opts) (obj : Object Content) (w : World) where
    -- `Get` looks its kind up without tracking. It reads the object under the version of the one
    -- wanted duck, and in every other case returns an error and leaves the object as it was.
    -- `TrackAndGet` does the same with the tracking lookup and the tracking read.
    pub get-ReadsAs :
        ReadsAs name obj false w (u.get key opts) (get s c lower u name key opts obj w)
        × ReadsAs name obj true w
            (u.track_and_get key opts)
            (track_and_get s c lower u name key opts obj w)
    unfolding get track_and_get
    get-ReadsAs = (
      then_read-ReadsAs name obj false w (u.get key opts) _
          (set_duck_version-Versions name obj false w),
      then_read-ReadsAs name obj true w (u.track_and_get key opts) _
          (set_duck_version-Versions name obj true w),
    )

    -- `GroupVersionKindFor` reports the kind under which `Get` reads: a `Get` is a read of the
    -- object under the kind that it reports, from the world that it leaves; where it fails, `Get`
    -- fails with the same error and leaves the object as it was.
    get-group_version_kind_for :
        get s c lower u name key opts obj w
        ≡ then_read s c lower u obj
            (under obj (group_version_kind_for s c lower u name obj w))
            (u.get key opts)
    unfolding get group_version_kind_for set_duck_version
    get-group_version_kind_for =
        elim (outcome_cases (find_duck s c lower u name (s.group_kind obj.gvk) false w)) [
          | inr (e, w₁, failed) ↦ rw failed
          | inl (d, w₁, one) ↦ rw one
        ]

  -- The version that an object comes with plays no part: the lookup finds the same, and replaces it.
  pub set_duck_version-at_version :
      (name : String) (obj : Object Content) (version : String) (track : Bool) (w : World)
      → set_duck_version s c lower u name (at_version obj version) track w
        ≡ set_duck_version s c lower u name obj track w
  unfolding set_duck_version
  set_duck_version-at_version name obj version track w =
      rw (s.group_kind_lem obj.gvk, s.group_kind_lem (at_version obj version).gvk)
