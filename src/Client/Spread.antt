-- ===== src/Client/Spread.antt =====
-- What the calls over all resources of a duck type do: the lists and `DeleteAllOf`.
use Prim.Native.Char.{Char}
use ducks.Prelude.{
  String, ◌≡◌, refl, Bool, true, false, List, [], ◌∷◌, ◌++◌, inl, inr, ap, sym, ◌∙◌,
}
use ducks.Prelude.Text.{◌<>◌}
use ducks.Prelude.Exec.{Result, ok, err, Exec, outcome_cases, ◌>>=◌}
use ducks.Schema.{Schema, GroupVersionKind}
use ducks.Conditions.{Conditions}
use ducks.Api.{Duck}
use ducks.Client.Wrapped.{Upstream, Object}
use ducks.Client.Select.{Ducks}
use ducks.Client.Lookup.{Finds, find_ducks-Finds}
use ducks.Client.{
  ClientError, other, Reply, lift_reply, then_convert, find_ducks, list_each, list, track_and_list,
}
use mathlib.Core.List.{append_assoc, append-nil}

module _ (s : Schema) (c : Conditions) (lower : Char → Char) (u : Upstream c.Status) where
  open u use {World, Error, Content, Item, Opts}

  -- The kind of the lists of a duck's resource, under the version that the duck gives.
  abbrev kind_of_list : Duck c.Status → GroupVersionKind
  kind_of_list d = record {
    group = d.spec.group;
    version = d.spec.version;
    kind = d.spec.kind <> "List";
  }

  -- A list of every resource in turn, from a world to a world: the items come in the order of the
  -- ducks, and the first failure ends it.
  pub data Lists (read : GroupVersionKind → Exec World Error (List Item))
      : Ducks c → World → Result (ClientError Error) (List Item) × World → Type 0 where
    done : {w : World} → Lists read [] w (ok [], w)
    stop :
        {d : Duck c.Status} {ds : Ducks c} {w w₁ : World} {e : Error}
        → read (kind_of_list d) w ≡ (err e, w₁)
        → Lists read (d ∷ ds) w (err (other e), w₁)
    next_fails :
        {d : Duck c.Status} {ds : Ducks c} {w w₁ w₂ : World} {items : List Item}
        {e : ClientError Error}
        → read (kind_of_list d) w ≡ (ok items, w₁)
        → Lists read ds w₁ (err e, w₂)
        → Lists read (d ∷ ds) w (err e, w₂)
    next :
        {d : Duck c.Status} {ds : Ducks c} {w w₁ w₂ : World} {items rest : List Item}
        → read (kind_of_list d) w ≡ (ok items, w₁)
        → Lists read ds w₁ (ok rest, w₂)
        → Lists read (d ∷ ds) w (ok (items ++ rest), w₂)

  -- The accumulator stands in front.
  abbrev prepend :
      List Item
      → Result (ClientError Error) (List Item) × World
      → Result (ClientError Error) (List Item) × World
  prepend front (ok items, w) = (ok (front ++ items), w)
  prepend front (err e, w) = (err e, w)

  module _ (read : GroupVersionKind → Exec World Error (List Item)) where
    prepend_assoc :
        (a b : List Item) (r : Result (ClientError Error) (List Item) × World)
        → prepend (a ++ b) r ≡ prepend a (prepend b r)
    prepend_assoc a b (ok items, w) = rw append_assoc
    prepend_assoc a b (err e, w) = refl

    prepend-nil : (r : Result (ClientError Error) (List Item) × World) → prepend [] r ≡ r
    prepend-nil (ok items, w) = refl
    prepend-nil (err e, w) = refl

    list_each-prepend :
        (ds : Ducks c) (front : List Item) (w : World)
        → list_each s c lower u read ds front w ≡ prepend front (list_each s c lower u read ds [] w)
    unfolding list_each
    list_each-prepend [] front w = rw append-nil
    list_each-prepend (d ∷ ds) front w = elim (outcome_cases (read (kind_of_list d) w)) [
      | inr (e, w₁, failed) ↦ rw failed
      | inl (items, w₁, got) ↦ rw got (
          list_each-prepend ds (front ++ items) w₁
          ∙ (prepend_assoc front items (list_each s c lower u read ds [] w₁)
              ∙ ap (prepend front) (sym (list_each-prepend ds items w₁))))
    ]

    after :
        {d : Duck c.Status} {ds : Ducks c} {w w₁ : World} {items : List Item}
        → read (kind_of_list d) w ≡ (ok items, w₁)
        → (r : Result (ClientError Error) (List Item) × World) → Lists read ds w₁ r
        → Lists read (d ∷ ds) w (prepend items r)
    after got (ok rest, w₂) l = next got l
    after got (err e, w₂) l = next_fails got l

    list_each-Lists :
        (ds : Ducks c) (w : World) → Lists read ds w (list_each s c lower u read ds [] w)
    unfolding list_each
    list_each-Lists [] w = done
    list_each-Lists (d ∷ ds) w = elim (outcome_cases (read (kind_of_list d) w)) [
      | inr (e, w₁, failed) ↦ rw failed (stop failed)
      | inl (items, w₁, got) ↦ rw got (
          rw (list_each-prepend ds items w₁)
            (after got (list_each s c lower u read ds [] w₁) (list_each-Lists ds w₁)))
    ]

  -- The outcomes of a list of a duck type: `target` is filled by the conversion of all items, and
  -- is as it was on any earlier error.
  pub data ListsAs (name : String) (target : Object Content) (track : Bool) (w : World)
      (read : GroupVersionKind → Exec World Error (List Item)) : Reply s c lower u → Type 0 where
    lookup_failed :
        {e : ClientError Error} {w₁ : World}
        → Finds s c lower u name
            (record { group = target.gvk.group; kind = target.gvk.kind })
            track
            w
            (err e, w₁)
        → ListsAs name target track w read (err e, target, w₁)
    list_failed :
        {found : Ducks c} {e : ClientError Error} {w₁ w₂ : World}
        → Finds s c lower u name
            (record { group = target.gvk.group; kind = target.gvk.kind })
            track
            w
            (ok found, w₁)
        → Lists read found w₁ (err e, w₂)
        → ListsAs name target track w read (err e, target, w₂)
    converted :
        {found : Ducks c} {items : List Item} {w₁ w₂ : World}
        → Finds s c lower u name
            (record { group = target.gvk.group; kind = target.gvk.kind })
            track
            w
            (ok found, w₁)
        → Lists read found w₁ (ok items, w₂)
        → ListsAs name target track w read
            (lift_reply s c lower u ((u.convert items target).0, (u.convert items target).1, w₂))

  module _ (name : String) (target : Object Content) (track : Bool) (w : World)
      (read : GroupVersionKind → Exec World Error (List Item)) where
    after-Lists :
        {found : Ducks c} {w₁ : World}
        → Finds s c lower u name
            (record { group = target.gvk.group; kind = target.gvk.kind })
            track
            w
            (ok found, w₁)
        → (r : Result (ClientError Error) (List Item) × World) → Lists read found w₁ r
        → ListsAs name target track w read (then_convert s c lower u target r)
    after-Lists f (err e, w₂) l = list_failed f l
    after-Lists f (ok items, w₂) l = converted f l

    spread-ListsAs : ListsAs name target track w read (
        then_convert s c lower u target (
          (find_ducks s c lower u name (s.group_kind target.gvk) track >>= λ found.
          list_each s c lower u read found [])
            w))
    spread-ListsAs =
        elim (outcome_cases (find_ducks s c lower u name (s.group_kind target.gvk) track w)) [
          | inr (e, w₁, failed) ↦ rw failed (lookup_failed (rw failed at finds))
          | inl (found, w₁, listed) ↦
              rw listed (after-Lists (rw listed at finds) _ (list_each-Lists read found w₁))
        ]
      where
        finds :
            Finds s c lower u name
              (record { group = target.gvk.group; kind = target.gvk.kind })
              track
              w
              (find_ducks s c lower u name (s.group_kind target.gvk) track w)
        finds = rw (s.group_kind_lem target.gvk) (find_ducks-Finds s c lower u name _ track w)

  module _ (name : String) (opts : Opts) (target : Object Content) (w : World) where
    -- `List` lists every wanted duck's resource in the order of the ducks, stops at the first
    -- failure, and converts all the items into its list. `TrackAndList` does so by the tracking
    -- lookup and the tracking lists.
    pub list-ListsAs :
        ListsAs name target false w (λ gvk. u.list gvk opts) (list s c lower u name opts target w)
        × ListsAs name target true w
            (λ gvk. u.track_and_list gvk opts)
            (track_and_list s c lower u name opts target w)
    unfolding list track_and_list
    list-ListsAs = (
      spread-ListsAs name target false w (λ gvk. u.list gvk opts),
      spread-ListsAs name target true w (λ gvk. u.track_and_list gvk opts),
    )
