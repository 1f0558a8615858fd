-- ===== src/Client/Lookup.antt =====
-- What a lookup of ducks returns: each of its outcomes, with the calls that lead to it.
use Prim.Native.Char.{Char}
use ducks.Prelude.{
  String, ◌≡◌, ◌≢◌, ◌⊎◌, inl, inr, refl, Bool, true, false, [], ◌∷◌, Bool-cases, ◌∙◌, ◌==◌,
  if◌then◌else◌,
}
use ducks.Prelude.Text.{◌<>◌}
use ducks.Prelude.Exec.{Result, ok, err, outcome_cases}
use ducks.Schema.{Schema, GroupKind, TypeMeta}
use ducks.Conditions.{Conditions}
use ducks.Api.{DuckType}
use ducks.Api.Webhook.{duck_type_default}
use ducks.Client.Wrapped.{Upstream}
use ducks.Client.Select.{
  Ducks, duck_type_is_ready, duck_list_meta, select_ducks, IsBlank, Selects, select_ducks-Selects,
}
use ducks.Client.{
  ClientError, unknown_duck_type, unknown_duck, duck_type_not_ready, other, read_items, check_found,
  find_ducks,
}

module _ (s : Schema) (c : Conditions) (lower : Char → Char) (u : Upstream c.Status) where
  open u use {World, Error}

  abbrev defaulted : DuckType c.Status → DuckType c.Status
  defaulted t = duck_type_default lower t

  -- The list of the ducks of a duck type, in its group and `v1`: of its list kind or, where it has
  -- none, of its kind with `List`.
  abbrev pub reads : DuckType c.Status → Bool → World → Result Error (Ducks c) × World
  reads t track w =
      let meta : TypeMeta = record {
        api_version = s.group_version_string (record { group = t.spec.group; version = "v1" });
        kind = if t.spec.list_kind == "" then t.spec.kind <> "List" else t.spec.list_kind;
      } in
      if track then u.track_and_list_ducks meta w else u.list_ducks meta w

  reads-eq :
      (t : DuckType c.Status) (track : Bool) (w : World)
      → reads t track w ≡ read_items s c lower u (defaulted t) track w
  unfolding duck_list_meta duck_type_default
  reads-eq t true w = refl
  reads-eq t false w = refl

  -- The outcomes of a lookup in the world `w`.
  pub data Finds (name : String) (gk : GroupKind) (track : Bool) (w : World)
      : Result (ClientError Error) (Ducks c) × World → Type 0 where
    no_such_type :
        {e : Error} {w₁ : World}
        → u.get_duck_type name w ≡ (err e, w₁)
        → u.is_not_found e ≡ true
        → Finds name gk track w (err unknown_duck_type, w₁)
    type_unread :
        {e : Error} {w₁ : World}
        → u.get_duck_type name w ≡ (err e, w₁)
        → u.is_not_found e ≡ false
        → Finds name gk track w (err (other e), w₁)
    type_not_ready :
        {t : DuckType c.Status} {w₁ : World}
        → u.get_duck_type name w ≡ (ok t, w₁)
        → duck_type_is_ready c t ≡ false
        → Finds name gk track w (err duck_type_not_ready, w₁)
    items_unread :
        {t : DuckType c.Status} {e : Error} {w₁ w₂ : World}
        → u.get_duck_type name w ≡ (ok t, w₁)
        → duck_type_is_ready c t ≡ true
        → reads t track w₁ ≡ (err e, w₂)
        → Finds name gk track w (err (other e), w₂)
    nothing_wanted :
        {t : DuckType c.Status} {items : Ducks c} {w₁ w₂ : World}
        → u.get_duck_type name w ≡ (ok t, w₁)
        → duck_type_is_ready c t ≡ true
        → reads t track w₁ ≡ (ok items, w₂)
        → ¬ IsBlank s c gk
        → Selects s c gk items []
        → Finds name gk track w (err unknown_duck, w₂)
    found :
        {t : DuckType c.Status} {items selected : Ducks c} {w₁ w₂ : World}
        → u.get_duck_type name w ≡ (ok t, w₁)
        → duck_type_is_ready c t ≡ true
        → reads t track w₁ ≡ (ok items, w₂)
        → IsBlank s c gk ⊎ (selected ≢ [])
        → Selects s c gk items selected
        → Finds name gk track w (ok selected, w₂)

  module _ (name : String) (gk : GroupKind) (track : Bool) (w : World) where
    default_keeps_ready :
        (t : DuckType c.Status) → duck_type_is_ready c (defaulted t) ≡ duck_type_is_ready c t
    unfolding duck_type_default duck_type_is_ready
    default_keeps_ready t = refl

    module _ {t : DuckType c.Status} {w₁ : World} (read : u.get_duck_type name w ≡ (ok t, w₁))
        (ready : duck_type_is_ready c t ≡ true) where
      checked :
          {items : Ducks c} {w₂ : World}
          → read_items s c lower u (defaulted t) track w₁ ≡ (ok items, w₂)
          → (out : Ducks c) → Selects s c gk items out
          → Finds name gk track w (check_found s c lower u gk out w₂)
      checked listed [] sel = elim (Bool-cases (s.is_empty gk)) [
        | inl blank ↦ rw blank (
            found read ready (reads-eq t track w₁ ∙ listed) (inl ((s.is_empty_iff gk).0 blank)) sel)
        | inr named ↦ rw named (
            nothing_wanted read ready (reads-eq t track w₁ ∙ listed)
              (λ b. cc ((s.is_empty_iff gk).1 b)) sel)
      ]
      checked listed (d ∷ out) sel = elim (Bool-cases (s.is_empty gk)) [
        | inl blank ↦ rw blank (found read ready (reads-eq t track w₁ ∙ listed) (inr (λ e. cc)) sel)
        | inr named ↦ rw named (found read ready (reads-eq t track w₁ ∙ listed) (inr (λ e. cc)) sel)
      ]

    -- From every world a lookup ends as `Finds` says: with an error where the duck type is missing,
    -- unreadable or not ready, where its ducks are unreadable, or where none is wanted although a
    -- kind is asked for; and otherwise with the wanted ducks. Each outcome names its calls in order.
    pub find_ducks-Finds : Finds name gk track w (find_ducks s c lower u name gk track w)
    unfolding find_ducks
    find_ducks-Finds = elim (outcome_cases (u.get_duck_type name w)) [
      | inr (e, w₁, failed) ↦ elim (Bool-cases (u.is_not_found e)) [
        | inl missing ↦ rw (failed, missing) (no_such_type failed missing)
        | inr broken ↦ rw (failed, broken) (type_unread failed broken)
      ]
      | inl (t, w₁, read) ↦ elim (Bool-cases (duck_type_is_ready c t)) [
        | inr waits ↦ rw (read, default_keeps_ready t, waits) (type_not_ready read waits)
        | inl ready ↦
            rw (read, default_keeps_ready t, ready)
              (elim (outcome_cases (read_items s c lower u (defaulted t) track w₁)) [
                | inr (e, w₂, failed) ↦
                    rw failed (items_unread read ready (reads-eq t track w₁ ∙ failed))
                | inl (items, w₂, listed) ↦ rw listed (
                    checked read ready listed (select_ducks s c gk items)
                      (select_ducks-Selects s c gk items))
              ])
      ]
    ]
