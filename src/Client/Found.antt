-- ===== src/Client/Found.antt =====
-- Which ducks a lookup returns.
use Prim.Native.Char.{Char}
use ducks.Prelude.{
  String, ◌≡◌, ◌↔◌, ◌⊎◌, inl, inr, refl, sym, subst, Bool, true, [], ◌∷◌, In, Bool-cases, ↔-trans,
}
use ducks.Prelude.Text.{◌<>◌}
use ducks.Prelude.Exec.{Result, ok, err}
use ducks.Schema.{Schema, GroupKind}
use ducks.Conditions.{Conditions}
use ducks.Api.{Duck, DuckType, DuckSpec}
use ducks.Api.Webhook.{duck_type_default}
use ducks.Client.Wrapped.{Upstream}
use ducks.Client.Select.{
  Ducks, duck_type_is_ready, select_ducks, IsBlank, IsWanted, Selects, done, keep, drop,
  select_ducks-Selects,
}
use ducks.Client.{ClientError, read_items, check_found, find_ducks}

default_keeps_ready :
    (lower : Char → Char) (c : Conditions) (t : DuckType c.Status)
    → duck_type_is_ready c (duck_type_default lower t) ≡ duck_type_is_ready c t
unfolding duck_type_default duck_type_is_ready
default_keeps_ready lower c t = refl

module _ (s : Schema) (c : Conditions) where
  -- A selection has exactly the wanted ducks of its list.
  Selects-In :
      {gk : GroupKind} {ds out : Ducks c} (d : Duck c.Status)
      → Selects s c gk ds out
      → In d out ↔ (In d ds × IsWanted s c gk d)
  Selects-In d done = ((λ i. absurd i), λ h. h.0)
  Selects-In d (keep w rest) = (
    (λ i. elim i [
      | inl e ↦ (inl e, subst (IsWanted s c _) (sym e) w)
      | inr j ↦ let (k, w') = (Selects-In d rest).0 j in (inr k, w')
    ]),
    λ h. elim (h.0) [ inl e ↦ inl e | inr j ↦ inr ((Selects-In d rest).1 (j, h.1)) ],
  )
  Selects-In d (drop unwanted rest) = (
    (λ i. let (k, w) = (Selects-In d rest).0 i in (inr k, w)),
    λ h. elim (h.0) [
      | inl e ↦ absurd (unwanted (subst (IsWanted s c _) e (h.1)))
      | inr j ↦ (Selects-In d rest).1 (j, h.1)
    ],
  )

module _ (s : Schema) (c : Conditions) (lower : Char → Char) (u : Upstream c.Status) where
  open u use {World, Error}

  -- A duck is among those that a lookup returns.
  abbrev pub Found : Duck c.Status → Result (ClientError Error) (Ducks c) × World → Type 0
  Found d (ok out, w) = In d out
  Found d (err e, w) = ⊥

  Found-check_found :
      (gk : GroupKind) (d : Duck c.Status) (out : Ducks c) (w : World)
      → Found d (check_found s c lower u gk out w) ↔ In d out
  Found-check_found gk d [] w = elim (Bool-cases (s.is_empty gk)) [
    | inl blank ↦ rw blank ((λ i. i), λ i. i)
    | inr named ↦ rw named ((λ i. i), λ i. i)
  ]
  Found-check_found gk d (x ∷ xs) w = elim (Bool-cases (s.is_empty gk)) [
    | inl blank ↦ rw blank ((λ i. i), λ i. i)
    | inr named ↦ rw named ((λ i. i), λ i. i)
  ]

  -- A lookup in a ready duck type whose ducks are read returns exactly the wanted ones.
  pub Found-find_ducks :
      (name : String) (gk : GroupKind) (track : Bool) (t : DuckType c.Status) (ds : Ducks c)
      (w w₁ w₂ : World) (d : Duck c.Status)
      → u.get_duck_type name w ≡ (ok t, w₁)
      → duck_type_is_ready c t ≡ true
      → read_items s c lower u (duck_type_default lower t) track w₁ ≡ (ok ds, w₂)
      → Found d (find_ducks s c lower u name gk track w) ↔ (In d ds × IsWanted s c gk d)
  unfolding find_ducks
  Found-find_ducks name gk track t ds w w₁ w₂ d read ready listed =
      ↔-trans
        (rw (read, default_keeps_ready lower c t, ready, listed)
          (Found-check_found gk d (select_ducks s c gk ds) w₂))
        (Selects-In s c d (select_ducks-Selects s c gk ds))

  -- A lookup asks for a group and kind, or a kind of lists, or for all.
  abbrev pub AsksFor : GroupKind → DuckSpec → Type 0
  AsksFor gk spec =
      IsBlank s c gk
      ⊎ ((gk.group ≡ spec.group) × ((gk.kind ≡ spec.kind) ⊎ (gk.kind ≡ spec.kind <> "List")))
