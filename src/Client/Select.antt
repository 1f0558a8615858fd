-- ===== src/Client/Select.antt =====
-- Which ducks of a list a lookup is about: the loop of `ducks` in `client/client.go`.
use ducks.Prelude.{
  ◌≡◌, ◌↔◌, ◌⊎◌, inl, inr, Bool, true, false, not, ◌&&◌, List, [], ◌∷◌, arith, ◌==◌, eq_iff,
  Bool-cases, if◌then◌else◌,
}
use ducks.Prelude.Text.{◌<>◌}
use ducks.Schema.{Schema, GroupKind, TypeMeta}
use ducks.Conditions.{Conditions}
use ducks.Api.{Duck, DuckType, condition_ready, duck_get_condition, duck_type_get_condition}

abbrev pub is_nil {ℓ} : {A : Type ℓ} → List A → Bool
is_nil [] = true
is_nil (x ∷ xs) = false

module _ (c : Conditions) where
  abbrev pub Ducks : Type 0
  Ducks = List (Duck c.Status)

  -- `apis.ConditionIsTrue` of the `Ready` condition.
  unfoldable pub duck_is_ready : Duck c.Status → Bool
  unfolding duck_get_condition
  duck_is_ready d = c.condition_is_true (duck_get_condition c condition_ready d)

  unfoldable pub duck_type_is_ready : DuckType c.Status → Bool
  unfolding duck_type_get_condition
  duck_type_is_ready t = c.condition_is_true (duck_type_get_condition c condition_ready t)

module _ (s : Schema) (c : Conditions) where
  -- The tests of a group and kind in the loop of `ducks`.
  unfoldable pub matches_kind : GroupKind → Duck c.Status → Bool
  matches_kind gk d =
      if s.is_empty gk
      then true
      else if gk.group == d.spec.group && gk.kind == d.spec.kind
      then true
      else gk.group == d.spec.group && gk.kind == (d.spec.kind <> "List")

  -- The loop of `ducks` over the items of the list.
  unfoldable pub select_ducks : GroupKind → Ducks c → Ducks c
  select_ducks gk [] = []
  select_ducks gk (d ∷ ds) =
      let rest = select_ducks gk ds in
      if not (duck_is_ready c d) then rest else if matches_kind gk d then d ∷ rest else rest

  -- The type metadata of the list of a duck type's ducks.
  unfoldable pub duck_list_meta : DuckType c.Status → TypeMeta
  duck_list_meta t = record {
    api_version = s.group_version_string (record { group = t.spec.group; version = "v1" });
    kind = t.spec.list_kind;
  }

  abbrev pub IsBlank : GroupKind → Type 0
  IsBlank gk = (gk.group ≡ "") × (gk.kind ≡ "")

  -- A duck that a lookup of `gk` is about: it is ready, and `gk` is blank or names the group of the
  -- duck and either its kind or the kind of its lists.
  pub record IsWanted (gk : GroupKind) (d : Duck c.Status) : Type 0 where
    pub ready : duck_is_ready c d ≡ true
    pub kind :
        IsBlank gk
        ⊎ ((gk.group ≡ d.spec.group)
            × ((gk.kind ≡ d.spec.kind) ⊎ (gk.kind ≡ d.spec.kind <> "List")))

  -- The wanted ducks of a list, in its order.
  pub data Selects (gk : GroupKind) : Ducks c → Ducks c → Type 0 where
    done : Selects gk [] []
    keep :
        {d : Duck c.Status} {ds out : Ducks c}
        → IsWanted gk d
        → Selects gk ds out
        → Selects gk (d ∷ ds) (d ∷ out)
    drop :
        {d : Duck c.Status} {ds out : Ducks c}
        → ¬ IsWanted gk d
        → Selects gk ds out
        → Selects gk (d ∷ ds) out

  matches_kind_iff :
      (gk : GroupKind) (d : Duck c.Status)
      → (matches_kind gk d ≡ true) ↔ (
          IsBlank gk
          ⊎ ((gk.group ≡ d.spec.group)
              × ((gk.kind ≡ d.spec.kind) ⊎ (gk.kind ≡ d.spec.kind <> "List"))))
  unfolding matches_kind
  matches_kind_iff gk d = ground (
    arith,
    s.is_empty_iff gk,
    eq_iff gk.group d.spec.group,
    eq_iff gk.kind d.spec.kind,
    eq_iff gk.kind (d.spec.kind <> "List"),
  )

  -- Of the ducks in a list the lookup selects, in the order of the list, exactly those that are
  -- wanted: the ready ones, all of them if no kind is asked for, and otherwise those of the group
  -- whose kind, or whose kind followed by `List`, is the one that is asked for.
  pub select_ducks-Selects : (gk : GroupKind) (ds : Ducks c) → Selects gk ds (select_ducks gk ds)
  unfolding select_ducks
  select_ducks-Selects gk [] = done
  select_ducks-Selects gk (d ∷ ds) = elim (Bool-cases (duck_is_ready c d)) [
    | inr waits ↦ rw waits (drop (λ w. cc (w.ready)) (select_ducks-Selects gk ds))
    | inl ready ↦ rw ready (elim (Bool-cases (matches_kind gk d)) [
      | inl hit ↦ rw hit (
          keep (record { ready = ready; kind = (matches_kind_iff gk d).0 hit })
            (select_ducks-Selects gk ds))
      | inr miss ↦
          rw miss (drop (λ w. cc ((matches_kind_iff gk d).1 w.kind)) (select_ducks-Selects gk ds))
    ])
  ]
