-- ===== src/Copies.antt =====
-- Values in memory and their deep copies: `zz_generated.deepcopy.go` of `api/v1` and of
-- `internal/testresources`. A value may refer to cells of the memory, those of its maps and slices;
-- what a copy function of another package does with them is a `Resource`.
pub mod Laws
pub mod Parts
pub mod Ducks
pub mod Slices
pub mod Lists
pub mod Statuses
pub mod Methods
use ducks.Prelude.{ℕ, ◌+◌, ◌≡◌, eqb, if◌then◌else◌, List, [], ◌∷◌, Option, none, some}
use ducks.Schema.{TypeMeta}
use ducks.Api.{DuckSpec, DuckTypeSpec}

-- The cells in use are those below `next`.
pub record Memory (C : Type 0) : Type 0 where
  pub next : ℕ
  pub cell : ℕ → C

-- A Go type: its values, what can be read from one, the cells that it owns through references, and
-- its methods `DeepCopy` and `DeepCopyInto`, as one function.
pub record Resource (C : Type 0) : Type 1 where
  pub Value : Type 0
  pub View : Type 0
  pub zero : Value
  pub view : Value → Memory C → View
  pub Owns : Value → Memory C → ℕ → Type 0
  pub deep_copy : Value → Memory C → Value × Memory C

-- `Duck` and `DuckType` as they stand in memory, with the metadata and the status of their packages.
pub record StoredDuck (M S : Type 0) : Type 0 where
  pub type_meta : TypeMeta
  pub object_meta : M
  pub spec : DuckSpec
  pub status : S

pub record StoredDuckType (M S : Type 0) : Type 0 where
  pub type_meta : TypeMeta
  pub object_meta : M
  pub spec : DuckTypeSpec
  pub status : S

-- `DuckList` and `DuckTypeList`; the slice of the items is nil, or the cell
-- with its array.
pub record StoredList (L : Type 0) : Type 0 where
  pub type_meta : TypeMeta
  pub list_meta : L
  pub items : Option ℕ

-- `ConditionDuckStatus` and the `apis.Status` of the other types: the observed generation, by its bits,
-- and the slice of the conditions.
pub record StoredStatus : Type 0 where
  pub observed_generation : ℕ
  pub conditions : Option ℕ

-- `ConditionDuck`
pub record StoredConditionDuck (M S : Type 0) : Type 0 where
  pub type_meta : TypeMeta
  pub object_meta : M
  pub status : S

-- `DeepCopy` on a pointer, which is nil or a value.
abbrev pub deep_copy_ptr :
    {C : Type 0} (x : Resource C) → Option x.Value → Memory C → Option x.Value × Memory C
deep_copy_ptr x none m = (none, m)
deep_copy_ptr x (some v) m = let (v', m') = x.deep_copy v m in (some v', m')

module _ {C : Type 0} (object_meta status : Resource C) where
  unfoldable pub duck_deep_copy :
      StoredDuck object_meta.Value status.Value
      → Memory C
      → StoredDuck object_meta.Value status.Value × Memory C
  duck_deep_copy in_duck m =
      let (meta, m₁) = object_meta.deep_copy in_duck.object_meta m in
      let (st, m₂) = status.deep_copy in_duck.status m₁ in
      (record in_duck { object_meta = meta; status = st }, m₂)

  unfoldable pub duck_type_deep_copy :
      StoredDuckType object_meta.Value status.Value
      → Memory C
      → StoredDuckType object_meta.Value status.Value × Memory C
  duck_type_deep_copy in_type m =
      let (meta, m₁) = object_meta.deep_copy in_type.object_meta m in
      let (st, m₂) = status.deep_copy in_type.status m₁ in
      (record in_type { object_meta = meta; status = st }, m₂)

  unfoldable pub condition_duck_deep_copy :
      StoredConditionDuck object_meta.Value status.Value
      → Memory C
      → StoredConditionDuck object_meta.Value status.Value × Memory C
  condition_duck_deep_copy in_duck m =
      let (meta, m₁) = object_meta.deep_copy in_duck.object_meta m in
      let (st, m₂) = status.deep_copy in_duck.status m₁ in
      (record in_duck { object_meta = meta; status = st }, m₂)

-- Arrays of `D` in cells.
pub record Arrays (C D : Type 0) : Type 0 where
  pub array : List D → C
  pub elements : C → List D
  pub elements-array : (ds : List D) → elements (array ds) ≡ ds

-- The loop over the items of a list.
pub each_deep_copy :
    {C : Type 0} (x : Resource C) → List x.Value → Memory C → List x.Value × Memory C
each_deep_copy x [] m = ([], m)
each_deep_copy x (v ∷ vs) m =
    let (v', m₁) = x.deep_copy v m in let (vs', m₂) = each_deep_copy x vs m₁ in (v' ∷ vs', m₂)

-- A new cell.
abbrev pub alloc : {C : Type 0} → C → Memory C → ℕ × Memory C
alloc c m = (m.next, record { next = m.next + 1; cell = λ i. if eqb i m.next then c else m.cell i })

module _ {C : Type 0} (x : Resource C) (arrays : Arrays C x.Value) where
  -- A slice: the array is filled before it is known by its cell.
  unfoldable pub slice_deep_copy : Option ℕ → Memory C → Option ℕ × Memory C
  unfolding each_deep_copy
  slice_deep_copy none m = (none, m)
  slice_deep_copy (some a) m =
      let (vs, m₁) = each_deep_copy x (arrays.elements (m.cell a)) m in
      let (a', m₂) = alloc (arrays.array vs) m₁ in (some a', m₂)

  unfoldable pub list_deep_copy :
      (list_meta : Resource C)
      → StoredList list_meta.Value
      → Memory C
      → StoredList list_meta.Value × Memory C
  unfolding slice_deep_copy
  list_deep_copy list_meta in_list m =
      let (meta, m₁) = list_meta.deep_copy in_list.list_meta m in
      let (items, m₂) = slice_deep_copy in_list.items m₁ in
      (record in_list { list_meta = meta; items = items }, m₂)

  -- `ConditionDuckStatus`, whose conditions are the slice.
  unfoldable pub status_deep_copy : StoredStatus → Memory C → StoredStatus × Memory C
  unfolding slice_deep_copy
  status_deep_copy in_status m =
      let (conditions, m₁) = slice_deep_copy in_status.conditions m in
      (record in_status { conditions = conditions }, m₁)

-- `DuckSpec` and `DuckTypeSpec` are plain values.
unfoldable pub plain_deep_copy : {A C : Type 0} → A → Memory C → A × Memory C
plain_deep_copy a m = (a, m)
