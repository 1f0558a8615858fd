-- ===== src/Copies/Lists.antt =====
-- Deep copies of `DuckList`, `DuckTypeList` and `ConditionDuckList`, and of the slices in them.
use ducks.Prelude.{
  ℕ, ◌≤◌, ◌<◌, ◌≡◌, ◌⊎◌, inl, inr, refl, ap, subst, ◌∙◌, arith, List, Option, none, some, eqb,
  if◌then◌else◌,
}
use ducks.Schema.{TypeMeta}
use ducks.Copies.{
  Memory, Resource, Arrays, StoredList, each_deep_copy, slice_deep_copy, list_deep_copy, alloc,
}
use ducks.Copies.Laws.{Held, Agree, Extends, Copies, Extends-trans, Extends-view}
use ducks.Copies.Parts.{pair, pair-Copies}
use ducks.Copies.Ducks.{Struct, struct, struct-Copies, blank_type_meta}
use ducks.Copies.Slices.{each, each-Copies}

module _ {C : Type 0} where
  pub alloc-Extends : (c : C) (m : Memory C) → Extends m (alloc c m).1
  alloc-Extends c m = record { grows = omega arith; kept = λ i h. ground arith }

module _ {C : Type 0} (x : Resource C) (arrays : Arrays C x.Value) where
  abbrev elements_at : ℕ → Memory C → List x.Value
  elements_at a m = arrays.elements (m.cell a)

  abbrev slice_view : Option ℕ → Memory C → Option (each x).View
  slice_view none m = none
  slice_view (some a) m = some ((each x).view (elements_at a m) m)

  abbrev SliceOwns : Option ℕ → Memory C → ℕ → Type 0
  SliceOwns none m i = ⊥
  SliceOwns (some a) m i = (i ≡ a) ⊎ (each x).Owns (elements_at a m) m i

  abbrev pub slice : Resource C
  slice = record {
    Value = Option ℕ;
    View = Option (each x).View;
    zero = none;
    view = slice_view;
    Owns = SliceOwns;
    deep_copy = slice_deep_copy x arrays;
  }

  module _ (p : Copies x) where
    q : Copies (each x)
    q = each-Copies x p

    same_elements :
        (a : ℕ) (m m' : Memory C) → Agree slice (some a) m m' → elements_at a m' ≡ elements_at a m
    same_elements a m m' same = ap arrays.elements (same a (inl refl))

    slice-view-frame :
        (v : Option ℕ) (m m' : Memory C) → Agree slice v m m' → slice_view v m' ≡ slice_view v m
    slice-view-frame none m m' same = refl
    slice-view-frame (some a) m m' same = ap some (
        ap (λ vs. (each x).view vs m') (same_elements a m m' same)
        ∙ q.view-frame (elements_at a m) m m' (λ i o. same i (inr o)))

    slice-owns-frame :
        (v : Option ℕ) (m m' : Memory C)
        → Agree slice v m m'
        → (i : ℕ) → SliceOwns v m' i
        → SliceOwns v m i
    slice-owns-frame none m m' same i o = o
    slice-owns-frame (some a) m m' same i (inl e) = inl e
    slice-owns-frame (some a) m m' same i (inr o) = inr (
        q.owns-frame (elements_at a m) m m' (λ j o'. same j (inr o')) i
          (subst (λ vs. (each x).Owns vs m' i) (same_elements a m m' same) o))

    -- The copied elements, before and after their array gets its cell.
    module _ (vs : List x.Value) (m : Memory C) where
      abbrev copied : List x.Value
      copied = (each_deep_copy x vs m).0

      abbrev before : Memory C
      before = (each_deep_copy x vs m).1

      abbrev after : Memory C
      after = (alloc (arrays.array copied) before).1

      stored : elements_at before.next after ≡ copied
      stored = ap arrays.elements (if_here before.next) ∙ arrays.elements-array copied
        where
          if_here :
              (i : ℕ)
              → (if eqb i i then arrays.array copied else before.cell i) ≡ arrays.array copied
          if_here i = ground arith

      slice-fresh : (i : ℕ) → SliceOwns (some before.next) after i → (m.next ≤ i) × (i < after.next)
      slice-fresh i (inl e) = omega (arith, (q.extends vs m).grows, e)
      slice-fresh i (inr o) =
          let (low, high) = q.fresh vs m i (
            q.owns-frame copied before after
              (λ j o'. (alloc-Extends (arrays.array copied) before).kept j (q.fresh vs m j o').1) i
              (subst (λ vs. (each x).Owns vs after i) stored o)) in
          (low, omega (arith, high))

      slice-view-copy :
          Held (each x) vs m → slice_view (some before.next) after ≡ some ((each x).view vs m)
      slice-view-copy held = ap some (
          ap (λ vs. (each x).view vs after) stored
          ∙ (Extends-view (each x) q copied (λ j o. (q.fresh vs m j o).1)
                (alloc-Extends (arrays.array copied) before)
              ∙ q.view-copy vs m held))

    pub slice-Copies : Copies slice
    unfolding slice_deep_copy
    slice-Copies = record {
      view-frame = slice-view-frame;
      owns-frame = slice-owns-frame;
      extends = extends;
      fresh = fresh;
      view-copy = view-copy;
    }
      where
        extends : (v : Option ℕ) (m : Memory C) → Extends m (slice.deep_copy v m).1
        extends none m = record { grows = omega arith; kept = λ i h. refl }
        extends (some a) m =
            Extends-trans (q.extends (elements_at a m) m)
              (alloc-Extends _ (before (elements_at a m) m))

        fresh :
            (v : Option ℕ) (m : Memory C) (i : ℕ)
            → SliceOwns (slice.deep_copy v m).0 (slice.deep_copy v m).1 i
            → (m.next ≤ i) × (i < (slice.deep_copy v m).1.next)
        fresh none m i o = absurd o
        fresh (some a) m i o = slice-fresh (elements_at a m) m i o

        view-copy :
            (v : Option ℕ) (m : Memory C)
            → Held slice v m
            → slice_view (slice.deep_copy v m).0 (slice.deep_copy v m).1 ≡ slice_view v m
        view-copy none m held = refl
        view-copy (some a) m held = slice-view-copy (elements_at a m) m (λ i o. held i (inr o))

module _ {C : Type 0} (list_meta x : Resource C) (arrays : Arrays C x.Value) where
  abbrev list_struct : Struct (pair list_meta (slice x arrays))
  list_struct = record {
    D = StoredList list_meta.Value;
    V = TypeMeta × list_meta.View × Option (each x).View;
    zero = record { type_meta = blank_type_meta; list_meta = list_meta.zero; items = none };
    part = λ d. (d.list_meta, d.items);
    with_part = λ d v. record d { list_meta = v.0; items = v.1 };
    seen = λ d w. (d.type_meta, w.0, w.1);
    part-with = λ d v. refl;
    seen-with = λ d v w. refl;
  }

  abbrev pub list_resource : Resource C
  list_resource = record (struct (pair list_meta (slice x arrays)) list_struct) {
    deep_copy = list_deep_copy x arrays list_meta;
  }

  -- If the copies of a list's metadata and of its items are deep, then so are those of the list: a
  -- copy of a list that refers to cells in use reads as its original, item by item, and every copy
  -- writes to no cell in use and owns new cells only, with the array of its items among them. What
  -- a list reads and owns depends on the cells that it owns.
  pub list_deep_copy-Copies : Copies list_meta → Copies x → Copies list_resource
  unfolding list_deep_copy slice_deep_copy
  list_deep_copy-Copies p r =
      struct-Copies (pair list_meta (slice x arrays)) list_struct
        (pair-Copies list_meta (slice x arrays) p (slice-Copies x arrays r))
