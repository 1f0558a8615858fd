-- ===== src/Copies/Laws.antt =====
-- What a deep copy promises: it reads the same, and it shares nothing with its original.
use ducks.Prelude.{ℕ, ◌≤◌, ◌<◌, ◌≡◌, refl, ◌∙◌, arith}
use ducks.Copies.{Memory, Resource}

module _ {C : Type 0} where
  -- All cells that a value owns are in use.
  abbrev pub Held : (x : Resource C) → x.Value → Memory C → Type 0
  Held x v m = (i : ℕ) → x.Owns v m i → i < m.next

  -- Two memories agree on the cells that a value owns in the first.
  abbrev pub Agree : (x : Resource C) → x.Value → Memory C → Memory C → Type 0
  Agree x v m m' = (i : ℕ) → x.Owns v m i → m'.cell i ≡ m.cell i

  -- The second memory came from the first with none of its cells written.
  pub record Extends (m m' : Memory C) : Type 0 where
    pub grows : m.next ≤ m'.next
    pub kept : (i : ℕ) → i < m.next → m'.cell i ≡ m.cell i

  pub record Copies (x : Resource C) : Type 0 where
    -- What a value reads and owns depends on the cells that it owns, and on no others.
    pub view-frame : (v : x.Value) (m m' : Memory C) → Agree x v m m' → x.view v m' ≡ x.view v m
    pub owns-frame :
        (v : x.Value) (m m' : Memory C) → Agree x v m m' → (i : ℕ) → x.Owns v m' i → x.Owns v m i
    -- A copy writes to no cell in use, owns only new cells, and reads as its original.
    pub extends : (v : x.Value) (m : Memory C) → Extends m (x.deep_copy v m).1
    pub fresh :
        (v : x.Value) (m : Memory C) (i : ℕ)
        → x.Owns (x.deep_copy v m).0 (x.deep_copy v m).1 i
        → (m.next ≤ i) × (i < (x.deep_copy v m).1.next)
    pub view-copy :
        (v : x.Value) (m : Memory C)
        → Held x v m
        → x.view (x.deep_copy v m).0 (x.deep_copy v m).1 ≡ x.view v m

  pub Extends-refl : (m : Memory C) → Extends m m
  Extends-refl m = record { grows = omega arith; kept = λ i h. refl }

  pub Extends-trans : {m m' m'' : Memory C} → Extends m m' → Extends m' m'' → Extends m m''
  Extends-trans {m} {m'} a b = record {
    grows = omega (arith, a.grows, b.grows);
    kept = λ i h. b.kept i (omega (arith, a.grows)) ∙ a.kept i h;
  }

  module _ (x : Resource C) (laws : Copies x) where
    -- A held value is not touched by an extension.
    pub Extends-Agree : (v : x.Value) {m m' : Memory C} → Held x v m → Extends m m' → Agree x v m m'
    Extends-Agree v held e i o = e.kept i (held i o)

    pub Extends-view :
        (v : x.Value) {m m' : Memory C} → Held x v m → Extends m m' → x.view v m' ≡ x.view v m
    Extends-view v {m} {m'} held e = laws.view-frame v m m' (Extends-Agree v held e)

    pub Extends-Held : (v : x.Value) {m m' : Memory C} → Held x v m → Extends m m' → Held x v m'
    Extends-Held v {m} {m'} held e i o =
        let old = held i (laws.owns-frame v m m' (Extends-Agree v held e) i o) in
        omega (arith, e.grows)

    pub copy-Held : (v : x.Value) (m : Memory C) → Held x (x.deep_copy v m).0 (x.deep_copy v m).1
    copy-Held v m i o = (laws.fresh v m i o).1
