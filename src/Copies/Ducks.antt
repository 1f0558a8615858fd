-- ===== src/Copies/Ducks.antt =====
-- Deep copies of ducks and duck types: structs around the parts that have references.
use ducks.Prelude.{◌≡◌, refl, ap, subst, ◌∙◌}
use ducks.Schema.{TypeMeta}
use ducks.Api.{DuckSpec, DuckTypeSpec}
use ducks.Copies.{
  Resource, StoredDuck, StoredDuckType, StoredConditionDuck, duck_deep_copy, duck_type_deep_copy,
  condition_duck_deep_copy,
}
use ducks.Copies.Laws.{Copies}
use ducks.Copies.Parts.{pair, pair-Copies}

abbrev pub blank_type_meta : TypeMeta
blank_type_meta = record { api_version = ""; kind = "" }

abbrev pub blank_spec : DuckSpec
blank_spec = record { group = ""; version = ""; kind = "" }

abbrev pub blank_type_spec : DuckTypeSpec
blank_type_spec = record { group = ""; plural = ""; singular = ""; kind = ""; list_kind = "" }

module _ {C : Type 0} where
  -- A struct `D` around a value of `x`: how to read the value in it and how to replace it.
  pub record Struct (x : Resource C) : Type 1 where
    pub D : Type 0
    pub V : Type 0
    pub zero : D
    pub part : D → x.Value
    pub with_part : D → x.Value → D
    pub seen : D → x.View → V
    pub part-with : (d : D) (v : x.Value) → part (with_part d v) ≡ v
    pub seen-with : (d : D) (v : x.Value) (w : x.View) → seen (with_part d v) w ≡ seen d w

  module _ (x : Resource C) (s : Struct x) where
    open s use {D, V, part, with_part, seen, part-with, seen-with}

    abbrev pub struct : Resource C
    struct = record {
      Value = D;
      View = V;
      zero = s.zero;
      view = λ d m. seen d (x.view (part d) m);
      Owns = λ d m i. x.Owns (part d) m i;
      deep_copy = λ d m. let (v, m') = x.deep_copy (part d) m in (with_part d v, m');
    }

    pub struct-Copies : Copies x → Copies struct
    struct-Copies p = record {
      view-frame = λ d m m' same. ap (seen d) (p.view-frame (part d) m m' same);
      owns-frame = λ d m m' same. p.owns-frame (part d) m m' same;
      extends = λ d m. p.extends (part d) m;
      fresh = λ d m i o. p.fresh (part d) m i (
          subst (λ v. x.Owns v (x.deep_copy (part d) m).1 i)
            (part-with d (x.deep_copy (part d) m).0) o);
      view-copy = λ d m held.
          seen-with d (x.deep_copy (part d) m).0 _
          ∙ ap (seen d) (
              ap (λ v. x.view v (x.deep_copy (part d) m).1) (part-with d (x.deep_copy (part d) m).0)
              ∙ p.view-copy (part d) m held);
    }

  module _ (object_meta status : Resource C) where
    abbrev pub duck_struct : Struct (pair object_meta status)
    duck_struct = record {
      D = StoredDuck object_meta.Value status.Value;
      V = StoredDuck object_meta.View status.View;
      zero = record {
        type_meta = blank_type_meta;
        object_meta = object_meta.zero;
        spec = blank_spec;
        status = status.zero;
      };
      part = λ d. (d.object_meta, d.status);
      with_part = λ d v. record d { object_meta = v.0; status = v.1 };
      seen =
          λ d w. record { type_meta = d.type_meta; object_meta = w.0; spec = d.spec; status = w.1 };
      part-with = λ d v. refl;
      seen-with = λ d v w. refl;
    }

    abbrev pub duck_type_struct : Struct (pair object_meta status)
    duck_type_struct = record {
      D = StoredDuckType object_meta.Value status.Value;
      V = StoredDuckType object_meta.View status.View;
      zero = record {
        type_meta = blank_type_meta;
        object_meta = object_meta.zero;
        spec = blank_type_spec;
        status = status.zero;
      };
      part = λ d. (d.object_meta, d.status);
      with_part = λ d v. record d { object_meta = v.0; status = v.1 };
      seen =
          λ d w. record { type_meta = d.type_meta; object_meta = w.0; spec = d.spec; status = w.1 };
      part-with = λ d v. refl;
      seen-with = λ d v w. refl;
    }

    abbrev pub condition_duck_struct : Struct (pair object_meta status)
    condition_duck_struct = record {
      D = StoredConditionDuck object_meta.Value status.Value;
      V = StoredConditionDuck object_meta.View status.View;
      zero = record {
        type_meta = blank_type_meta;
        object_meta = object_meta.zero;
        status = status.zero;
      };
      part = λ d. (d.object_meta, d.status);
      with_part = λ d v. record d { object_meta = v.0; status = v.1 };
      seen = λ d w. record { type_meta = d.type_meta; object_meta = w.0; status = w.1 };
      part-with = λ d v. refl;
      seen-with = λ d v w. refl;
    }

    -- The resources of the three types, with their own deep copies.
    abbrev pub duck_resource : Resource C
    duck_resource = record (struct (pair object_meta status) duck_struct) {
      deep_copy = duck_deep_copy object_meta status;
    }

    abbrev pub duck_type_resource : Resource C
    duck_type_resource = record (struct (pair object_meta status) duck_type_struct) {
      deep_copy = duck_type_deep_copy object_meta status;
    }

    abbrev pub condition_duck_resource : Resource C
    condition_duck_resource = record (struct (pair object_meta status) condition_duck_struct) {
      deep_copy = condition_duck_deep_copy object_meta status;
    }

    -- If the copies of the metadata and of the status are deep, then so are those of ducks, of duck
    -- types and of condition ducks: a copy of a value that refers to cells in use reads as its
    -- original, and every copy writes to no cell in use and owns new cells only. What a value reads
    -- and owns depends on the cells that it owns.
    pub duck_deep_copy-Copies :
        Copies object_meta
        → Copies status
        → Copies duck_resource × Copies duck_type_resource × Copies condition_duck_resource
    unfolding duck_deep_copy duck_type_deep_copy condition_duck_deep_copy
    duck_deep_copy-Copies p q = (
      struct-Copies (pair object_meta status) duck_struct (pair-Copies object_meta status p q),
      struct-Copies (pair object_meta status) duck_type_struct (pair-Copies object_meta status p q),
      struct-Copies (pair object_meta status) condition_duck_struct
          (pair-Copies object_meta status p q),
    )
