-- ===== src/Copies/Statuses.antt =====
-- Deep copies of `ConditionDuckStatus`.
use ducks.Prelude.{ℕ, refl, none}
use ducks.Copies.{Resource, Arrays, StoredStatus, status_deep_copy, slice_deep_copy}
use ducks.Copies.Laws.{Copies}
use ducks.Copies.Ducks.{Struct, struct, struct-Copies}
use ducks.Copies.Lists.{slice, slice-Copies}

module _ {C : Type 0} (x : Resource C) (arrays : Arrays C x.Value) where
  abbrev pub status_struct : Struct (slice x arrays)
  status_struct = record {
    D = StoredStatus;
    V = ℕ × (slice x arrays).View;
    zero = record { observed_generation = 0; conditions = none };
    part = λ d. d.conditions;
    with_part = λ d v. record d { conditions = v };
    seen = λ d w. (d.observed_generation, w);
    part-with = λ d v. refl;
    seen-with = λ d v w. refl;
  }

  abbrev pub status_resource : Resource C
  status_resource = record (struct (slice x arrays) status_struct) {
    deep_copy = status_deep_copy x arrays;
  }

  pub status_deep_copy-Copies : Copies x → Copies status_resource
  unfolding status_deep_copy slice_deep_copy
  status_deep_copy-Copies p = struct-Copies (slice x arrays) status_struct (slice-Copies x arrays p)
