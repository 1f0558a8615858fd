-- ===== src/Examples/Dies.antt =====
-- Two dies, a blank one and one with a duck, and the theorems on dies there.
use ducks.Prelude.{
  true, ℕ, String, ◌<◌, ◌≡◌, ◌⊎◌, inl, inr, refl, arith, false, suc, zero, List, [], ◌∷◌, Option,
  some,
}
use ducks.Copies.{Memory, StoredDuck, StoredStatus}
use ducks.Copies.Laws.{Copies, Held}
use ducks.Copies.Ducks.{duck_deep_copy-Copies, blank_type_meta}
use ducks.Dies.Stamps.{IsLocal, LocalFn, act_each}
use ducks.Dies.Keeps.{view_of, IsSound, IsKept}
use ducks.Dies.Chains.{Chain, nothing, next, stamping, building, sealing}
use ducks.Dies.Blank.{IsBlank, die_blank-IsKept}
use ducks.Dies.With.Building.{stamps}
use ducks.Dies.With.{die_with_lem}
use ducks.Dies.Sealing.{seal_of, die_stamp-die_seal}
use ducks.Dies.Edits.{edit-IsLocal}
use ducks.Dies.Types.{edit, MetaDies, duck_dies}
use ducks.Dies.{DieKind, Die, Dies, die_blank, die_stamp, die_with, die_seal}
use ducks.Examples.Copies.{Cell, meta, status, meta-Copies, status-Copies}

-- A callback on metadata sets the name; the frozen metadata is the name.
abbrev pub metas : MetaDies meta
metas = record {
  ObjectFn = String;
  TypeFn = Unit {0};
  Frozen = String;
  freeze = λ v. v.0;
  object_meta_die = λ n v m. ((n, v.1), m);
  type_meta_die = λ fn v. v;
  name = λ n. n;
}

abbrev pub kind : DieKind Cell
kind = duck_dies meta status metas

abbrev pub kind-Copies : Copies kind.resource
kind-Copies = (duck_deep_copy-Copies meta status meta-Copies status-Copies).0

abbrev DuckValue : Type 0
DuckValue = StoredDuck (String × Option ℕ) StoredStatus

-- The labels of the duck are in cell 0, and its conditions in cell 1.
abbrev memory : Memory Cell
memory = record { next = 2; cell = cells }
  where
    cells : ℕ → Cell
    cells zero = Cell.labels ("app" ∷ [])
    cells (suc n) = Cell.conditions (("Ready", "True") ∷ [])

abbrev pub stored_duck : DuckValue
stored_duck = record {
  type_meta = blank_type_meta;
  object_meta = ("secrets", some 0);
  spec = record { group = "external-secrets.io"; version = "v1"; kind = "ExternalSecret" };
  status = record { observed_generation = 3; conditions = some 1 };
}

abbrev die_at : ℕ → Die DuckValue String
die_at zero = record {
  frozen = "";
  mutable = false;
  r = kind.resource.zero;
  seal = kind.resource.zero;
}
die_at (suc n) = record {
  frozen = "secrets";
  mutable = false;
  r = stored_duck;
  seal = kind.resource.zero;
}

abbrev pub two_dies : Dies kind
two_dies = record { memory = memory; count = 2; die = die_at }

blank-Held : Held kind.resource kind.resource.zero memory
blank-Held i (inl (inl o)) = absurd o
blank-Held i (inl (inr o)) = absurd o
blank-Held i (inr o) = absurd o

duck-Held : Held kind.resource stored_duck memory
duck-Held i (inl (inl o)) = absurd o
duck-Held i (inl (inr (inl e))) = omega (arith, e)
duck-Held i (inl (inr (inr (inl o)))) = absurd o
duck-Held i (inl (inr (inr (inr o)))) = absurd o
duck-Held i (inr (inl e)) = omega (arith, e)
duck-Held i (inr (inr (inl o))) = absurd o
duck-Held i (inr (inr (inr o))) = absurd o

r-Held : (q : ℕ) → q < 2 → Held kind.resource (die_at q).r memory
r-Held zero h = blank-Held
r-Held (suc n) h = duck-Held

seal-Held : (q : ℕ) → q < 2 → Held kind.resource (die_at q).seal memory
seal-Held zero h = blank-Held
seal-Held (suc n) h = blank-Held

pub two_dies-IsSound : IsSound kind two_dies
two_dies-IsSound = record { r = r-Held; seal = seal-Held }

-- A function that sets the version of the spec.
abbrev pub set_version : {M S : Type 0} → StoredDuck M S → StoredDuck M S
set_version r = record r { spec = record r.spec { version = "v2" } }

pub set_version-IsLocal : IsLocal kind.resource (edit kind set_version) set_version
set_version-IsLocal = edit-IsLocal kind (record { owns = λ r m i o. o; acts = λ r m. refl })

abbrev callbacks : List (LocalFn kind.resource)
callbacks =
    record { fn = edit kind set_version; act = set_version; local = set_version-IsLocal } ∷ []

abbrev declared : ℕ × Dies kind
declared = die_blank kind "" two_dies

abbrev stamped_blank : ℕ × Dies kind
stamped_blank = die_stamp kind declared.0 (edit kind set_version) declared.1

one_stamp : Chain kind kind-Copies declared.1 stamped_blank.1
unfolding die_blank
one_stamp =
    next nothing (
      stamping declared.0 (edit kind set_version) set_version (omega arith) refl
        set_version-IsLocal)

abbrev built : ℕ × Dies kind
built = die_with kind declared.0 stamped_blank.0 (stamps kind kind-Copies callbacks) stamped_blank.1

abbrev sealed : ℕ × Dies kind
sealed = die_seal kind built.0 built.1

built_and_sealed : Chain kind kind-Copies stamped_blank.1 sealed.1
unfolding die_blank die_stamp die_with
built_and_sealed =
    next
      (next nothing
        (building declared.0 stamped_blank.0 callbacks (omega arith) refl (omega arith) refl))
      (sealing built.0 (omega arith) refl)

die_blank-IsKept_example :
    IsKept kind stamped_blank.1 sealed.1
    × IsSound kind sealed.1
    × IsBlank kind kind-Copies "" two_dies declared.0 sealed.1
die_blank-IsKept_example =
    die_blank-IsKept kind kind-Copies "" two_dies two_dies-IsSound blank-Held one_stamp
      built_and_sealed

die_with_lem_example :
    let out = die_with kind 0 1 (stamps kind kind-Copies callbacks) two_dies in
    (view_of kind out.0 out.1 ≡ act_each kind.resource callbacks (view_of kind 1 two_dies))
    × (((two_dies.die 1).mutable ≡ true) ⊎ IsKept kind two_dies out.1)
die_with_lem_example =
    die_with_lem kind kind-Copies 0 1 callbacks two_dies two_dies-IsSound (omega arith) refl

die_stamp-die_seal_example :
    let sealed = die_seal kind 1 two_dies in
    let out = die_stamp kind sealed.0 (edit kind set_version) sealed.1 in
    (view_of kind out.0 out.1 ≡ set_version (view_of kind 1 two_dies))
    × (seal_of kind kind-Copies out.0 out.1 ≡ view_of kind 1 two_dies)
die_stamp-die_seal_example =
    die_stamp-die_seal kind kind-Copies 1 two_dies (edit kind set_version) set_version
      two_dies-IsSound (omega arith) set_version-IsLocal
