-- ===== src/Examples/Copies.antt =====
-- A memory with a duck in it, and the theorems on deep copies there.
use ducks.Prelude.{ℕ, String, refl, List, [], Option}
use ducks.Copies.{Resource, Arrays, StoredDuck, StoredStatus}
use ducks.Copies.Laws.{Copies}
use ducks.Copies.Parts.{plain, pair, plain-Copies, pair-Copies}
use ducks.Copies.Ducks.{
  duck_resource, duck_type_resource, condition_duck_resource, duck_deep_copy-Copies,
}
use ducks.Copies.Lists.{slice, slice-Copies, list_resource, list_deep_copy-Copies}
use ducks.Copies.Statuses.{status_resource, status_deep_copy-Copies}

abbrev pub ConditionText : Type 0
ConditionText = String × String

-- What the cells hold: labels, conditions and ducks.
pub data Cell : Type 0 where
  labels : List String → Cell
  conditions : List ConditionText → Cell
  duck_items : List (StoredDuck (String × Option ℕ) StoredStatus) → Cell

abbrev labels_in : Cell → List String
labels_in (labels l) = l
labels_in (conditions l) = []
labels_in (duck_items l) = []

abbrev conditions_in : Cell → List ConditionText
conditions_in (conditions l) = l
conditions_in (labels l) = []
conditions_in (duck_items l) = []

abbrev ducks_in : Cell → List (StoredDuck (String × Option ℕ) StoredStatus)
ducks_in (duck_items l) = l
ducks_in (labels l) = []
ducks_in (conditions l) = []

abbrev label_arrays : Arrays Cell String
label_arrays = record { array = labels; elements = labels_in; elements-array = λ l. refl }

abbrev pub condition_arrays : Arrays Cell ConditionText
condition_arrays = record {
  array = conditions;
  elements = conditions_in;
  elements-array = λ l. refl;
}

-- Metadata is a name and labels.
abbrev pub meta : Resource Cell
meta = pair (plain {A = String} "") (slice (plain {A = String} "") label_arrays)

abbrev pub blank_text : ConditionText
blank_text = ("", "Unknown")

abbrev pub status : Resource Cell
status = status_resource (plain blank_text) condition_arrays

pub meta-Copies : Copies meta
meta-Copies =
    pair-Copies (plain {A = String} "") (slice (plain {A = String} "") label_arrays)
      (plain-Copies "") (slice-Copies (plain {A = String} "") label_arrays (plain-Copies ""))

pub status-Copies : Copies status
status-Copies =
    status_deep_copy-Copies (plain blank_text) condition_arrays (plain-Copies blank_text)

abbrev duck_arrays : Arrays Cell (StoredDuck (String × Option ℕ) StoredStatus)
duck_arrays = record { array = duck_items; elements = ducks_in; elements-array = λ l. refl }

duck_deep_copy-Copies_example :
    Copies (duck_resource meta status)
    × Copies (duck_type_resource meta status)
    × Copies (condition_duck_resource meta status)
duck_deep_copy-Copies_example = duck_deep_copy-Copies meta status meta-Copies status-Copies

list_deep_copy-Copies_example :
    Copies (list_resource (plain {A = String} "") (duck_resource meta status) duck_arrays)
list_deep_copy-Copies_example =
    list_deep_copy-Copies (plain {A = String} "") (duck_resource meta status) duck_arrays
      (plain-Copies "") (duck_deep_copy-Copies meta status meta-Copies status-Copies).0
