-- ===== src/Copies/Methods.antt =====
-- The methods that `zz_generated.deepcopy.go` gives to each type.
use ducks.Prelude.{Option, none, some}
use ducks.Copies.{Memory, Resource, Arrays, deep_copy_ptr}
use ducks.Copies.Parts.{plain}
use ducks.Copies.Ducks.{
  duck_resource, duck_type_resource, condition_duck_resource, blank_spec, blank_type_spec,
}
use ducks.Copies.Lists.{list_resource}
use ducks.Copies.Statuses.{status_resource}

-- `DeepCopyInto` on a value, and `DeepCopy` on a pointer.
pub record CopyMethods {C : Type 0} (x : Resource C) : Type 0 where
  pub deep_copy_into : x.Value → Memory C → x.Value × Memory C
  pub deep_copy : Option x.Value → Memory C → Option x.Value × Memory C

-- The methods of an object, with `DeepCopyObject`, of which a nil pointer has a nil object.
pub record ObjectMethods {C : Type 0} (x : Resource C) : Type 0 where
  pub methods : CopyMethods x
  pub deep_copy_object : Option x.Value → Memory C → Option x.Value × Memory C

module _ {C : Type 0} (x : Resource C) where
  abbrev pub copy_methods : CopyMethods x
  copy_methods = record { deep_copy_into = x.deep_copy; deep_copy = deep_copy_ptr x }

  abbrev as_object : Option x.Value × Memory C → Option x.Value × Memory C
  as_object (none, m) = (none, m)
  as_object (some c, m) = (some c, m)

  abbrev pub object_methods : ObjectMethods x
  object_methods = record {
    methods = copy_methods;
    deep_copy_object = λ v m. as_object (deep_copy_ptr x v m);
  }

module _ {C : Type 0} (object_meta list_meta status : Resource C) where
  abbrev pub duck_copies : ObjectMethods (duck_resource object_meta status)
  duck_copies = object_methods (duck_resource object_meta status)

  abbrev pub duck_list_copies :
      (arrays : Arrays C (duck_resource object_meta status).Value)
      → ObjectMethods (list_resource list_meta (duck_resource object_meta status) arrays)
  duck_list_copies arrays =
      object_methods (list_resource list_meta (duck_resource object_meta status) arrays)

  abbrev pub duck_type_copies : ObjectMethods (duck_type_resource object_meta status)
  duck_type_copies = object_methods (duck_type_resource object_meta status)

  abbrev pub duck_type_list_copies :
      (arrays : Arrays C (duck_type_resource object_meta status).Value)
      → ObjectMethods (list_resource list_meta (duck_type_resource object_meta status) arrays)
  duck_type_list_copies arrays =
      object_methods (list_resource list_meta (duck_type_resource object_meta status) arrays)

  abbrev pub condition_duck_copies : ObjectMethods (condition_duck_resource object_meta status)
  condition_duck_copies = object_methods (condition_duck_resource object_meta status)

  abbrev pub condition_duck_list_copies :
      (arrays : Arrays C (condition_duck_resource object_meta status).Value)
      → ObjectMethods (list_resource list_meta (condition_duck_resource object_meta status) arrays)
  condition_duck_list_copies arrays =
      object_methods (list_resource list_meta (condition_duck_resource object_meta status) arrays)

  abbrev pub duck_spec_copies : CopyMethods (plain {C = C} blank_spec)
  duck_spec_copies = copy_methods (plain {C = C} blank_spec)

  abbrev pub duck_type_spec_copies : CopyMethods (plain {C = C} blank_type_spec)
  duck_type_spec_copies = copy_methods (plain {C = C} blank_type_spec)

  abbrev pub duck_status_copies : CopyMethods status
  duck_status_copies = copy_methods status

  abbrev pub duck_type_status_copies : CopyMethods status
  duck_type_status_copies = copy_methods status

  abbrev pub condition_duck_status_copies :
      (condition : Resource C) (arrays : Arrays C condition.Value)
      → CopyMethods (status_resource condition arrays)
  condition_duck_status_copies condition arrays = copy_methods (status_resource condition arrays)
