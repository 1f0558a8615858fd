-- ===== src/Dies/Calls/Test.antt =====
-- The die types of `internal/testresources/zz_generated.die.go` with the calls that they have in common.
use ducks.Prelude.{ℕ, Option}
use ducks.Copies.{Resource, Arrays}
use ducks.Dies.Types.{MetaDies, condition_duck_dies}
use ducks.Dies.Statuses.{ConditionDies, condition_duck_status_kind}
use ducks.Dies.Codec.{Encodings, die_release_unstructured}
use ducks.Dies.Paths.{Reflection}
use ducks.Dies.Calls.{
  Feeding, Releasing, Encoding, Stamping, Sealing, Objects, feeding, releasing, encoding, stamping,
  sealing, objects,
}
use ducks.Dies.{Dies}

module _ {C : Type 0} (meta state : Resource C) (metas : MetaDies meta) (d : ConditionDies)
    (arrays : Arrays C d.Condition) where
  abbrev pub condition_duck_feeding :
      (e : Encodings (condition_duck_dies meta state metas).resource)
      → Feeding (condition_duck_dies meta state metas) e
  condition_duck_feeding e = feeding (condition_duck_dies meta state metas) e

  abbrev pub condition_duck_releasing :
      (e : Encodings (condition_duck_dies meta state metas).resource)
      → Releasing (condition_duck_dies meta state metas) e
  condition_duck_releasing e = releasing (condition_duck_dies meta state metas) e

  abbrev pub condition_duck_encoding :
      (e : Encodings (condition_duck_dies meta state metas).resource)
      → Encoding (condition_duck_dies meta state metas) e
  condition_duck_encoding e = encoding (condition_duck_dies meta state metas) e

  abbrev pub condition_duck_sealing :
      (e : Encodings (condition_duck_dies meta state metas).resource)
      → Sealing (condition_duck_dies meta state metas) e
  condition_duck_sealing e = sealing (condition_duck_dies meta state metas) e

  abbrev pub condition_duck_stamping :
      (e : Encodings (condition_duck_dies meta state metas).resource)
      (f : Reflection (condition_duck_dies meta state metas).resource)
      → Stamping (condition_duck_dies meta state metas) e f
  condition_duck_stamping e f = stamping (condition_duck_dies meta state metas) e f

  abbrev pub condition_duck_unstructured :
      (e : Encodings (condition_duck_dies meta state metas).resource)
      → ℕ
      → Dies (condition_duck_dies meta state metas)
      → Option (e.Unstructured × Dies (condition_duck_dies meta state metas))
  condition_duck_unstructured e = die_release_unstructured (condition_duck_dies meta state metas) e

  abbrev pub condition_duck_objects :
      (e : Encodings (condition_duck_dies meta state metas).resource)
      → {A : Type 0} → ((condition_duck_dies meta state metas).resource.Value → A)
      → Objects (condition_duck_dies meta state metas) e A
  condition_duck_objects e get_object_kind =
      objects (condition_duck_dies meta state metas) e get_object_kind

  abbrev pub condition_duck_status_feeding :
      (e : Encodings (condition_duck_status_kind d arrays).resource)
      → Feeding (condition_duck_status_kind d arrays) e
  condition_duck_status_feeding e = feeding (condition_duck_status_kind d arrays) e

  abbrev pub condition_duck_status_releasing :
      (e : Encodings (condition_duck_status_kind d arrays).resource)
      → Releasing (condition_duck_status_kind d arrays) e
  condition_duck_status_releasing e = releasing (condition_duck_status_kind d arrays) e

  abbrev pub condition_duck_status_encoding :
      (e : Encodings (condition_duck_status_kind d arrays).resource)
      → Encoding (condition_duck_status_kind d arrays) e
  condition_duck_status_encoding e = encoding (condition_duck_status_kind d arrays) e

  abbrev pub condition_duck_status_sealing :
      (e : Encodings (condition_duck_status_kind d arrays).resource)
      → Sealing (condition_duck_status_kind d arrays) e
  condition_duck_status_sealing e = sealing (condition_duck_status_kind d arrays) e

  abbrev pub condition_duck_status_stamping :
      (e : Encodings (condition_duck_status_kind d arrays).resource)
      (f : Reflection (condition_duck_status_kind d arrays).resource)
      → Stamping (condition_duck_status_kind d arrays) e f
  condition_duck_status_stamping e f = stamping (condition_duck_status_kind d arrays) e f
