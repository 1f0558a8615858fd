-- ===== src/Dies/Calls/Api.antt =====
-- The die types of `api/v1/zz_generated.die.go` with the calls that they have in common.
use ducks.Prelude.{ℕ, Option}
use ducks.Copies.{Resource}
use ducks.Dies.Types.{
  MetaDies, duck_spec_dies, duck_type_spec_dies, duck_dies, duck_type_dies, status_dies,
}
use ducks.Dies.Codec.{Encodings, die_release_unstructured}
use ducks.Dies.Paths.{Reflection}
use ducks.Dies.Calls.{
  Feeding, Releasing, Encoding, Stamping, Sealing, Objects, feeding, releasing, encoding, stamping,
  sealing, objects,
}
use ducks.Dies.{Dies}

module _ {C : Type 0} (meta state : Resource C) (metas : MetaDies meta) where
  abbrev pub duck_spec_feeding :
      (e : Encodings (duck_spec_dies {C = C}).resource) → Feeding (duck_spec_dies {C = C}) e
  duck_spec_feeding e = feeding (duck_spec_dies {C = C}) e

  abbrev pub duck_spec_releasing :
      (e : Encodings (duck_spec_dies {C = C}).resource) → Releasing (duck_spec_dies {C = C}) e
  duck_spec_releasing e = releasing (duck_spec_dies {C = C}) e

  abbrev pub duck_spec_encoding :
      (e : Encodings (duck_spec_dies {C = C}).resource) → Encoding (duck_spec_dies {C = C}) e
  duck_spec_encoding e = encoding (duck_spec_dies {C = C}) e

  abbrev pub duck_spec_sealing :
      (e : Encodings (duck_spec_dies {C = C}).resource) → Sealing (duck_spec_dies {C = C}) e
  duck_spec_sealing e = sealing (duck_spec_dies {C = C}) e

  abbrev pub duck_spec_stamping :
      (e : Encodings (duck_spec_dies {C = C}).resource)
      (f : Reflection (duck_spec_dies {C = C}).resource)
      → Stamping (duck_spec_dies {C = C}) e f
  duck_spec_stamping e f = stamping (duck_spec_dies {C = C}) e f

  abbrev pub duck_status_feeding :
      (e : Encodings (status_dies meta state metas).resource)
      → Feeding (status_dies meta state metas) e
  duck_status_feeding e = feeding (status_dies meta state metas) e

  abbrev pub duck_status_releasing :
      (e : Encodings (status_dies meta state metas).resource)
      → Releasing (status_dies meta state metas) e
  duck_status_releasing e = releasing (status_dies meta state metas) e

  abbrev pub duck_status_encoding :
      (e : Encodings (status_dies meta state metas).resource)
      → Encoding (status_dies meta state metas) e
  duck_status_encoding e = encoding (status_dies meta state metas) e

  abbrev pub duck_status_sealing :
      (e : Encodings (status_dies meta state metas).resource)
      → Sealing (status_dies meta state metas) e
  duck_status_sealing e = sealing (status_dies meta state metas) e

  abbrev pub duck_status_stamping :
      (e : Encodings (status_dies meta state metas).resource)
      (f : Reflection (status_dies meta state metas).resource)
      → Stamping (status_dies meta state metas) e f
  duck_status_stamping e f = stamping (status_dies meta state metas) e f

  abbrev pub duck_feeding :
      (e : Encodings (duck_dies meta state metas).resource) → Feeding (duck_dies meta state metas) e
  duck_feeding e = feeding (duck_dies meta state metas) e

  abbrev pub duck_releasing :
      (e : Encodings (duck_dies meta state metas).resource)
      → Releasing (duck_dies meta state metas) e
  duck_releasing e = releasing (duck_dies meta state metas) e

  abbrev pub duck_encoding :
      (e : Encodings (duck_dies meta state metas).resource)
      → Encoding (duck_dies meta state metas) e
  duck_encoding e = encoding (duck_dies meta state metas) e

  abbrev pub duck_sealing :
      (e : Encodings (duck_dies meta state metas).resource) → Sealing (duck_dies meta state metas) e
  duck_sealing e = sealing (duck_dies meta state metas) e

  abbrev pub duck_stamping :
      (e : Encodings (duck_dies meta state metas).resource)
      (f : Reflection (duck_dies meta state metas).resource)
      → Stamping (duck_dies meta state metas) e f
  duck_stamping e f = stamping (duck_dies meta state metas) e f

  abbrev pub duck_unstructured :
      (e : Encodings (duck_dies meta state metas).resource)
      → ℕ
      → Dies (duck_dies meta state metas)
      → Option (e.Unstructured × Dies (duck_dies meta state metas))
  duck_unstructured e = die_release_unstructured (duck_dies meta state metas) e

  abbrev pub duck_objects :
      (e : Encodings (duck_dies meta state metas).resource)
      → {A : Type 0} → ((duck_dies meta state metas).resource.Value → A)
      → Objects (duck_dies meta state metas) e A
  duck_objects e get_object_kind = objects (duck_dies meta state metas) e get_object_kind

  abbrev pub duck_type_spec_feeding :
      (e : Encodings (duck_type_spec_dies {C = C}).resource)
      → Feeding (duck_type_spec_dies {C = C}) e
  duck_type_spec_feeding e = feeding (duck_type_spec_dies {C = C}) e

  abbrev pub duck_type_spec_releasing :
      (e : Encodings (duck_type_spec_dies {C = C}).resource)
      → Releasing (duck_type_spec_dies {C = C}) e
  duck_type_spec_releasing e = releasing (duck_type_spec_dies {C = C}) e

  abbrev pub duck_type_spec_encoding :
      (e : Encodings (duck_type_spec_dies {C = C}).resource)
      → Encoding (duck_type_spec_dies {C = C}) e
  duck_type_spec_encoding e = encoding (duck_type_spec_dies {C = C}) e

  abbrev pub duck_type_spec_sealing :
      (e : Encodings (duck_type_spec_dies {C = C}).resource)
      → Sealing (duck_type_spec_dies {C = C}) e
  duck_type_spec_sealing e = sealing (duck_type_spec_dies {C = C}) e

  abbrev pub duck_type_spec_stamping :
      (e : Encodings (duck_type_spec_dies {C = C}).resource)
      (f : Reflection (duck_type_spec_dies {C = C}).resource)
      → Stamping (duck_type_spec_dies {C = C}) e f
  duck_type_spec_stamping e f = stamping (duck_type_spec_dies {C = C}) e f

  abbrev pub duck_type_status_feeding :
      (e : Encodings (status_dies meta state metas).resource)
      → Feeding (status_dies meta state metas) e
  duck_type_status_feeding e = feeding (status_dies meta state metas) e

  abbrev pub duck_type_status_releasing :
      (e : Encodings (status_dies meta state metas).resource)
      → Releasing (status_dies meta state metas) e
  duck_type_status_releasing e = releasing (status_dies meta state metas) e

  abbrev pub duck_type_status_encoding :
      (e : Encodings (status_dies meta state metas).resource)
      → Encoding (status_dies meta state metas) e
  duck_type_status_encoding e = encoding (status_dies meta state metas) e

  abbrev pub duck_type_status_sealing :
      (e : Encodings (status_dies meta state metas).resource)
      → Sealing (status_dies meta state metas) e
  duck_type_status_sealing e = sealing (status_dies meta state metas) e

  abbrev pub duck_type_status_stamping :
      (e : Encodings (status_dies meta state metas).resource)
      (f : Reflection (status_dies meta state metas).resource)
      → Stamping (status_dies meta state metas) e f
  duck_type_status_stamping e f = stamping (status_dies meta state metas) e f

  abbrev pub duck_type_feeding :
      (e : Encodings (duck_type_dies meta state metas).resource)
      → Feeding (duck_type_dies meta state metas) e
  duck_type_feeding e = feeding (duck_type_dies meta state metas) e

  abbrev pub duck_type_releasing :
      (e : Encodings (duck_type_dies meta state metas).resource)
      → Releasing (duck_type_dies meta state metas) e
  duck_type_releasing e = releasing (duck_type_dies meta state metas) e

  abbrev pub duck_type_encoding :
      (e : Encodings (duck_type_dies meta state metas).resource)
      → Encoding (duck_type_dies meta state metas) e
  duck_type_encoding e = encoding (duck_type_dies meta state metas) e

  abbrev pub duck_type_sealing :
      (e : Encodings (duck_type_dies meta state metas).resource)
      → Sealing (duck_type_dies meta state metas) e
  duck_type_sealing e = sealing (duck_type_dies meta state metas) e

  abbrev pub duck_type_stamping :
      (e : Encodings (duck_type_dies meta state metas).resource)
      (f : Reflection (duck_type_dies meta state metas).resource)
      → Stamping (duck_type_dies meta state metas) e f
  duck_type_stamping e f = stamping (duck_type_dies meta state metas) e f

  abbrev pub duck_type_unstructured :
      (e : Encodings (duck_type_dies meta state metas).resource)
      → ℕ
      → Dies (duck_type_dies meta state metas)
      → Option (e.Unstructured × Dies (duck_type_dies meta state metas))
  duck_type_unstructured e = die_release_unstructured (duck_type_dies meta state metas) e

  abbrev pub duck_type_objects :
      (e : Encodings (duck_type_dies meta state metas).resource)
      → {A : Type 0} → ((duck_type_dies meta state metas).resource.Value → A)
      → Objects (duck_type_dies meta state metas) e A
  duck_type_objects e get_object_kind = objects (duck_type_dies meta state metas) e get_object_kind
