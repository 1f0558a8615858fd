-- ===== src/Controller/Reflect.antt =====
-- What the child reconcilers report on their parent: `ReflectChildrenStatusOnParentWithError` of
-- the cluster roles of a duck type and of a duck, and `ReflectChildStatusOnParentWithError` of the
-- custom resource definition of a duck type. Each returns the error it reports and the parent.
pub mod Marks
pub mod Ready
use ducks.Prelude.{
  String, ◌==◌, Bool, true, false, List, [], ◌∷◌, Option, none, some, if◌then◌else◌,
}
use ducks.Prelude.Text.{◌<>◌}
use ducks.Conditions.{Conditions}
use ducks.Api.{
  Duck, DuckType, duck_condition_set, duck_type_condition_set, duck_condition_rbac,
  duck_type_condition_rbac, duck_type_condition_established,
}

-- The package `k8s.io/apimachinery/pkg/api/errors`, and `reconcilers.ErrQuiet`.
pub record ApiErrors : Type 1 where
  pub Error : Type 0
  pub is_invalid : Error → Bool
  pub is_already_exists : Error → Bool
  pub is_not_found : Error → Bool
  pub reason_for_error : Error → String
  -- The kind and the name in the details of an error that is an `APIStatus` with details. Of any
  -- other error the assertion `err.(apierrs.APIStatus)`, or the read of nil details, panics.
  pub details : Error → Option (String × String)
  pub err_quiet : Error

-- The value of a condition of a custom resource definition.
pub data ConditionStatus : Type 0 where
  condition_true condition_false condition_unknown : ConditionStatus

pub record CrdCondition : Type 0 where
  pub type : String
  pub status : ConditionStatus

-- The parts of a custom resource definition that the reconciler reads.
pub record Crd : Type 0 where
  pub name : String
  pub conditions : List CrdCondition

-- The first condition of a type, as `slices.IndexFunc` finds it.
abbrev pub established_of : List CrdCondition → ConditionStatus
established_of [] = condition_unknown
established_of (c ∷ cs) = if c.type == "Established" then c.status else established_of cs

module _ (c : Conditions) (a : ApiErrors) where
  -- The result of an error beside a status.
  abbrev pub Outcome : Type 0
  Outcome = Option a.Error × c.Status

  -- The cluster roles' outcome, on the condition `type` of the set.
  unfoldable pub reflect_roles : c.ConditionSet → String → Option a.Error → c.Status → Outcome
  reflect_roles set type none s = (none, c.mark_true set type "Defined" "" s)
  reflect_roles set type (some e) s =
      if a.is_invalid e
      then (none, c.mark_false set type "Invalid" (a.reason_for_error e) s)
      else if a.is_already_exists e
      then (none, c.mark_false set type "AlreadyExists" (a.reason_for_error e) s)
      else (some e, c.mark_unknown set type "Unknown" "" s)

  -- The definition's condition `Established`; one that is missing has no status, as an unknown one.
  abbrev pub reflect_established :
      c.ConditionSet → String → String → ConditionStatus → c.Status → Outcome
  reflect_established set type name condition_true s =
      (none, c.mark_true set type "Established" "" s)
  reflect_established set type name condition_false s = (
    none,
    c.mark_false set type "NotEstablished"
        ("child CustomResourceDefinition " <> name <> " is not established") s,
  )
  reflect_established set type name condition_unknown s = (
    none,
    c.mark_unknown set type "NotEstablished"
        ("child CustomResourceDefinition " <> name <> " is not established") s,
  )

  -- A definition that exists already, by the details of the error; `none` is the panic.
  abbrev pub reflect_existing :
      c.ConditionSet → String → Option (String × String) → c.Status → Option Outcome
  reflect_existing set type none s = none
  reflect_existing set type (some (kind, name)) s = some (
    none,
    c.mark_false set type "AlreadyExists"
        ("another " <> kind <> " already exists with name " <> name) s,
  )

  -- The custom resource definition's outcome: the child and the error.
  unfoldable pub reflect_crd :
      c.ConditionSet → String → Option Crd → Option a.Error → c.Status → Option Outcome
  reflect_crd set type child (some e) s =
      if a.is_invalid e
      then some (none, c.mark_false set type "Invalid" (a.reason_for_error e) s)
      else if a.is_already_exists e
      then reflect_existing set type (a.details e) s
      else some (some a.err_quiet, c.mark_unknown set type "Unknown" "" s)
  reflect_crd set type none none s = some (none, c.mark_false set type "Missing" "" s)
  reflect_crd set type (some child) none s =
      some (reflect_established set type child.name (established_of child.conditions) s)

  -- The three functions on their parents.
  unfoldable pub duck_type_reflect_roles :
      Option a.Error → DuckType c.Status → Option a.Error × DuckType c.Status
  duck_type_reflect_roles e parent =
      let out =
        reflect_roles (duck_type_condition_set c) duck_type_condition_rbac e parent.status in
      (out.0, record parent { status = out.1 })

  unfoldable pub duck_reflect_roles :
      Option a.Error → Duck c.Status → Option a.Error × Duck c.Status
  duck_reflect_roles e parent =
      let out = reflect_roles (duck_condition_set c) duck_condition_rbac e parent.status in
      (out.0, record parent { status = out.1 })

  abbrev pub with_outcome :
      DuckType c.Status → Option Outcome → Option (Option a.Error × DuckType c.Status)
  with_outcome parent none = none
  with_outcome parent (some (e, s)) = some (e, record parent { status = s })

  unfoldable pub duck_type_reflect_crd :
      Option Crd → Option a.Error → DuckType c.Status → Option (Option a.Error × DuckType c.Status)
  duck_type_reflect_crd child e parent = with_outcome parent (
      reflect_crd (duck_type_condition_set c) duck_type_condition_established child e parent.status)
