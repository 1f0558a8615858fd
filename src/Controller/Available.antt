-- ===== src/Controller/Available.antt =====
-- `DuckReconcilerReadyCheck`: whether the API server serves the resource that a duck names. The
-- calls of `Tracker.TrackObject` are recorded beside the outcome.
pub mod Served
use ducks.Prelude.{
  String, ◌==◌, Bool, true, false, not, List, [], ◌∷◌, Option, none, some, if◌then◌else◌,
}
use ducks.Prelude.Text.{◌<>◌}
use ducks.Prelude.Exec.{Result, ok, err}
use ducks.Schema.{Schema, GroupResource, GroupVersionResource}
use ducks.Conditions.{Conditions}
use ducks.Api.{Duck, duck_condition_set, duck_condition_available, group_version_resource}
use ducks.Controller.Reflect.{ApiErrors}

-- The parts of `metav1.APIResource` that the reconciler reads.
pub record ApiResource : Type 0 where
  pub name : String
  pub kind : String

-- An object that a duck tracks, by its name.
pub data Tracked : Type 0 where
  custom_resource_definition : String → Tracked
  api_service : String → Tracked

module _ (c : Conditions) (s : Schema) where
  abbrev mark_unavailable : String → String → Duck c.Status → Duck c.Status
  mark_unavailable reason message r = record r {
    status = c.mark_false (duck_condition_set c) duck_condition_available reason message r.status;
  }

  abbrev mark_available : Duck c.Status → Duck c.Status
  mark_available r = record r {
    status = c.mark_true (duck_condition_set c) duck_condition_available "Available" "" r.status;
  }

  -- The comparisons of the resource that has the duck's name.
  abbrev pub check_resource : ApiResource → Duck c.Status → Duck c.Status
  check_resource api r =
      if not (api.name <> "." <> r.spec.group == r.metadata.name)
      then mark_unavailable "Invalid" ".spec.group does not match resolved resource" r
      else if not (api.kind == r.spec.kind)
      then mark_unavailable "Invalid"
          (".spec.kind does not match resolved kind \"" <> api.kind <> "\"") r
      else mark_available r

  -- The loop over the resources that the server names.
  unfoldable pub check_resources : String → List ApiResource → Duck c.Status → Duck c.Status
  check_resources group [] r = mark_unavailable "NotFound" "" r
  check_resources group (api ∷ apis) r =
      let rest = check_resources group apis r in
      if r.metadata.name == s.group_resource_string (record { group = group; resource = api.name })
      then check_resource api r
      else rest

  -- The objects whose changes are to wake the reconciler.
  unfoldable pub tracked : Duck c.Status → List Tracked
  tracked r =
      let gvr = group_version_resource s r in
      custom_resource_definition
        (s.group_resource_string (record { group = gvr.group; resource = gvr.resource }))
      ∷ api_service (gvr.version <> "." <> gvr.group)
      ∷ []

  abbrev pub after_discovery :
      (a : ApiErrors)
      → String
      → Result a.Error (List ApiResource)
      → Duck c.Status
      → Option a.Error × Duck c.Status
  after_discovery a group (ok apis) r = (none, check_resources group apis r)
  after_discovery a group (err e) r =
      if a.is_not_found e then (none, mark_unavailable "NotFound" "" r) else (some e, r)

  -- `Sync`, with `ServerResourcesForGroupVersion` of the discovery client as a parameter.
  unfoldable pub sync :
      (a : ApiErrors)
      → (String → Result a.Error (List ApiResource))
      → Duck c.Status
      → Option a.Error × Duck c.Status
  sync a server_resources r =
      let gvr = group_version_resource s r in
      after_discovery a gvr.group
        (server_resources
          (s.group_version_string (record { group = gvr.group; version = gvr.version })))
        r
