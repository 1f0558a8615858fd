-- ===== src/Controller/Available/Served.antt =====
-- When the ready check finds a duck available.
use ducks.Prelude.{
  String, ◌≡◌, ◌≢◌, refl, ◌==◌, ◌&&◌, Bool, true, false, List, [], ◌∷◌, Option, none, some, inl,
  inr, ◌∙◌, ap, arith, eq_iff, Bool-cases, if◌then◌else◌,
}
use text.Mathlib.TextLemmas.{append_cancel_left, append_cancel_right}
use ducks.Prelude.Text.{◌<>◌, has_dot}
use ducks.Prelude.Exec.{Result, ok, err}
use ducks.Schema.{Schema}
use ducks.Conditions.{Conditions, LivingSets, Verdict, marked_true, marked_false, holds, mark}
use ducks.Api.{
  Duck, DuckSpec, duck_condition_set, duck_condition_available, duck_condition_rbac,
  group_version_resource,
}
use ducks.Controller.Reflect.{ApiErrors}
use ducks.Controller.Reflect.Marks.{
  Marks, second-Marks, rbac-ne-ready, available-ne-ready, rbac-ne-available,
}
use ducks.Controller.Available.{ApiResource, check_resource, check_resources, sync, after_discovery}

-- Whether the first resource of a name has the kind.
abbrev pub kind_served : String → String → List ApiResource → Bool
kind_served resource kind [] = false
kind_served resource kind (api ∷ apis) =
    if api.name == resource then api.kind == kind else kind_served resource kind apis

-- What the server's answer for a group says of a resource and a spec: whether the group is that of
-- the spec, and the first resource of the name has the kind of the spec. A group and version that is
-- not found serves nothing.
abbrev pub answered :
    (a : ApiErrors)
    → String
    → String
    → DuckSpec
    → Result a.Error (List ApiResource)
    → Result a.Error Bool
answered a resource group spec (ok apis) =
    ok (kind_served resource spec.kind apis && spec.group == group)
answered a resource group spec (err e) = if a.is_not_found e then ok false else err e

module _ (c : Conditions) (a : ApiErrors) where
  -- The outcome of the check: the condition, or the error and the duck as it was.
  unfoldable pub Reports :
      Result a.Error Bool → Duck c.Status → Option a.Error × Duck c.Status → Type 0
  Reports (ok b) r out =
      (out.0 ≡ none)
      × Marks c (duck_condition_set c) duck_condition_available duck_condition_rbac b r.status
          out.1.status
  Reports (err e) r out = out ≡ (some e, r)

-- A duck that is named after a resource and a group, whatever its spec.
unfoldable pub Names : {S : Type 0} → Duck S → String → String → Type 0
Names r resource group =
    (r.metadata.name ≡ resource <> "." <> group) × (has_dot resource ≡ false) × (group ≢ "")

same_name : (x y group : String) → ((x <> "." <> group) == (y <> "." <> group)) ≡ (x == y)
same_name x y group = ground (
  arith,
  eq_iff (x <> "." <> group) (y <> "." <> group),
  eq_iff x y,
  append_cancel_right x y ("." <> group),
)

same_group : (resource x y : String) → ((resource <> "." <> x) == (resource <> "." <> y)) ≡ (x == y)
same_group resource x y = ground (
  arith,
  eq_iff (resource <> "." <> x) (resource <> "." <> y),
  eq_iff x y,
  append_cancel_left "." x y,
  append_cancel_left resource ("." <> x) ("." <> y),
)

and_false : (b : Bool) → (b && false) ≡ false
and_false b = ground arith

same : (x y : String) → (x == y) ≡ true → x ≡ y
same x y h = ground (arith, eq_iff x y)

eq_comm : (x y : String) → (x == y) ≡ (y == x)
eq_comm x y = ground (arith, eq_iff x y, eq_iff y x)

gvr_lem :
    (s : Schema) {S : Type 0} (r : Duck S) (resource group : String)
    → Names r resource group
    → s.with_version (s.parse_group_resource r.metadata.name) r.spec.version
      ≡ record { group = group; version = r.spec.version; resource = resource }
unfolding Names
gvr_lem s r resource group (name, dotless, _) =
    ap (λ x. s.with_version (s.parse_group_resource x) r.spec.version) name
    ∙ ap (λ x. s.with_version x r.spec.version) (s.parse_group_resource_lem resource group dotless)
    ∙ s.with_version_lem (record { group = group; resource = resource }) r.spec.version

module _ (c : Conditions) (laws : LivingSets c) (s : Schema) where
  marked :
      (v : Verdict) (reason message : String) (r : Duck c.Status)
      → Marks c
          (duck_condition_set c)
          duck_condition_available
          duck_condition_rbac
          (holds v)
          r.status
          (mark c v (duck_condition_set c) duck_condition_available reason message r.status)
  marked v reason message r =
      second-Marks c laws duck_condition_rbac duck_condition_available v reason message r.status
        rbac-ne-ready available-ne-ready rbac-ne-available

  check_resource_lem :
      (api : ApiResource) (resource group : String) (r : Duck c.Status)
      → Names r resource group
      → api.name ≡ resource
      → Marks c
          (duck_condition_set c)
          duck_condition_available
          duck_condition_rbac
          (api.kind == r.spec.kind && r.spec.group == group)
          r.status
          (check_resource c s api r).status
  unfolding Names
  check_resource_lem api resource group r (name, _, _) e =
      let test =
        ap (λ x. x <> "." <> r.spec.group == r.metadata.name) e
        ∙ ap (λ x. resource <> "." <> r.spec.group == x) name
        ∙ same_group resource r.spec.group group in
      elim (Bool-cases (r.spec.group == group)) [
        | inr other ↦
            rw (test, other, and_false (api.kind == r.spec.kind))
              (marked marked_false "Invalid" ".spec.group does not match resolved resource" r)
        | inl own ↦ elim (Bool-cases (api.kind == r.spec.kind)) [
          | inl k ↦ rw (test, own, k) (marked marked_true "Available" "" r)
          | inr k ↦
              rw (test, own, k)
                (marked marked_false "Invalid"
                  (".spec.kind does not match resolved kind \"" <> api.kind <> "\"") r)
        ]
      ]

  test-named :
      (api : ApiResource) (resource group : String) (r : Duck c.Status)
      → Names r resource group
      → (r.metadata.name == s.group_resource_string (record { group = group; resource = api.name }))
        ≡ (api.name == resource)
  unfolding Names
  test-named api resource group r (name, _, filled) =
      ap (λ x. x == s.group_resource_string (record { group = group; resource = api.name })) name
      ∙ ap (λ x. resource <> "." <> group == x) (s.group_resource_string_lem api.name group filled)
      ∙ same_name resource api.name group
      ∙ eq_comm resource api.name

  check_resources_lem :
      (resource group : String) (r : Duck c.Status) (apis : List ApiResource)
      → Names r resource group
      → Marks c
          (duck_condition_set c)
          duck_condition_available
          duck_condition_rbac
          (kind_served resource r.spec.kind apis && r.spec.group == group)
          r.status
          (check_resources c s group apis r).status
  unfolding check_resources
  check_resources_lem resource group r [] names = marked marked_false "NotFound" "" r
  check_resources_lem resource group r (api ∷ apis) names =
      elim (Bool-cases (api.name == resource)) [
        | inl n ↦
            rw (test-named api resource group r names, n)
              (check_resource_lem api resource group r names (same api.name resource n))
        | inr n ↦
            rw (test-named api resource group r names, n)
              (check_resources_lem resource group r apis names)
      ]

  after_discovery_lem :
      (a : ApiErrors) (resource group : String) (r : Duck c.Status)
      (answer : Result a.Error (List ApiResource))
      → Names r resource group
      → Reports c a
          (answered a resource group r.spec answer)
          r
          (after_discovery c s a group answer r)
  unfolding Reports
  after_discovery_lem a resource group r (ok apis) names =
      (refl, check_resources_lem resource group r apis names)
  after_discovery_lem a resource group r (err e) names = elim (Bool-cases (a.is_not_found e)) [
    | inl n ↦ rw n (refl, marked marked_false "NotFound" "" r)
    | inr n ↦ rw n refl
  ]

  -- For a duck whose name is that of a resource without dots, a dot, and a group that is not the core
  -- group, and whose spec may name any group, version and kind: the check asks for the resources of
  -- the name's group in the spec's version. It returns no error if the server answers, or says that
  -- it does not find them. `Available` is then true exactly if the group of the spec is that of the
  -- name and the first resource with the name has the kind of the spec, `RBAC` is kept, and `Ready`
  -- is true exactly if both are. At another error the check returns it with the duck as it was.
  pub sync-Reports :
      (a : ApiErrors) (server : String → Result a.Error (List ApiResource)) (r : Duck c.Status)
      (resource group : String)
      → Names r resource group
      → Reports c a
          (answered a resource group r.spec
            (server (s.group_version_string (record { group = group; version = r.spec.version }))))
          r
          (sync c s a server r)
  unfolding sync Reports group_version_resource
  sync-Reports a server r resource group names = rw (gvr_lem s r resource group names) (
      after_discovery_lem a resource group r
        (server (s.group_version_string (record { group = group; version = r.spec.version })))
        names)
