-- ===== src/Lifecycle.antt =====
-- A duck on its way through the parts of the program: the checks of its creation
-- (api/v1/duck_webhook.go), the two parts of its reconciler (internal/controller/ducktype_controller.go)
-- and a lookup of the client (client/client.go).
pub mod Types
use Prim.Native.Char.{Char}
use ducks.Prelude.{
  String, ◌≡◌, ◌↔◌, inl, inr, refl, sym, ap, subst, ◌∙◌, Bool, true, false, ◌&&◌, List, [], ◌∷◌,
  Option, none, some, In, arith, Bool-cases, Option-cases, ↔-trans, ◌==◌,
}
use ducks.Prelude.Text.{◌<>◌, has_dot}
use ducks.Prelude.Exec.{Result, ok, err}
use ducks.Schema.{Schema, GroupKind}
use ducks.Conditions.{Conditions, LivingSets}
use ducks.Api.{Duck, DuckType, duck_get_condition}
use ducks.Api.Webhook.{duck_validate_create, duck_type_default}
use ducks.Api.Webhook.Fields.{Field}
use ducks.Api.Webhook.Accepts.{duck_validate_create-accepts}
use ducks.Controller.Reflect.{ApiErrors, duck_reflect_roles}
use ducks.Controller.Reflect.Marks.{Marks}
use ducks.Controller.Reflect.Ready.{is_ok, passed_on, duck_reflect_roles-Marks}
use ducks.Controller.Available.{ApiResource, check_resource, check_resources, after_discovery, sync}
use ducks.Controller.Available.Served.{answered, Reports, Names, sync-Reports}
use ducks.Client.Wrapped.{Upstream}
use ducks.Client.Select.{Ducks, duck_is_ready, duck_type_is_ready}
use ducks.Client.{read_items, find_ducks}
use ducks.Client.Found.{Found, AsksFor, Found-find_ducks}

pub is_ok_iff : {E : Type 0} (e : Option E) → (is_ok e ≡ true) ↔ (e ≡ none)
is_ok_iff none = ((λ h. refl), λ h. refl)
is_ok_iff (some e) = ((λ h. cc), λ h. cc)

pub both_false : (a b x : Bool) → a ≡ false → (a && x) ≡ (b && a)
both_false a b x h = ground arith

pub stopped_by :
    (a : ApiErrors) (e : Option a.Error) {e' : a.Error}
    → passed_on a (λ e. e) e ≡ some e'
    → is_ok e ≡ false
stopped_by a none h = cc
stopped_by a (some e) h = refl

pub both_true : (a b : Bool) → (a && b) ≡ true → (a ≡ true) × (b ≡ true)
both_true a b h = ground arith

module _ (c : Conditions) (s : Schema) (a : ApiErrors) where
  -- The `Sequence` of `DuckReconciler` goes on with the ready check only after no error.
  abbrev then_sync :
      (String → Result a.Error (List ApiResource))
      → Option a.Error × Duck c.Status
      → Option a.Error × Duck c.Status
  then_sync server out = elim out.0 [ none ↦ sync c s a server out.1 | some e ↦ out ]

  -- The parts of `DuckReconciler` on a duck: what is reported on its cluster roles, where `e` is the
  -- outcome of these, and then the ready check.
  unfoldable pub reconciled :
      Option a.Error
      → (String → Result a.Error (List ApiResource))
      → Duck c.Status
      → Option a.Error × Duck c.Status
  unfolding duck_reflect_roles sync
  reconciled e server d = then_sync server (duck_reflect_roles c a e d)

  check_resource_spec :
      (api : ApiResource) (r : Duck c.Status) → (check_resource c s api r).spec ≡ r.spec
  check_resource_spec api r =
      elim (Bool-cases (api.name <> "." <> r.spec.group == r.metadata.name)) [
        | inr other ↦ rw other refl
        | inl same ↦ elim (Bool-cases (api.kind == r.spec.kind)) [
          | inl k ↦ rw (same, k) refl
          | inr k ↦ rw (same, k) refl
        ]
      ]

  check_resources_spec :
      (group : String) (apis : List ApiResource) (r : Duck c.Status)
      → (check_resources c s group apis r).spec ≡ r.spec
  unfolding check_resources
  check_resources_spec group [] r = refl
  check_resources_spec group (api ∷ apis) r =
      elim (Bool-cases (
        r.metadata.name
        == s.group_resource_string (record { group = group; resource = api.name }))) [
          | inl hit ↦ rw hit (check_resource_spec api r)
          | inr miss ↦ rw miss (check_resources_spec group apis r)
        ]

  after_discovery_spec :
      (group : String) (answer : Result a.Error (List ApiResource)) (r : Duck c.Status)
      → (after_discovery c s a group answer r).1.spec ≡ r.spec
  after_discovery_spec group (ok apis) r = check_resources_spec group apis r
  after_discovery_spec group (err e) r = elim (Bool-cases (a.is_not_found e)) [
    | inl n ↦ rw n refl
    | inr n ↦ rw n refl
  ]

  -- No part of the reconciler changes the spec.
  reconciled_spec :
      (e : Option a.Error) (server : String → Result a.Error (List ApiResource)) (d : Duck c.Status)
      → (reconciled e server d).1.spec ≡ d.spec
  unfolding reconciled duck_reflect_roles sync
  reconciled_spec e server d = elim (Option-cases (duck_reflect_roles c a e d).0) [
    | inl fine ↦ rw fine (after_discovery_spec _ _ _)
    | inr (e', stops) ↦ rw stops refl
  ]

  module _ (laws : LivingSets c) where
    -- What the reconciler makes of `Ready`.
    reconciled-ready :
        (e : Option a.Error) (server : String → Result a.Error (List ApiResource))
        (d : Duck c.Status) (resource group : String) (served : Bool)
        → Names d resource group
        → answered a resource group d.spec
            (server (s.group_version_string (record { group = group; version = d.spec.version })))
          ≡ ok served
        → duck_is_ready c (reconciled e server d).1 ≡ (served && is_ok e)
    unfolding reconciled Names duck_reflect_roles duck_is_ready duck_get_condition Reports Marks
    reconciled-ready e server d resource group served names answer =
        let d' = (duck_reflect_roles c a e d).1 in
        let (passed, (rbac, _, unready)) = duck_reflect_roles-Marks c laws a e d in
        elim (Option-cases (duck_reflect_roles c a e d).0) [
          | inl fine ↦
              let (_, (_, _, ready)) =
                subst (λ x. Reports c a x d' (sync c s a server d')) answer
                  (sync-Reports c laws s a server d' resource group names) in
              rw fine (ready ∙ ap (λ b. served && b) rbac)
          | inr (e', stops) ↦
              let failed = stopped_by a e (sym passed ∙ stops) in
              rw stops (unready ∙ both_false (is_ok e) served _ failed)
        ]

module _ (s : Schema) (c : Conditions) (lower : Char → Char) (u : Upstream c.Status) where
  open u use {World}

  module _ (laws : LivingSets c) (f : Field) (a : ApiErrors) where
    -- A duck whose creation was accepted and whose name is that of a resource without dots, a dot,
    -- and the group of its spec; its reconciler, with the outcome `e` of its cluster roles, and a
    -- server that would answer whether it serves the kind, which the reconciler asks only if the
    -- roles' part returns no error; and then a lookup in a ready duck type, for which the API server
    -- lists the duck among others. The lookup returns the duck exactly if there was no error with its
    -- roles, the server serves its kind, and the lookup asks for its kind or for all.
    pub reconciled-Found :
        (d : Duck c.Status) (resource : String) (e : Option a.Error)
        (server : String → Result a.Error (List ApiResource)) (served : Bool) (name : String)
        (gk : GroupKind) (track : Bool) (t : DuckType c.Status) (ds : Ducks c) (w w₁ w₂ : World)
        → (duck_validate_create f d).error ≡ none
        → d.metadata.name ≡ resource <> "." <> d.spec.group
        → has_dot resource ≡ false
        → answered a resource d.spec.group d.spec (
            server
              (s.group_version_string (record { group = d.spec.group; version = d.spec.version })))
          ≡ ok served
        → u.get_duck_type name w ≡ (ok t, w₁)
        → duck_type_is_ready c t ≡ true
        → read_items s c lower u (duck_type_default lower t) track w₁ ≡ (ok ds, w₂)
        → In (reconciled c s a e server d).1 ds
        → Found s c lower u (reconciled c s a e server d).1 (find_ducks s c lower u name gk track w)
          ↔ ((e ≡ none) × (served ≡ true) × AsksFor s c lower u gk d.spec)
    unfolding Names
    reconciled-Found d resource e server served name gk track t ds w w₁ w₂ accepted named dotless
          answer read ready listed member =
        let r = (reconciled c s a e server d).1 in
        let valid = ((duck_validate_create-accepts f d).0.0 accepted).spec in
        let is_ready =
          reconciled-ready c s a laws e server d resource d.spec.group served
            (named, dotless, valid.group) answer in
        let spec = reconciled_spec c s a e server d in
        ↔-trans (Found-find_ducks s c lower u name gk track t ds w w₁ w₂ r read ready listed) (
          (λ h.
              let (served_too, no_error) = both_true served (is_ok e) (sym is_ready ∙ h.1.ready) in
              ((is_ok_iff e).0 no_error, served_too, subst (AsksFor s c lower u gk) spec h.1.kind)),
          λ h. (
            member,
            record {
              ready = is_ready ∙ (ap (λ b. b && is_ok e) h.1 ∙ (is_ok_iff e).1 h.0);
              kind = subst (AsksFor s c lower u gk) (sym spec) h.2;
            },
          ),
        )
