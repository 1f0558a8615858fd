-- ===== src/Lifecycle/Types.antt =====
-- A duck type on its way through the parts of the program: the parts of its reconciler and the
-- definition that they desire (internal/controller/ducktype_controller.go), the defaults that the
-- checks of its creation leave (api/v1/ducktype_webhook.go), and a lookup of the client
-- (client/client.go).
use Prim.Native.Char.{Char}
use ducks.Prelude.{
  String, ◌≡◌, ◌↔◌, some, some_inj, subst, false, Option-cases, refl, sym, ap, ◌∙◌, Bool, true,
  ◌&&◌, Option, none, In, inl, inr, Bool-cases, if◌then◌else◌,
}
use ducks.Prelude.Exec.{Exec, Result, ok, err, map_error, ◌>>=◌}
use ducks.Schema.{Schema, GroupKind, TypeMeta}
use ducks.Conditions.{Conditions, LivingSets}
use ducks.Api.{DuckType, duck_type_get_condition}
use ducks.Api.Webhook.{duck_type_default, duck_type_spec_default, duck_type_validate_create}
use ducks.Api.Webhook.Fields.{Field}
use ducks.Controller.Definition.{
  CustomDefinition, DefinitionVersion, duck_version, desired_definition,
}
use ducks.Controller.Reflect.{ApiErrors, Crd, duck_type_reflect_roles, duck_type_reflect_crd}
use ducks.Controller.Reflect.Marks.{Marks}
use ducks.Controller.Reflect.Ready.{
  is_ok, Established, duck_type_reflect_roles-Marks, duck_type_reflect_crd-Marks,
}
use ducks.Lifecycle.{is_ok_iff, both_true, both_false, stopped_by}
use ducks.Client.Wrapped.{Upstream}
use ducks.Client.Select.{Ducks, duck_type_is_ready, duck_list_meta, select_ducks}
use ducks.Client.{ClientError, duck_type_not_ready, other, check_found, find_ducks}

module _ (c : Conditions) (a : ApiErrors) where
  -- The `Sequence` of `DuckTypeReconciler` goes on with the definition only after no error.
  abbrev then_definition :
      Option Crd
      → Option a.Error
      → Option a.Error × DuckType c.Status
      → Option (Option a.Error × DuckType c.Status)
  then_definition child e out = elim out.0 [
    | none ↦ duck_type_reflect_crd c a child e out.1
    | some _ ↦ some out
  ]

  -- The first two parts of `DuckTypeReconciler` on a duck type: what is reported on its cluster roles,
  -- where `e` is the outcome of these, and on its custom resource definition, where `child` and `e'`
  -- are. `none` is a panic.
  unfoldable pub reconciled_type :
      Option a.Error
      → Option Crd
      → Option a.Error
      → DuckType c.Status
      → Option (Option a.Error × DuckType c.Status)
  unfolding duck_type_reflect_roles duck_type_reflect_crd
  reconciled_type e child e' t = then_definition child e' (duck_type_reflect_roles c a e t)

  -- The conditions under which the duck type is ready.
  abbrev IsUp : Option a.Error → Option Crd → Option a.Error → Type 0
  IsUp e child e' = (e ≡ none) × Established child e'

  unready-IsUp :
      {ready : Bool} (e : Option a.Error) (child : Option Crd) (e' : Option a.Error)
      → ready ≡ false
      → is_ok e ≡ false
      → (ready ≡ true) ↔ IsUp e child e'
  unready-IsUp e child e' waits failed = ((λ h. cc), λ h. cc (failed, (is_ok_iff e).1 h.0))

  ready-IsUp :
      {ready b rbac : Bool} (e : Option a.Error) (child : Option Crd) (e' : Option a.Error)
      → ready ≡ (b && rbac)
      → rbac ≡ is_ok e
      → (b ≡ true) ↔ Established child e'
      → (ready ≡ true) ↔ IsUp e child e'
  ready-IsUp {b = b} {rbac = rbac} e child e' is_ready fine up = (
    (λ h.
        let (established, well) = both_true b rbac (sym is_ready ∙ h) in
        ((is_ok_iff e).0 (sym fine ∙ well), up.0 established)),
    λ h. rw (is_ready, up.1 h.1, fine, (is_ok_iff e).1 h.0) refl,
  )

  -- A duck type that the two parts leave is ready exactly if both went well, and has its spec.
  reconciled_type-IsUp :
      LivingSets c
      → (e : Option a.Error) (child : Option Crd) (e' : Option a.Error) (t : DuckType c.Status)
        {r : Option a.Error} {t' : DuckType c.Status}
      → reconciled_type e child e' t ≡ some (r, t')
      → ((duck_type_is_ready c t' ≡ true) ↔ IsUp e child e') × (t'.spec ≡ t.spec)
  unfolding reconciled_type duck_type_is_ready duck_type_get_condition Marks duck_type_reflect_roles
  reconciled_type-IsUp laws e child e' t {r} {t'} did =
      let t₁ = (duck_type_reflect_roles c a e t).1 in
      let (passed, (rbac, _, unready)) = duck_type_reflect_roles-Marks c laws a e t in
      elim (Option-cases (duck_type_reflect_roles c a e t).0) [
        | inr (stop, stops) ↦
            let failed = stopped_by a e (sym passed ∙ stops) in
            let waits = unready ∙ both_false (is_ok e) false _ failed in
            subst Left (ap (λ o. o.1) (some_inj.0 (rw stops at did)))
              (unready-IsUp e child e' waits failed, refl)
        | inl fine ↦ elim (duck_type_reflect_crd-Marks c laws a child e' t₁) [
          | inl (lacks, panics) ↦ let defined = rw fine at did in cc (panics, defined)
          | inr (has, o, returns, _, kept, b, up, (_, _, ready)) ↦
              subst Left (ap (λ o. o.1) (some_inj.0 (sym returns ∙ (rw fine at did))))
                (ready-IsUp e child e' ready rbac up, ap (λ x. x.spec) kept)
        ]
      ]
    where
      Left : DuckType c.Status → Type 0
      Left x = ((duck_type_is_ready c x ≡ true) ↔ IsUp e child e') × (x.spec ≡ t.spec)

module _ (s : Schema) (c : Conditions) (lower : Char → Char) (u : Upstream c.Status) where
  open u use {World, Error}

  -- The definition serves lists of this API version and kind.
  pub record ServesList (d : CustomDefinition) (meta : TypeMeta) : Type 0 where
    pub version : DefinitionVersion
    pub declared : In version d.spec.versions
    pub served : version.served ≡ true
    pub api_version :
        meta.api_version
        ≡ s.group_version_string (record { group = d.spec.group; version = version.name })
    pub kind : meta.kind ≡ d.spec.names.list_kind

  -- The list of the wrapped client, tracking or not.
  abbrev pub list_of : Bool → TypeMeta → Exec World Error (Ducks c)
  list_of track meta = if track then u.track_and_list_ducks meta else u.list_ducks meta

  -- What a lookup answers, of a duck type with the definition `d` that is `up` or not.
  pub data Answers (up : Type 0) (d : CustomDefinition) (gk : GroupKind) (track : Bool) (w : World)
      : Result (ClientError Error) (Ducks c) × World → Type 0 where
    not_up : ¬ up → Answers up d gk track w (err duck_type_not_ready, w)
    goes_on :
        (meta : TypeMeta)
        → up
        → ServesList d meta
        → Answers up d gk track w (
            (map_error other (list_of track meta) >>= λ items.
            check_found s c lower u gk (select_ducks s c gk items))
              w)

  default_keeps_ready :
      (t : DuckType c.Status)
      → duck_type_is_ready c (duck_type_default lower t) ≡ duck_type_is_ready c t
  unfolding duck_type_default duck_type_is_ready
  default_keeps_ready t = refl

  module _ (f : Field) (a : ApiErrors) where
    -- The list that a lookup makes is one that the desired definition serves.
    list_meta-ServesList :
        (t t' : DuckType c.Status)
        → t'.spec ≡ t.spec
        → ServesList
            (desired_definition (duck_type_validate_create f lower t).object)
            (duck_list_meta s c (duck_type_default lower t'))
    unfolding desired_definition duck_type_validate_create duck_list_meta duck_type_default
    list_meta-ServesList t t' same = record {
      version = duck_version;
      declared = inl refl;
      served = refl;
      api_version =
          ap (λ x. s.group_version_string (record { group = x.group; version = "v1" })) same;
      kind = ap (λ x. (duck_type_spec_default lower x).list_kind) same;
    }

    -- A duck type that the first two parts of its reconciler leave, one after the other as long as
    -- there is no error and without a panic, with the outcome `e` of its cluster roles and `child` or
    -- `e'` of its definition; and then a lookup that reads it. If its roles have no error, and its
    -- definition has none and is there with a first condition `Established` that is true, then the
    -- lookup goes on with a list of ducks of an API version and a kind that the definition serves,
    -- which is desired for the duck type as the check of its creation leaves it; and otherwise it ends
    -- with the error that the duck type is not ready, with no further call.
    pub reconciled_type-Answers :
        (laws : LivingSets c) (e : Option a.Error) (child : Option Crd) (e' : Option a.Error)
        (t : DuckType c.Status) {r : Option a.Error} {t' : DuckType c.Status} (name : String)
        (gk : GroupKind) (track : Bool) (w w₁ : World)
        → reconciled_type c a e child e' t ≡ some (r, t')
        → u.get_duck_type name w ≡ (ok t', w₁)
        → Answers
            ((e ≡ none) × Established child e')
            (desired_definition (duck_type_validate_create f lower t).object)
            gk
            track
            w₁
            (find_ducks s c lower u name gk track w)
    unfolding find_ducks
    reconciled_type-Answers laws e child e' t {t' = t'} name gk track w w₁ did read =
        let (ready_iff, same) = reconciled_type-IsUp c a laws e child e' t did in
        let kept = default_keeps_ready t' in
        elim (Bool-cases (duck_type_is_ready c t')) [
          | inr waits ↦
              rw (read, kept, waits) (not_up λ h. let now = ready_iff.1 h in cc (waits, now))
          | inl ready ↦
              rw (read, kept, ready)
                (goes_on _ (ready_iff.0 ready) (list_meta-ServesList t t' same))
        ]
