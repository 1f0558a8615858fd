-- ===== src/Controller/Assembled/Starts.antt =====
-- What `DuckSubReconciler` does for a duck type that has no sub-manager yet.
use Prim.Native.Char.{Char}
use ducks.Prelude.{
  String, ◌≡◌, refl, sym, ap, subst, ◌∙◌, true, false, List, [], ◌∷◌, none, some, some_inj,
}
use ducks.Prelude.Text.{to_lower}
use ducks.Api.{DuckType}
use ducks.Prelude.Exec.{Result, ok, err}
use ducks.Prelude.Assoc.{lookup, insert}
use ducks.Schema.{Schema, GroupKind}
use ducks.Routing.{local_types}
use ducks.SubManager.Platform.{Host}
use ducks.SubManager.{
  SubManagerReconciler, setup_with_manager, reconcile, reconcile_all, is_deleted, contains,
}
use ducks.SubManager.Outcomes.{
  Reconciles, nothing_to_stop, stopped, no_finalizer, already_running, no_types, no_manager,
  not_set_up, launched,
}
use ducks.SubManager.Setup.{reconcile-Reconciles}
use ducks.SubManager.Entries.{reconcile_all-keeps}
use ducks.Controller.Assembled.{
  Kit, ResourceReconciler, DuckPart, duck_type_reconciler, reconciler_finalizer, sync_period,
  duck_type_meta, duck_reconciler, setup_ducks, duck_sub_reconciler,
}
use ducks.Controller.Assembled.Fields.{
  types_of, IsAssembled, IsAssembled-IsReady, Reconciles-IsAssembled,
  setup_with_manager-IsAssembled,
}

module _ (s : Schema) (lower : Char → Char) (h : Host) {S : Type 0} (k : Kit h S) where
  open h use {World, Error, Manager, Context, Resource, meta}

  -- The kind of the ducks of a duck type, and the kind of their lists.
  abbrev pub types_served : DuckType S → List GroupKind
  types_served t =
      record { group = t.spec.group; kind = t.spec.kind }
      ∷ record { group = t.spec.group; kind = t.spec.list_kind }
      ∷ []

  -- A reconciler of the ducks of a duck type, in its group and `v1`, with a configuration of the
  -- sub-manager and ten hours, and with its two parts in their order.
  pub record IsDuckReconciler (t : DuckType S) (sub : Manager)
      (r : ResourceReconciler k.Config DuckPart) : Type 0 where
    pub config : r.config ≡ k.new_config sub 36000
    pub type_meta :
        r.type_meta
        ≡ some (record {
          api_version = s.group_version_string (record { group = t.spec.group; version = "v1" });
          kind = t.spec.kind;
        })
    pub named :
        r.named
        ≡ some (
            to_lower lower (
              k.group_kind_string (
                s.group_kind (
                  k.from_api_version_and_kind
                    (s.group_version_string (record { group = t.spec.group; version = "v1" }))
                    t.spec.kind))))
    pub finalizer : r.finalizer ≡ none
    pub sequence : r.sequence ≡ DuckPart.cluster_roles ∷ DuckPart.ready_check ∷ []

  duck_reconciler-IsDuckReconciler :
      (t : DuckType S) (sub : Manager)
      → IsDuckReconciler t sub (
          duck_reconciler s lower h k (k.new_config sub sync_period) (duck_type_meta s lower h k t))
  unfolding duck_reconciler
  duck_reconciler-IsDuckReconciler t sub = record {
    config = refl;
    type_meta = refl;
    named = refl;
    finalizer = refl;
    sequence = refl;
  }

  -- The outcomes of a reconcile that starts a sub-manager.
  pub data Starts (mgr : Manager) (r : SubManagerReconciler h) (resource : Resource) (w : World)
      : Result Error Unit × SubManagerReconciler h × World → Type 0 where
    without_manager :
        {e : Error} {w₁ : World}
        → h.new_sub_manager (some mgr) (some 36000) (types_served (k.duck_type resource)) w
          ≡ (err e, w₁)
        → Starts mgr r resource w (err e, r, w₁)
    canceled :
        {e : Error} {sub : Manager} {reconciler : ResourceReconciler k.Config DuckPart}
        {w₁ w₂ : World}
        → h.new_sub_manager (some mgr) (some 36000) (types_served (k.duck_type resource)) w
          ≡ (ok sub, w₁)
        → IsDuckReconciler (k.duck_type resource) sub reconciler
        → k.setup_with_manager reconciler (h.with_cancel w₁).0 sub (h.with_cancel w₁).1
          ≡ (err e, w₂)
        → Starts mgr r resource w (err e, r, h.cancel (h.with_cancel w₁).0 w₂)
    running :
        {sub : Manager} {reconciler : ResourceReconciler k.Config DuckPart} {w₁ w₂ : World}
        → h.new_sub_manager (some mgr) (some 36000) (types_served (k.duck_type resource)) w
          ≡ (ok sub, w₁)
        → IsDuckReconciler (k.duck_type resource) sub reconciler
        → k.setup_with_manager reconciler (h.with_cancel w₁).0 sub (h.with_cancel w₁).1
          ≡ (ok tt, w₂)
        → Starts mgr r resource w (
          ok tt,
          record r {
            managers =
                insert
                  (meta resource).uid
                  (record {
                    done = (h.go_start sub (h.with_cancel w₁).0 w₂).0;
                    cancel = (h.with_cancel w₁).0;
                  })
                  r.managers;
          },
          (h.go_start sub (h.with_cancel w₁).0 w₂).1,
        )

  -- What the functions of the reconciler are, where the outcomes only name them.
  setup_eq :
      {mgr : Manager} {r : SubManagerReconciler h} {resource : Resource}
      (a : IsAssembled s lower h k mgr r)
      {f : Context → Manager → Resource → World → Result Error Unit × World} (ctx : Context)
      (sub : Manager) (w' : World)
      → r.setup_with_sub_manager ≡ some f
      → k.setup_with_manager
          (duck_reconciler s lower h k
            (k.new_config sub sync_period)
            (duck_type_meta s lower h k (k.duck_type resource)))
          ctx
          sub
          w'
        ≡ f ctx sub resource w'
  unfolding setup_ducks
  setup_eq {resource = resource} a ctx sub w' set =
      ap (λ g. g ctx sub resource w') (some_inj.0 (sym a.setup ∙ set))

  module _ {mgr : Manager} {r : SubManagerReconciler h} {resource : Resource} {w : World}
      (a : IsAssembled s lower h k mgr r) where
    types_eq :
        {f : Resource → World → Result Error (List GroupKind) × World}
        → r.local_types ≡ some f
        → f resource w ≡ types_of s lower h k resource w
    types_eq t = ap (λ g. g resource w) (some_inj.0 (sym t ∙ a.types))

    new_eq :
        {f : Resource → World → Result Error (List GroupKind) × World} {types : List GroupKind}
        {w₁ : World}
        → r.local_types ≡ some f
        → f resource w ≡ (ok types, w₁)
        → h.new_sub_manager (some mgr) (some 36000) (types_served (k.duck_type resource)) w
          ≡ h.new_sub_manager r.mgr r.sync_period types w₁
    unfolding local_types
    new_eq t typed = let same = sym (types_eq t) ∙ typed in cc (a.manager, a.period, same)

    no_failure :
        {f : Resource → World → Result Error (List GroupKind) × World} {e : Error} {w₁ : World}
        → r.local_types ≡ some f
        → ¬ (f resource w ≡ (err e, w₁))
    no_failure t failed = let same = sym (types_eq t) ∙ failed in cc same

    -- The outcomes that are left for a live duck type with the finalizer and without an entry.
    Reconciles-Starts :
        {out : Result Error Unit × SubManagerReconciler h × World}
        → Reconciles h r resource w out
        → is_deleted h resource ≡ false
        → contains (meta resource).finalizers reconciler_finalizer ≡ true
        → lookup (meta resource).uid r.managers ≡ none
        → Starts mgr r resource w out
    Reconciles-Starts (nothing_to_stop gone _) live there absent = cc (gone, live)
    Reconciles-Starts (stopped gone _) live there absent = cc (gone, live)
    Reconciles-Starts (no_finalizer _ missing) live there absent =
        cc (rw a.finalizer at missing, there)
    Reconciles-Starts (already_running _ _ present) live there absent = cc (present, absent)
    Reconciles-Starts (no_types _ _ _ t failed) live there absent = absurd (no_failure t failed)
    Reconciles-Starts (no_manager _ _ _ t typed failed) live there absent =
        without_manager (new_eq t typed ∙ failed)
    Reconciles-Starts (not_set_up _ _ _ t typed made set failed) live there absent =
        canceled (new_eq t typed ∙ made) (duck_reconciler-IsDuckReconciler _ _)
          (setup_eq a _ _ _ set ∙ failed)
    Reconciles-Starts (launched _ _ _ t typed made set fine) live there absent =
        running (new_eq t typed ∙ made) (duck_reconciler-IsDuckReconciler _ _)
          (setup_eq a _ _ _ set ∙ fine)

  -- After `SetupWithManager` has accepted `DuckSubReconciler`, and after any reconciles, a reconcile
  -- of a live duck type that has the finalizer of `DuckTypeReconciler` and no sub-manager returns. It
  -- asks for a sub-manager of the main manager, with ten hours between synchronizations, and with
  -- the kind of the ducks and the kind of their lists, in the group of the duck type, as its types.
  -- In it the reconcile sets up a reconciler of the ducks' kind in the duck type's group and `v1`,
  -- with the cluster roles and then the ready check as its parts, and no finalizer. If one of the two
  -- fails the reconcile returns the error without an entry, and cancels the context in the second
  -- case; otherwise the sub-manager is started and gets an entry.
  pub duck_sub_reconciler-Starts :
      (config : k.Config) (mgr : Manager) (w : World) (resources : List Resource)
      (resource : Resource) {r₀ r : SubManagerReconciler h} {w₀ w₁ : World} {finalizer : String}
      → setup_with_manager h (duck_sub_reconciler s lower h k) mgr w ≡ some (ok tt, r₀, w₀)
      → reconcile_all h r₀ resources w₀ ≡ some (r, w₁)
      → (duck_type_reconciler config).finalizer ≡ some finalizer
      → is_deleted h resource ≡ false
      → contains (meta resource).finalizers finalizer ≡ true
      → lookup (meta resource).uid r.managers ≡ none
      → (out : Result Error Unit × SubManagerReconciler h × World) × (reconcile h r resource w₁
          ≡ some out)
        × Starts mgr r resource w₁ out
  unfolding duck_type_reconciler
  duck_sub_reconciler-Starts config mgr w resources resource {r₀} {w₀ = w₀} {w₁ = w₁} accepted ran
        adds live there absent =
      let a₀ = setup_with_manager-IsAssembled s lower h k mgr w accepted in
      let a =
        reconcile_all-keeps h (IsAssembled s lower h k mgr)
          (λ r i. IsAssembled-IsReady s lower h k i)
          (λ r resource w out o i. Reconciles-IsAssembled s lower h k o i) r₀ resources w₀ a₀ ran in
      let (out, returns, outcome) =
        reconcile-Reconciles h _ resource w₁ (IsAssembled-IsReady s lower h k a) in
      (
        out,
        returns,
        Reconciles-Starts a outcome live
            (subst (λ f. contains (meta resource).finalizers f ≡ true) (sym (some_inj.0 adds))
              there)
            absent,
      )
