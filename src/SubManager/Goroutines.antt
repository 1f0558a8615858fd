-- ===== src/SubManager/Goroutines.antt =====
-- The sub-managers that run, and the entries of the reconciler for them.
use mathlib.Core.List.{Mem, Perm, mem-cons_self}
use mathlib.Core.List.Perm
use ducks.Prelude.{String, ℕ, ◌≡◌, refl, List, [], ◌∷◌, Option, none, some, map, sym, ap, ◌∙◌}
use ducks.Prelude.Exec.{Result}
use ducks.Prelude.Assoc.{
  Assoc, lookup, insert, remove, IsKeyed, remove_absent, remove-IsKeyed, insert-IsKeyed,
  remove-perm,
}
use ducks.Schema.{GroupKind}
use ducks.SubManager.Platform.{Host}
use ducks.SubManager.{SubManagerEntry, SubManagerReconciler, reconcile_all, and_then}
use ducks.SubManager.Outcomes.{
  IsReady, Reconciles, nothing_to_stop, stopped, no_finalizer, already_running, no_types,
  no_manager, not_set_up, launched,
}
use ducks.SubManager.Setup.{reconcile-Reconciles}
use ducks.SubManager.Entries.{Reconciles-IsReady}

-- Which goroutines are alive in a world. A goroutine that `start` makes ends only by the receive of
-- what it sends on `done`, since that channel has no buffer.
pub record Scheduler (h : Host) : Type 0 where
  pub alive : h.World → List h.Goroutine
  pub alive-new :
      (m : Option h.Manager) (p : Option ℕ) (types : List GroupKind) (w : h.World)
      → alive (h.new_sub_manager m p types w).1 ≡ alive w
  pub alive-with_cancel : (w : h.World) → alive (h.with_cancel w).1 ≡ alive w
  pub alive-cancel : (c : h.Context) (w : h.World) → alive (h.cancel c w) ≡ alive w
  pub alive-go_start :
      (m : h.Manager) (c : h.Context) (w : h.World)
      → alive (h.go_start m c w).1 ≡ (h.go_start m c w).0 ∷ alive w
  pub alive-wait :
      (g : h.Goroutine) (w : h.World) → Mem g (alive w) → Perm (alive w) (g ∷ alive (h.wait g w))

module _ (h : Host) (s : Scheduler h) where
  open h use {World, Error, Manager, Context, Goroutine, Resource, meta}
  open s use {alive}

  -- The functions that a reconciler is given start and end no goroutine of this kind.
  pub record IsQuiet (r : SubManagerReconciler h) : Type 0 where
    pub local_types :
        (f : Resource → World → Result Error (List GroupKind) × World) (resource : Resource)
        (w : World)
        → r.local_types ≡ some f
        → alive (f resource w).1 ≡ alive w
    pub setup :
        (f : Context → Manager → Resource → World → Result Error Unit × World) (c : Context)
        (m : Manager) (resource : Resource) (w : World)
        → r.setup_with_sub_manager ≡ some f
        → alive (f c m resource w).1 ≡ alive w

  abbrev pub goroutines : Assoc (SubManagerEntry h) → List Goroutine
  goroutines m = map (λ (entry : String × SubManagerEntry h). entry.1.done) m

  -- The recorded goroutines are those that are alive, one for each resource.
  pub record IsTracked (r : SubManagerReconciler h) (w : World) : Type 0 where
    pub keyed : IsKeyed r.managers
    pub perm : Perm (alive w) (goroutines r.managers)

  module _ (r : SubManagerReconciler h) (resource : Resource) (w : World) (q : IsQuiet r) where
    insert-goroutines :
        (entry : SubManagerEntry h)
        → lookup (meta resource).uid r.managers ≡ none
        → goroutines (insert (meta resource).uid entry r.managers)
          ≡ entry.done ∷ goroutines r.managers
    unfolding insert
    insert-goroutines entry new = rw (remove_absent (meta resource).uid r.managers new)

    remove-goroutines :
        (entry : SubManagerEntry h)
        → IsKeyed r.managers
        → lookup (meta resource).uid r.managers ≡ some entry
        → Perm
            (goroutines r.managers)
            (entry.done ∷ goroutines (remove (meta resource).uid r.managers))
    remove-goroutines entry keyed there =
        Perm.map _ (remove-perm (meta resource).uid entry r.managers keyed there)

    stopped-IsTracked :
        (entry : SubManagerEntry h)
        → lookup (meta resource).uid r.managers ≡ some entry
        → IsTracked r w
        → IsTracked
            (record r { managers = remove (meta resource).uid r.managers })
            (h.wait entry.done (h.cancel entry.cancel w))
    stopped-IsTracked entry there t = record {
      keyed = remove-IsKeyed (meta resource).uid r.managers t.keyed;
      perm = Perm.cons_inv (Perm.trans (Perm.symm (s.alive-wait entry.done _ held)) recorded);
    }
      where
        recorded :
            Perm
              (alive (h.cancel entry.cancel w))
              (entry.done ∷ goroutines (remove (meta resource).uid r.managers))
        recorded = rw s.alive-cancel (Perm.trans t.perm (remove-goroutines entry t.keyed there))

        held : Mem entry.done (alive (h.cancel entry.cancel w))
        held = Perm.subset (Perm.symm recorded) entry.done mem-cons_self

    same-IsTracked : (w' : World) → alive w' ≡ alive w → IsTracked r w → IsTracked r w'
    same-IsTracked w' e t = record { keyed = t.keyed; perm = rw e t.perm }

    -- The calls of `start` before its goroutine change nothing that is alive.
    typed-alive :
        (f : Resource → World → Result Error (List GroupKind) × World)
        (x : Result Error (List GroupKind)) (w₁ : World)
        → r.local_types ≡ some f
        → f resource w ≡ (x, w₁)
        → alive w₁ ≡ alive w
    typed-alive f x w₁ given e =
        sym (ap (λ (p : Result Error (List GroupKind) × World). alive p.1) e)
        ∙ q.local_types f resource w given

    made-alive :
        (types : List GroupKind) (x : Result Error Manager) (w₁ w₂ : World)
        → h.new_sub_manager r.mgr r.sync_period types w₁ ≡ (x, w₂)
        → alive w₂ ≡ alive w₁
    made-alive types x w₁ w₂ e =
        sym (ap (λ (p : Result Error Manager × World). alive p.1) e)
        ∙ s.alive-new r.mgr r.sync_period types w₁

    set_up-alive :
        (f : Context → Manager → Resource → World → Result Error Unit × World) (m : Manager)
        (x : Result Error Unit) (w₂ w₃ : World)
        → r.setup_with_sub_manager ≡ some f
        → f (h.with_cancel w₂).0 m resource (h.with_cancel w₂).1 ≡ (x, w₃)
        → alive w₃ ≡ alive w₂
    set_up-alive f m x w₂ w₃ given e =
        sym (ap (λ (p : Result Error Unit × World). alive p.1) e)
        ∙ (q.setup f (h.with_cancel w₂).0 m resource (h.with_cancel w₂).1 given
            ∙ s.alive-with_cancel w₂)

    Reconciles-IsTracked :
        {out : Result Error Unit × SubManagerReconciler h × World}
        → Reconciles h r resource w out
        → IsTracked r w
        → IsTracked out.1 out.2
    Reconciles-IsTracked (nothing_to_stop _ _) t = t
    Reconciles-IsTracked (stopped {entry} gone there) t = stopped-IsTracked entry there t
    Reconciles-IsTracked (no_finalizer _ _) t = t
    Reconciles-IsTracked (already_running _ _ _) t = t
    Reconciles-IsTracked (no_types live held new given failed) t =
        same-IsTracked _ (typed-alive _ _ _ given failed) t
    Reconciles-IsTracked (no_manager live held new given typed failed) t =
        same-IsTracked _ (made-alive _ _ _ _ failed ∙ typed-alive _ _ _ given typed) t
    Reconciles-IsTracked (not_set_up live held new given typed made set failed) t =
        same-IsTracked _
          (s.alive-cancel _ _
            ∙ (set_up-alive _ _ _ _ _ set failed
                ∙ (made-alive _ _ _ _ made ∙ typed-alive _ _ _ given typed)))
          t
    Reconciles-IsTracked (launched {w₂ = w₂} {w₃ = w₃} live held new given typed made set done) t =
        record {
          keyed = insert-IsKeyed (meta resource).uid _ r.managers t.keyed;
          perm =
              let before : alive w₃ ≡ alive w =
                set_up-alive _ _ _ _ _ set done
                ∙ (made-alive _ _ _ _ made ∙ typed-alive _ _ _ given typed) in
              rw (s.alive-go_start, before, insert-goroutines _ new) (Perm.cons _ t.perm);
        }

  Reconciles-IsQuiet :
      {r : SubManagerReconciler h} {resource : Resource} {w : World}
      {out : Result Error Unit × SubManagerReconciler h × World}
      → Reconciles h r resource w out
      → IsQuiet r
      → IsQuiet out.1
  Reconciles-IsQuiet (stopped _ _) q = record { local_types = q.local_types; setup = q.setup }
  Reconciles-IsQuiet (launched _ _ _ _ _ _ _ _) q = record {
    local_types = q.local_types;
    setup = q.setup;
  }
  Reconciles-IsQuiet _ q = q

  -- From a reconciler that is set up and whose entries are the goroutines that are alive, any
  -- reconciles of any resources, failed ones included, return without a panic, and the goroutines
  -- alive after them are again exactly those of the entries, one for each resource.
  pub reconcile_all-IsTracked :
      (resources : List Resource) (r : SubManagerReconciler h) (w : World)
      → IsReady h r
      → IsQuiet r
      → IsTracked r w
      → (r' : SubManagerReconciler h) × (w' : World) × (reconcile_all h r resources w
          ≡ some (r', w'))
        × IsTracked r' w'
  unfolding reconcile_all
  reconcile_all-IsTracked [] r w i q t = (r, w, refl, t)
  reconcile_all-IsTracked (resource ∷ resources) r w i q t =
      let (out, e, outcome) = reconcile-Reconciles h r resource w i in
      let (r', w', rest, tracked) =
        reconcile_all-IsTracked resources out.1 out.2 (Reconciles-IsReady h outcome i)
          (Reconciles-IsQuiet outcome q) (Reconciles-IsTracked r resource w q outcome t) in
      (
        r',
        w',
        ap (λ o. and_then h o (λ r'' w''. reconcile_all h r'' resources w'')) e ∙ rest,
        tracked,
      )
