-- ===== src/Routing/Sides.antt =====
-- Which of its two caches the cache of a sub-manager calls.
use ducks.Prelude.{
  String, ◌≡◌, ◌↔◌, ◌⊎◌, refl, sym, subst, Bool, true, false, List, [], ◌∷◌, In, some, inl, inr,
  arith, eq_iff, Bool-cases, if◌then◌else◌,
}
use ducks.Prelude.Exec.{ok}
use ducks.Schema.{Schema, GroupKind, GroupVersionKind}
use ducks.Api.{DuckType}
use ducks.Routing.{
  Kit, Cache, SubCache, has_kind, same_kind, local_types, is_local_kind, is_local, get, list,
  get_informer, get_informer_for_kind, remove_informer, index_field, route,
}

gk_eq : (a b : GroupKind) → a.group ≡ b.group → a.kind ≡ b.kind → a ≡ b
gk_eq a b g k = cc (g, k)

same_kind_iff : (a b : GroupKind) → (same_kind a b ≡ true) ↔ (b ≡ a)
same_kind_iff a b = (
  λ e. ground (arith, eq_iff a.group b.group, eq_iff a.kind b.kind, gk_eq b a),
  λ e. rw e (ground (arith, eq_iff a.group a.group, eq_iff a.kind a.kind)),
)

has_kind_iff : (xs : List GroupKind) (gk : GroupKind) → (has_kind xs gk ≡ true) ↔ In gk xs
unfolding has_kind
has_kind_iff [] gk = ((λ e. cc), λ i. absurd i)
has_kind_iff (x ∷ xs) gk = (
  λ e. elim (Bool-cases (same_kind x gk)) [
    | inl hit ↦ inl ((same_kind_iff x gk).0 hit)
    | inr miss ↦ inr ((has_kind_iff xs gk).0 (rw miss at e))
  ],
  λ i. elim i [
    | inl e ↦ rw ((same_kind_iff x gk).1 e)
    | inr i ↦ ground (arith, (has_kind_iff xs gk).1 i)
  ],
)

module _ (s : Schema) (k : Kit) where
  -- Every method calls `to` for the object and its kind.
  pub record Calls (c : SubCache s k) (to : Cache k) (obj : k.Object) (gvk : GroupVersionKind)
      (w : k.World) : Type 0 where
    pub get :
        (key : k.Key) (opts : k.Opts) → get s k c key opts obj w ≡ some (to.get key opts obj w)
    pub list : (opts : k.Opts) → list s k c opts obj w ≡ some (to.list opts obj w)
    pub get_informer :
        (opts : k.Opts) → get_informer s k c obj opts w ≡ some (to.get_informer obj opts w)
    pub get_informer_for_kind :
        (opts : k.Opts)
        → get_informer_for_kind s k c gvk opts w ≡ some (to.get_informer_for_kind gvk opts w)
    pub remove_informer : remove_informer s k c obj w ≡ some (to.remove_informer obj w)
    pub index_field :
        (field : String) (extract : k.Extract)
        → index_field s k c obj field extract w ≡ some (to.index_field obj field extract w)

  -- The cache that `local` stands for.
  abbrev pub side : SubCache s k → Bool → Cache k
  side c is = if is then c.local else c.upstream

  routed :
      {A : Type 0} (c : SubCache s k) (b : Bool) (call : Cache k → A)
      → route s k (some b) call c ≡ some (call (side c b))
  routed c true call = refl
  routed c false call = refl

  module _ (c : SubCache s k) (obj : k.Object) (gvk : GroupVersionKind) (w : k.World) where
    known :
        k.group_version_kind_for obj ≡ ok gvk → is_local s k c obj ≡ some (is_local_kind s k c gvk)
    unfolding is_local
    known e = rw e

    side-Calls :
        k.group_version_kind_for obj ≡ ok gvk → Calls c (side c (is_local_kind s k c gvk)) obj gvk w
    unfolding get list get_informer get_informer_for_kind remove_informer index_field
    side-Calls e = record {
      get = λ key opts. rw (known e) (routed c _ (λ to. to.get key opts obj w));
      list = λ opts. rw (known e) (routed c _ (λ to. to.list opts obj w));
      get_informer = λ opts. rw (known e) (routed c _ (λ to. to.get_informer obj opts w));
      get_informer_for_kind = λ opts. routed c _ (λ to. to.get_informer_for_kind gvk opts w);
      remove_informer = rw (known e) (routed c _ (λ to. to.remove_informer obj w));
      index_field =
          λ field extract. rw (known e) (routed c _ (λ to. to.index_field obj field extract w));
    }

    is_local_kind_iff :
        (is_local_kind s k c gvk ≡ true)
        ↔ In (record { group = gvk.group; kind = gvk.kind }) c.types
    unfolding is_local_kind
    is_local_kind_iff = rw (s.group_kind_lem gvk) (has_kind_iff c.types _)

    -- For an object whose kind is known, every method that takes an object or its kind calls one of
    -- the two caches, and does not panic: the local cache exactly if the kind is one of the local
    -- types, and otherwise the cache of the main manager.
    pub calls_side :
        k.group_version_kind_for obj ≡ ok gvk
        → Calls c (side c (is_local_kind s k c gvk)) obj gvk w
          × ((is_local_kind s k c gvk ≡ true)
              ↔ In (record { group = gvk.group; kind = gvk.kind }) c.types)
    calls_side e = (side-Calls e, is_local_kind_iff)

    -- For an object whose kind is known and is one of the local types, every method that takes an
    -- object or its kind calls the local cache, and does not panic.
    local-Calls :
        k.group_version_kind_for obj ≡ ok gvk
        → In (record { group = gvk.group; kind = gvk.kind }) c.types
        → Calls c c.local obj gvk w
    local-Calls e i =
        subst (λ b. Calls c (side c b) obj gvk w) (is_local_kind_iff.1 i) (side-Calls e)

    -- For an object whose kind is known and is not one of the local types, they all call the cache
    -- of the main manager.
    upstream-Calls :
        k.group_version_kind_for obj ≡ ok gvk
        → ¬ In (record { group = gvk.group; kind = gvk.kind }) c.types
        → Calls c c.upstream obj gvk w
    upstream-Calls e out = elim (Bool-cases (is_local_kind s k c gvk)) [
      | inl is ↦ absurd (out (is_local_kind_iff.0 is))
      | inr not ↦ subst (λ b. Calls c (side c b) obj gvk w) not (side-Calls e)
    ]

    -- With the local types that a duck type asks for, its ducks and their lists, in any version,
    -- are read from the local cache, if their kind is known.
    local_types-Calls :
        {S : Type 0} (t : DuckType S)
        → c.types ≡ local_types t
        → k.group_version_kind_for obj ≡ ok gvk
        → gvk.group ≡ t.spec.group
        → (gvk.kind ≡ t.spec.kind) ⊎ (gvk.kind ≡ t.spec.list_kind)
        → Calls c c.local obj gvk w
    unfolding local_types
    local_types-Calls t types e group kind = local-Calls e (subst (In _) (sym types) (member kind))
      where
        member :
            (gvk.kind ≡ t.spec.kind) ⊎ (gvk.kind ≡ t.spec.list_kind)
            → In (record { group = gvk.group; kind = gvk.kind }) (local_types t)
        member (inl e) = inl (cc (group, e))
        member (inr e) = inr (inl (cc (group, e)))
