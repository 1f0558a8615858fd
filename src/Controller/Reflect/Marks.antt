-- ===== src/Controller/Reflect/Marks.antt =====
-- A mark of one of the two conditions beside `Ready`, for the names of the conditions of duck types
-- and ducks.
use ducks.Prelude.{
  String, ◌≡◌, ◌≢◌, refl, sym, Bool, true, ◌&&◌, [], ◌∷◌, inl, inr, ◌∙◌, In, arith, eq_iff,
}
use ducks.Conditions.{Conditions, LivingSets, Verdict, holds, mark, is_true}
use ducks.Api.{condition_ready}

pub rbac-ne-ready : ◌≢◌ {A = String} "RBAC" "Ready"
rbac-ne-ready e = ground (arith, eq_iff "RBAC" "Ready")

pub established-ne-ready : ◌≢◌ {A = String} "CustomResourceDefinitionEstablished" "Ready"
established-ne-ready e = ground (arith, eq_iff "CustomResourceDefinitionEstablished" "Ready")

pub available-ne-ready : ◌≢◌ {A = String} "Available" "Ready"
available-ne-ready e = ground (arith, eq_iff "Available" "Ready")

pub established-ne-rbac : ◌≢◌ {A = String} "CustomResourceDefinitionEstablished" "RBAC"
established-ne-rbac e = ground (arith, eq_iff "CustomResourceDefinitionEstablished" "RBAC")

pub rbac-ne-established : ◌≢◌ {A = String} "RBAC" "CustomResourceDefinitionEstablished"
rbac-ne-established e = ground (arith, eq_iff "RBAC" "CustomResourceDefinitionEstablished")

pub available-ne-rbac : ◌≢◌ {A = String} "Available" "RBAC"
available-ne-rbac e = ground (arith, eq_iff "Available" "RBAC")

pub rbac-ne-available : ◌≢◌ {A = String} "RBAC" "Available"
rbac-ne-available e = ground (arith, eq_iff "RBAC" "Available")

both : (x y : Bool) → (x && (x && (y && true))) ≡ (x && y)
both x y = ground arith

turned : (x y : Bool) → (x && (y && (x && true))) ≡ (x && y)
turned x y = ground arith

out_of : {x a b : String} → a ≢ x → b ≢ x → ¬ In x (a ∷ b ∷ [])
out_of h k (inl e) = h (sym e)
out_of h k (inr (inl e)) = k (sym e)
out_of h k (inr (inr i)) = i

module _ (c : Conditions) where
  -- From `s` to `s'`, `type` became `b`, `other` kept its value, and `Ready` holds if both do.
  unfoldable pub Marks : c.ConditionSet → String → String → Bool → c.Status → c.Status → Type 0
  Marks set type other b s s' =
      (is_true c set type s' ≡ b)
      × (is_true c set other s' ≡ is_true c set other s)
      × (is_true c set condition_ready s' ≡ (b && is_true c set other s))

module _ (c : Conditions) (laws : LivingSets c) where
  pub first-Marks :
      (a b : String) (v : Verdict) (reason message : String) (s : c.Status)
      → a ≢ condition_ready
      → b ≢ condition_ready
      → b ≢ a
      → let set = c.living_set condition_ready (a ∷ b ∷ []) in
        Marks c set a b (holds v) s (mark c v set a reason message s)
  unfolding Marks
  first-Marks a b v reason message s h k ne =
      let out = out_of h k in
      let self = laws.mark_self condition_ready (a ∷ b ∷ []) v a reason message s out (inl refl) in
      let other =
        laws.mark_other condition_ready (a ∷ b ∷ []) v a b reason message s out (inl refl)
          (inr (inl refl)) ne in
      (
        self,
        other,
        laws.mark_happy condition_ready (a ∷ b ∷ []) v a reason message s out (inl refl)
            ∙ rw (self, other)
                (both (holds v) (is_true c (c.living_set condition_ready (a ∷ b ∷ [])) b s)),
      )

  pub second-Marks :
      (a b : String) (v : Verdict) (reason message : String) (s : c.Status)
      → a ≢ condition_ready
      → b ≢ condition_ready
      → a ≢ b
      → let set = c.living_set condition_ready (a ∷ b ∷ []) in
        Marks c set b a (holds v) s (mark c v set b reason message s)
  unfolding Marks
  second-Marks a b v reason message s h k ne =
      let out = out_of h k in
      let self =
        laws.mark_self condition_ready (a ∷ b ∷ []) v b reason message s out (inr (inl refl)) in
      let other =
        laws.mark_other condition_ready (a ∷ b ∷ []) v b a reason message s out (inr (inl refl))
          (inl refl) ne in
      (
        self,
        other,
        laws.mark_happy condition_ready (a ∷ b ∷ []) v b reason message s out (inr (inl refl))
            ∙ rw (self, other)
                (turned (holds v) (is_true c (c.living_set condition_ready (a ∷ b ∷ [])) a s)),
      )
