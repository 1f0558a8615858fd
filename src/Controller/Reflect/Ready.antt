-- ===== src/Controller/Reflect/Ready.antt =====
-- What the conditions of a duck type and of a duck say after a child reconciler reported on them.
use ducks.Prelude.{
  String, ◌≡◌, ◌≢◌, ◌↔◌, ◌⊎◌, refl, sym, ap, subst, arith, eq_iff, ◌==◌, some_inj, Option-cases,
  List, Bool, true, false, [], ◌∷◌, Option, none, some, inl, inr, Bool-cases, if◌then◌else◌,
}
use ducks.Prelude.Text.{◌<>◌}
use ducks.Conditions.{
  Conditions, LivingSets, Verdict, marked_true, marked_false, marked_unknown, holds, mark,
}
use ducks.Api.{
  Duck, DuckType, condition_ready, duck_condition_set, duck_type_condition_set, duck_condition_rbac,
  duck_condition_available, duck_type_condition_rbac, duck_type_condition_established,
}
use ducks.Controller.Reflect.Marks.{
  rbac-ne-ready, established-ne-ready, available-ne-ready, established-ne-rbac, rbac-ne-established,
  available-ne-rbac, Marks, first-Marks, second-Marks,
}
use ducks.Controller.Reflect.{
  ApiErrors, Crd, CrdCondition, Outcome, with_outcome, ConditionStatus, condition_true,
  condition_false, condition_unknown, established_of, reflect_roles, reflect_crd,
  reflect_established, duck_type_reflect_roles, duck_reflect_roles, duck_type_reflect_crd,
}

-- Whether there was no error.
abbrev pub is_ok : {E : Type 0} → Option E → Bool
is_ok none = true
is_ok (some e) = false

abbrev is_condition_true : ConditionStatus → Bool
is_condition_true condition_true = true
is_condition_true condition_false = false
is_condition_true condition_unknown = false

condition_is_true : (v : ConditionStatus) → is_condition_true v ≡ true → v ≡ condition_true
condition_is_true condition_true h = refl
condition_is_true condition_false h = cc
condition_is_true condition_unknown h = cc

-- The first condition of type `Established` is there, and is true.
pub data FirstTrue : List CrdCondition → Type 0 where
  first_is :
      {x : CrdCondition} {xs : List CrdCondition}
      → x.type ≡ "Established"
      → x.status ≡ condition_true
      → FirstTrue (x ∷ xs)
  first_after :
      {x : CrdCondition} {xs : List CrdCondition}
      → x.type ≢ "Established"
      → FirstTrue xs
      → FirstTrue (x ∷ xs)

-- There was no error, and a child of which the first condition `Established` is true.
pub record Established {E : Type 0} (child : Option Crd) (e : Option E) : Type 0 where
  pub definition : Crd
  pub no_error : e ≡ none
  pub found : child ≡ some definition
  pub condition : FirstTrue definition.conditions

-- The error is of an object that exists already, and has no details of it.
abbrev pub LacksDetails : (a : ApiErrors) → Option a.Error → Type 0
LacksDetails a none = ⊥
LacksDetails a (some e) =
    (a.is_invalid e ≡ false) × (a.is_already_exists e ≡ true) × (a.details e ≡ none)

FirstTrue-established_of :
    (cs : List CrdCondition) → is_condition_true (established_of cs) ≡ true → FirstTrue cs
FirstTrue-established_of [] h = cc
FirstTrue-established_of (x ∷ cs) h = elim (Bool-cases (x.type == "Established")) [
  | inl hit ↦
      first_is (ground (arith, eq_iff x.type "Established"))
        (condition_is_true x.status (rw hit at h))
  | inr miss ↦
      first_after (ground (arith, eq_iff x.type "Established"))
        (FirstTrue-established_of cs (rw miss at h))
]

established_of-FirstTrue :
    {cs : List CrdCondition} → FirstTrue cs → is_condition_true (established_of cs) ≡ true
established_of-FirstTrue (first_is {x} {xs} type status) = rw (type, status) refl
established_of-FirstTrue (first_after {x} {xs} other rest) =
    let miss : (x.type == "Established") ≡ false = ground (arith, eq_iff x.type "Established") in
    rw miss (established_of-FirstTrue rest)

-- Whether a child was found, with no error, that is established.
abbrev is_established : {E : Type 0} → Option Crd → Option E → Bool
is_established child (some e) = false
is_established none none = false
is_established (some child) none = is_condition_true (established_of child.conditions)

is_established_iff :
    {E : Type 0} (child : Option Crd) (e : Option E)
    → (is_established child e ≡ true) ↔ Established child e
is_established_iff child (some e) = ((λ h. cc), λ h. cc (h.no_error))
is_established_iff none none = ((λ h. cc), λ h. cc (h.found))
is_established_iff (some child) none = (
  (λ h. record {
    definition = child;
    no_error = refl;
    found = refl;
    condition = FirstTrue-established_of child.conditions h;
  }),
  λ h.
      established_of-FirstTrue
        (subst (λ d. FirstTrue d.conditions) (sym (some_inj.0 h.found)) h.condition),
)

-- The error is passed on, or replaced by `hide`, unless its object is invalid or exists already.
abbrev pub passed_on : (a : ApiErrors) → (a.Error → a.Error) → Option a.Error → Option a.Error
passed_on a hide none = none
passed_on a hide (some e) =
    if a.is_invalid e then none else if a.is_already_exists e then none else some (hide e)

module _ (c : Conditions) (a : ApiErrors) where
  -- What is reported is one mark of the condition.
  IsMark : c.ConditionSet → String → Bool → c.Status → c.Status → Type 0
  IsMark set type b s s' =
      (v : Verdict) × (reason : String) × (message : String) × (s'
        ≡ mark c v set type reason message s)
      × (holds v ≡ b)

  reflect_roles_lem :
      (set : c.ConditionSet) (type : String) (e : Option a.Error) (s : c.Status)
      → ((reflect_roles c a set type e s).0 ≡ passed_on a (λ e. e) e)
        × IsMark set type (is_ok e) s (reflect_roles c a set type e s).1
  unfolding reflect_roles IsMark
  reflect_roles_lem set type none s = (refl, (marked_true, "Defined", "", refl, refl))
  reflect_roles_lem set type (some e) s = elim (Bool-cases (a.is_invalid e)) [
    | inl i ↦ rw i (refl, (marked_false, "Invalid", a.reason_for_error e, refl, refl))
    | inr i ↦ elim (Bool-cases (a.is_already_exists e)) [
      | inl x ↦ rw (i, x) (refl, (marked_false, "AlreadyExists", a.reason_for_error e, refl, refl))
      | inr x ↦ rw (i, x) (refl, (marked_unknown, "Unknown", "", refl, refl))
    ]
  ]

  established-IsMark :
      (set : c.ConditionSet) (type name : String) (v : ConditionStatus) (s : c.Status)
      → ((reflect_established c a set type name v s).0 ≡ none)
        × IsMark set type (is_condition_true v) s (reflect_established c a set type name v s).1
  unfolding IsMark
  established-IsMark set type name condition_true s =
      (refl, (marked_true, "Established", "", refl, refl))
  established-IsMark set type name condition_false s = (
    refl,
    (
      marked_false,
      "NotEstablished",
      "child CustomResourceDefinition " <> name <> " is not established",
      refl,
      refl,
    ),
  )
  established-IsMark set type name condition_unknown s = (
    refl,
    (
      marked_unknown,
      "NotEstablished",
      "child CustomResourceDefinition " <> name <> " is not established",
      refl,
      refl,
    ),
  )

  -- The outcome is a panic, or a mark of the condition.
  CrdOutcome :
      c.ConditionSet
      → String
      → Option Crd
      → Option a.Error
      → c.Status
      → Option (Outcome c a)
      → Type 0
  CrdOutcome set type child e s out =
      (LacksDetails a e × (out ≡ none))
      ⊎ ((¬ LacksDetails a e)
          × (o : Outcome c a) × (out ≡ some o)
          × (o.0 ≡ passed_on a (λ e. a.err_quiet) e)
          × IsMark set type (is_established child e) s o.1)

  reflect_crd_lem :
      (set : c.ConditionSet) (type : String) (child : Option Crd) (e : Option a.Error)
      (s : c.Status)
      → CrdOutcome set type child e s (reflect_crd c a set type child e s)
  unfolding reflect_crd IsMark CrdOutcome
  reflect_crd_lem set type none none s =
      inr ((λ x. x), _, refl, refl, (marked_false, "Missing", "", refl, refl))
  reflect_crd_lem set type (some child) none s =
      let (r, m) = established-IsMark set type child.name (established_of child.conditions) s in
      inr ((λ x. x), _, refl, r, m)
  reflect_crd_lem set type child (some e) s = elim (Bool-cases (a.is_invalid e)) [
    | inl i ↦ rw i (
        inr (
          (λ x. cc (x.0)),
          _,
          refl,
          refl,
          (marked_false, "Invalid", a.reason_for_error e, refl, refl),
        ))
    | inr i ↦ elim (Bool-cases (a.is_already_exists e)) [
      | inl x ↦ elim (Option-cases (a.details e)) [
        | inl missing ↦ rw (i, x, missing) (inl ((refl, refl, refl), refl))
        | inr ((kind, name), given) ↦
            rw (i, x, given)
              (inr (
                (λ h. cc (h.2)),
                _,
                refl,
                refl,
                (
                  marked_false,
                  "AlreadyExists",
                  "another " <> kind <> " already exists with name " <> name,
                  refl,
                  refl,
                ),
              ))
      ]
      | inr x ↦
          rw (i, x)
            (inr ((λ h. cc (h.1)), _, refl, refl, (marked_unknown, "Unknown", "", refl, refl)))
    ]
  ]

module _ (c : Conditions) (laws : LivingSets c) (a : ApiErrors) where
  first :
      (x y : String) (b : Bool) (s s' : c.Status)
      → x ≢ condition_ready
      → y ≢ condition_ready
      → y ≢ x
      → let set = c.living_set condition_ready (x ∷ y ∷ []) in
        IsMark c a set x b s s' → Marks c set x y b s s'
  unfolding IsMark
  first x y b s s' h k ne (v, reason, message, e, e') =
      rw (e, sym e') (first-Marks c laws x y v reason message s h k ne)

  second :
      (x y : String) (b : Bool) (s s' : c.Status)
      → x ≢ condition_ready
      → y ≢ condition_ready
      → x ≢ y
      → let set = c.living_set condition_ready (x ∷ y ∷ []) in
        IsMark c a set y b s s' → Marks c set y x b s s'
  unfolding IsMark
  second x y b s s' h k ne (v, reason, message, e, e') =
      rw (e, sym e') (second-Marks c laws x y v reason message s h k ne)

  -- The part of a duck in the next theorem.
  pub duck_reflect_roles-Marks :
      (e : Option a.Error) (d : Duck c.Status)
      → let of_duck = duck_reflect_roles c a e d in
        (of_duck.0 ≡ passed_on a (λ e. e) e)
        × Marks c
            (duck_condition_set c)
            duck_condition_rbac
            duck_condition_available
            (is_ok e)
            d.status
            of_duck.1.status
  unfolding duck_reflect_roles
  duck_reflect_roles-Marks e d =
      let (r, m) = reflect_roles_lem c a (duck_condition_set c) duck_condition_rbac e d.status in
      (r, first _ _ _ _ _ rbac-ne-ready available-ne-ready available-ne-rbac m)

  -- The part of a duck type in the next theorem.
  pub duck_type_reflect_roles-Marks :
      (e : Option a.Error) (t : DuckType c.Status)
      → let of_type = duck_type_reflect_roles c a e t in
        (of_type.0 ≡ passed_on a (λ e. e) e)
        × Marks c
            (duck_type_condition_set c)
            duck_type_condition_rbac
            duck_type_condition_established
            (is_ok e)
            t.status
            of_type.1.status
  unfolding duck_type_reflect_roles
  duck_type_reflect_roles-Marks e t =
      let (r, m) =
        reflect_roles_lem c a (duck_type_condition_set c) duck_type_condition_rbac e t.status in
      (r, first _ _ _ _ _ rbac-ne-ready established-ne-ready established-ne-rbac m)

  -- The outcomes of the cluster roles of a duck type and of a duck: an error is returned exactly if it
  -- is there and is neither of an invalid object nor of one that exists already. `RBAC` becomes true
  -- exactly without an error, the established condition of the duck type and `Available` of the duck
  -- are kept, and `Ready` is true exactly if both of the conditions beside it are.
  pub reflect_roles-Marks :
      (e : Option a.Error) (t : DuckType c.Status) (d : Duck c.Status)
      → let of_type = duck_type_reflect_roles c a e t in
        let of_duck = duck_reflect_roles c a e d in
        (of_type.0 ≡ passed_on a (λ e. e) e)
        × (of_duck.0 ≡ passed_on a (λ e. e) e)
        × Marks c
            (duck_type_condition_set c)
            duck_type_condition_rbac
            duck_type_condition_established
            (is_ok e)
            t.status
            of_type.1.status
        × Marks c
            (duck_condition_set c)
            duck_condition_rbac
            duck_condition_available
            (is_ok e)
            d.status
            of_duck.1.status
  reflect_roles-Marks e t d =
      let (r, m) = duck_type_reflect_roles-Marks e t in
      let (r', m') = duck_reflect_roles-Marks e d in (r, r', m, m')

  -- The outcome of a duck type's custom resource definition: the code panics exactly at an error of an
  -- object that exists already, and is not invalid, that has no details. Otherwise an error is
  -- replaced by the quiet one unless it is of an invalid object or of one that exists already. The
  -- established condition becomes true exactly if there is no error and a child of which the first
  -- condition `Established` is true; `RBAC` and all but the status are kept, and `Ready` is true
  -- exactly if both are.
  pub duck_type_reflect_crd-Marks :
      (child : Option Crd) (e : Option a.Error) (parent : DuckType c.Status)
      → (LacksDetails a e × (duck_type_reflect_crd c a child e parent ≡ none))
        ⊎ ((¬ LacksDetails a e)
            × (o : Option a.Error × DuckType c.Status) × (duck_type_reflect_crd c a child e parent
                ≡ some o)
            × (o.0 ≡ passed_on a (λ e. a.err_quiet) e)
            × (o.1 ≡ record parent { status = o.1.status })
            × (b : Bool) × ((b ≡ true) ↔ Established child e)
            × Marks c
                (duck_type_condition_set c)
                duck_type_condition_established
                duck_type_condition_rbac
                b
                parent.status
                o.1.status)
  unfolding duck_type_reflect_crd CrdOutcome
  duck_type_reflect_crd-Marks child e parent =
      elim (reflect_crd_lem c a (duck_type_condition_set c) duck_type_condition_established child e
        parent.status) [
          | inl (lacks, panics) ↦ inl (lacks, ap (with_outcome c a parent) panics)
          | inr (has, (r, s), returns, passed, is_mark) ↦ inr (
            has,
            (r, record parent { status = s }),
            ap (with_outcome c a parent) returns,
            passed,
            refl,
            is_established child e,
            is_established_iff child e,
            second _ _ _ _ _ rbac-ne-ready established-ne-ready rbac-ne-established is_mark,
          )
        ]
