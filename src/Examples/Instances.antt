-- ===== src/Examples/Instances.antt =====
-- Concrete packages in place of the parameters: they meet the laws that the theorems assume.
use Prim.Native.Char.{Char, code}
use Prim.Native.Nat.{compare, Ordering}
use text.Mathlib.TextPositions.{eq_refl}
use text.Mathlib.TextLemmas.{cons-append, nil-append}
use ducks.Prelude.{
  String, ◌≡◌, ◌≢◌, ◌↔◌, inl, inr, refl, Bool, true, false, ◌&&◌, List, [], ◌∷◌, Option, none, some,
  ◌==◌, eq_iff, arith, if◌then◌else◌, In, sym, subst,
}
use ducks.Prelude.Text.{◌<>◌, has_dot}
use ducks.Schema.{Schema, GroupKind, GroupResource}
use ducks.Conditions.{
  Conditions, LivingSets, Verdict, marked_true, marked_false, marked_unknown, holds, mark, all_true,
}
use ducks.Api.Webhook.Fields.{Field}

-- Paths are texts, and an aggregate keeps the list.
abbrev aggregate : List String → Option (List String)
aggregate [] = none
aggregate (e ∷ es) = some (e ∷ es)

pub aggregate_lem : (e : String) (es : List String) → aggregate (e ∷ es) ≢ none
aggregate_lem e es h = cc

abbrev join : String → List String → String
join path [] = path
join path (part ∷ parts) = join (path <> "." <> part) parts

abbrev pub text_field : Field
text_field = record {
  FieldPath = String;
  FieldError = String;
  AggregateError = List String;
  new_path = λ name. name;
  child = join;
  required = λ path detail. path <> ": Required value";
  invalid = λ path value detail. path <> ": Invalid value: " <> value <> ": " <> detail;
  to_aggregate = aggregate;
  to_aggregate-nil = refl;
  to_aggregate-cons = aggregate_lem;
}

-- The lowercase letters of the examples' names.
abbrev pick : Ordering → Ordering → Char → Char
pick Ordering.eq _ c = "p"
pick _ Ordering.eq c = "s"
pick _ _ c = c

abbrev pub lower : Char → Char
lower c = pick (compare (code c) b'P') (compare (code c) b'S') c

lower-pick :
    (p s : Ordering) (c : Char)
    → compare (code c) b'P' ≡ p
    → compare (code c) b'S' ≡ s
    → lower (pick p s c) ≡ pick p s c
lower-pick Ordering.eq _ c e e' = refl
lower-pick Ordering.lt Ordering.eq c e e' = refl
lower-pick Ordering.lt Ordering.lt c e e' = rw (e, e')
lower-pick Ordering.lt Ordering.gt c e e' = rw (e, e')
lower-pick Ordering.gt Ordering.eq c e e' = refl
lower-pick Ordering.gt Ordering.lt c e e' = rw (e, e')
lower-pick Ordering.gt Ordering.gt c e e' = rw (e, e')

pub lower_idem : (c : Char) → lower (lower c) ≡ lower c
lower_idem c = lower-pick _ _ c refl refl

-- A name is split at its first dot.
abbrev shift : Char → GroupResource → GroupResource
shift c gr = record gr { resource = String.◌∷◌ c gr.resource }

abbrev split_dot : String → GroupResource
split_dot String.[] = record { group = ""; resource = "" }
split_dot (String.◌∷◌ c s) = elim (compare (code c) b'.') [
  | Ordering.eq ↦ record { group = s; resource = "" }
  | _ ↦ shift c (split_dot s)
]

pub split_dot_lem :
    (resource group : String)
    → has_dot resource ≡ false
    → split_dot (resource <> "." <> group) ≡ record { group = group; resource = resource }
unfolding has_dot
split_dot_lem String.[] group h = rw (nil-append, cons-append, nil-append)
split_dot_lem (String.◌∷◌ c s) group h = rw cons-append (ground (arith, split_dot_lem s group))

abbrev resource_name : GroupResource → String
resource_name gr = if gr.group == "" then gr.resource else gr.resource <> "." <> gr.group

pub resource_name_lem :
    (resource group : String)
    → group ≢ ""
    → resource_name (record { group = group; resource = resource }) ≡ resource <> "." <> group
resource_name_lem resource group h = ground (arith, eq_iff group "")

pub is_empty_iff :
    (gk : GroupKind)
    → ((gk.group == "" && gk.kind == "") ≡ true) ↔ ((gk.group ≡ "") × (gk.kind ≡ ""))
is_empty_iff gk = ground (arith, eq_iff gk.group "", eq_iff gk.kind "")

abbrev pub text_schema : Schema
text_schema = record {
  parse_group_resource = split_dot;
  parse_group_resource_lem = split_dot_lem;
  group_resource_string = resource_name;
  group_resource_string_lem = resource_name_lem;
  group_version_string = λ gv. if gv.group == "" then gv.version else gv.group <> "/" <> gv.version;
  with_version =
      λ gr version. record { group = gr.group; version = version; resource = gr.resource };
  with_version_lem = λ gr version. refl;
  group_kind = λ gvk. record { group = gvk.group; kind = gvk.kind };
  group_kind_lem = λ gvk. refl;
  is_empty = λ gk. gk.group == "" && gk.kind == "";
  is_empty_iff = is_empty_iff;
}

-- A status says of each condition whether it is true; a set is its happy type and its dependents.
abbrev put : String → Bool → (String → Bool) → String → Bool
put type b s other = if other == type then b else s other

abbrev all_in : List String → (String → Bool) → Bool
all_in [] s = true
all_in (type ∷ types) s = s type && all_in types s

abbrev mark_as :
    Bool → String × List String → String → String → String → (String → Bool) → String → Bool
mark_as b (happy, types) type reason message s =
    put happy (b && all_in types (put type b s)) (put type b s)

abbrev value_or_false : Option Bool → Bool
value_or_false none = false
value_or_false (some b) = b

abbrev pub flags : Conditions
flags = record {
  Status = String → Bool;
  ConditionSet = String × List String;
  Condition = Bool;
  blank = λ type. false;
  living_set = λ happy types. (happy, types);
  initialize = λ set s. s;
  get_condition = λ set type s. some (s type);
  condition_is_true = value_or_false;
  mark_true = mark_as true;
  mark_false = mark_as false;
  mark_unknown = mark_as false;
}

apart : {a b : String} (types : List String) → ¬ In a types → In b types → b ≢ a
apart types h i e = h (subst (λ x. In x types) e i)

put_self : (type : String) (b : Bool) (s : String → Bool) → put type b s type ≡ b
put_self type b s = rw eq_refl

put_ne :
    (type other : String) (b : Bool) (s : String → Bool)
    → other ≢ type
    → put type b s other ≡ s other
put_ne type other b s h = ground (arith, eq_iff other type)

all_true-put :
    (set : String × List String) (happy : String) (b : Bool) (s : String → Bool)
    (types : List String)
    → ¬ In happy types
    → all_true flags set types (put happy b s) ≡ all_in types s
all_true-put set happy b s [] h = refl
all_true-put set happy b s (type ∷ types) h = rw (
  put_ne happy type b s (λ e. h (inl (sym e))),
  all_true-put set happy b s types (λ i. h (inr i)),
)

mark_as-holds :
    (v : Verdict) (set : String × List String) (type reason message : String) (s : String → Bool)
    → mark flags v set type reason message s ≡ mark_as (holds v) set type reason message s
mark_as-holds marked_true set type reason message s = refl
mark_as-holds marked_false set type reason message s = refl
mark_as-holds marked_unknown set type reason message s = refl

pub flags_living : LivingSets flags
flags_living = record {
  mark_self = λ happy types v type reason message s out i.
      rw
        (
          mark_as-holds v (happy, types) type reason message s,
          put_ne happy type (holds v && all_in types (put type (holds v) s)) (put type (holds v) s)
              (apart types out i),
        )
        (put_self type (holds v) s);
  mark_other = λ happy types v type other reason message s out i j ne.
      rw
        (
          mark_as-holds v (happy, types) type reason message s,
          put_ne happy other (holds v && all_in types (put type (holds v) s)) (put type (holds v) s)
              (apart types out j),
        )
        (put_ne type other (holds v) s ne);
  mark_happy = λ happy types v type reason message s out i.
      rw
        (
          mark_as-holds v (happy, types) type reason message s,
          all_true-put (happy, types) happy (holds v && all_in types (put type (holds v) s))
              (put type (holds v) s) types out,
        )
        (put_self happy (holds v && all_in types (put type (holds v) s)) (put type (holds v) s));
  blank_false = λ set type. refl;
}
