-- ===== src/Examples/DieCalls.antt =====
-- The theorems on the calls of dies at the dies of `Examples.Dies` and at dies of a spec and of a status.
use ducks.Prelude.{
  ℕ, String, ◌≡◌, ◌≢◌, inl, inr, refl, arith, true, false, [], ◌∷◌, none, some, eq_iff,
}
use ducks.Api.{DuckSpec, DuckTypeSpec}
use ducks.Copies.{Memory, StoredStatus, plain_deep_copy, status_deep_copy}
use ducks.Copies.Laws.{Held}
use ducks.Copies.Parts.{plain-Copies}
use ducks.Copies.Ducks.{blank_spec}
use ducks.Dies.Keeps.{view_of, IsSound, IsKept}
use ducks.Dies.Codec.{Encodings, die_feed_json, die_release_json}
use ducks.Dies.RoundTrip.{RoundTrips, die_feed_json-die_release_json}
use ducks.Dies.Paths.{Reflection, die_stamp_at}
use ducks.Dies.Paths.Loop.{ActsAt}
use ducks.Dies.Paths.Outcome.{StampsAt, die_stamp_at-StampsAt}
use ducks.Dies.AsDuck.{as_duck}
use ducks.Dies.AsDuck.Reads.{Names, duck_seen, as_duck_lem}
use ducks.Dies.Statuses.{ConditionDies, status_kind, blank_condition, condition_die}
use ducks.Dies.Statuses.Lookup.{Keeps, condition_of, conditions_of, or_of_type, condition_die_lem}
use ducks.Dies.Types.{edit, duck_spec_dies, duck_type_dies}
use ducks.Dies.{DieKind, Dies, die_release}
use ducks.Examples.Copies.{
  Cell, ConditionText, meta, status, meta-Copies, status-Copies, condition_arrays,
}
use ducks.Examples.Dies.{
  metas, kind, kind-Copies, two_dies, two_dies-IsSound, set_version, set_version-IsLocal,
}
use ducks.Examples.Instances.{text_schema}

-- Parts of a duck are found at the path of its version, and a callback takes their address.
abbrev reflection : Reflection kind.resource
reflection = record {
  Callback = Unit {0};
  JsonPath = Unit {0};
  Match = Unit {0};
  num_in = λ fn. some 1;
  num_out = λ fn. 0;
  parse = λ jp. some tt;
  find_results = λ path r m. some ((tt ∷ []) ∷ []);
  takes_value = λ fn cv. false;
  takes_address = λ fn cv. true;
  call_value = λ fn cv. edit kind set_version;
  call_address = λ fn cv. edit kind set_version;
}

abbrev acts : ActsAt kind kind-Copies reflection
acts = record {
  act = λ fn cv. set_version;
  value-IsLocal = λ fn cv. set_version-IsLocal;
  address-IsLocal = λ fn cv. set_version-IsLocal;
}

die_stamp_at-StampsAt_example :
    StampsAt kind kind-Copies reflection acts 1 ".spec.version" tt two_dies
      (die_stamp_at kind reflection 1 ".spec.version" tt two_dies)
die_stamp_at-StampsAt_example =
    die_stamp_at-StampsAt kind kind-Copies reflection acts 1 ".spec.version" tt two_dies
      two_dies-IsSound (omega arith) refl

-- The spec of a duck, and an encoding of such specs.
abbrev specs : DieKind Cell
specs = duck_spec_dies

abbrev json : Encodings specs.resource
json = record {
  Bytes = DuckSpec;
  Any = DuckSpec;
  Raw = DuckSpec;
  Unstructured = DuckSpec;
  Patch = DuckSpec;
  PatchType = Unit {0};
  CmpOptions = Unit {0};
  marshal = λ r m. some r;
  unmarshal = λ j m. (true, j, m);
  marshal_yaml = λ r m. some r;
  unmarshal_yaml = λ j m. (true, j, m);
  marshal_any = λ v m. some v;
  unmarshal_any = λ j v m. some (j, m);
  marshal_raw = λ raw. some raw;
  unmarshal_raw = λ j. some j;
  read_file = λ name. none;
  to_unstructured = λ r m. some r;
  diff = λ a b opts m. "";
  create_patch = λ a b type m. some b;
}

abbrev secrets_spec : DuckSpec
secrets_spec = record { group = "external-secrets.io"; version = "v1"; kind = "ExternalSecret" }

abbrev spec_die : Dies specs
spec_die = record {
  memory = record { next = 0; cell = λ i. Cell.labels [] };
  count = 1;
  die = λ q. record { frozen = tt; mutable = false; r = secrets_spec; seal = blank_spec };
}

spec_die-IsSound : IsSound specs spec_die
spec_die-IsSound = record { r = λ q h i o. absurd o; seal = λ q h i o. absurd o }

decoded : (r j : DuckSpec) → some r ≡ some j → j ≡ r
decoded r j e = cc e

abbrev json-RoundTrips : RoundTrips specs (plain-Copies blank_spec) json
json-RoundTrips = record {
  IsExact = λ v. Unit {0};
  unmarshal-marshal = λ r m m' j held exact e. (refl, decoded r j e);
}

spec_released : die_release_json specs json 0 spec_die ≡ some (secrets_spec, spec_die)
unfolding die_release_json die_release plain_deep_copy
spec_released = refl

die_feed_json-die_release_json_example :
    (out : ℕ × Dies specs) × (die_feed_json specs json 0 secrets_spec spec_die ≡ some out)
    × (view_of specs out.0 out.1 ≡ view_of specs 0 spec_die)
die_feed_json-die_release_json_example =
    die_feed_json-die_release_json specs (plain-Copies blank_spec) json json-RoundTrips 0 spec_die
      secrets_spec spec_die 0 spec_die spec_die-IsSound (omega arith) tt spec_released

-- A duck type beside the ducks, which it shares the memory with.
abbrev types : DieKind Cell
types = duck_type_dies meta status metas

abbrev services_spec : DuckTypeSpec
services_spec = record {
  group = "duck.servicebinding.io";
  plural = "provisionedservices";
  singular = "provisionedservice";
  kind = "ProvisionedService";
  list_kind = "ProvisionedServiceList";
}

abbrev type_die : Dies types
type_die = record {
  memory = two_dies.memory;
  count = 1;
  die = λ q. record {
    frozen = "";
    mutable = false;
    r = record types.resource.zero { spec = services_spec };
    seal = types.resource.zero;
  };
}

blank-Held :
    Held types.resource (record types.resource.zero { spec = services_spec }) two_dies.memory
blank-Held i (inl (inl o)) = absurd o
blank-Held i (inl (inr o)) = absurd o
blank-Held i (inr o) = absurd o

type_die-IsSound : IsSound types type_die
type_die-IsSound = record { r = λ q h. blank-Held; seal = λ q h. blank-Held }

abbrev names : Names meta status metas
names = record {
  named = λ n v. (n, v.1);
  seen = λ n v. (n, v.1);
  sets = λ n v m. refl;
  owns = λ n v m i o. o;
  reads = λ n v m. refl;
}

as_duck_lem_example :
    let out = (as_duck meta status metas text_schema 0 0 "bindings" type_die two_dies).0 in
    (view_of kind out.0 out.1
      ≡ duck_seen meta status metas names meta-Copies status-Copies text_schema "bindings"
          services_spec
          (view_of kind 0 two_dies))
    × IsKept kind two_dies out.1
    × (types.resource.view (type_die.die 0).r out.1.memory ≡ view_of types 0 type_die)
as_duck_lem_example =
    as_duck_lem meta status metas names meta-Copies status-Copies text_schema 0 0 "bindings"
      type_die two_dies type_die-IsSound (omega arith) two_dies-IsSound refl (omega arith) refl

-- Conditions are their type and status, and a callback sets the status.
abbrev condition_dies : ConditionDies
condition_dies = record {
  Condition = ConditionText;
  Callback = String;
  type_of = λ c. c.0;
  of_type = λ v. (v, "Unknown");
  die = λ fn c. (c.0, fn);
}

abbrev copy_status : StoredStatus → Memory Cell → StoredStatus × Memory Cell
copy_status = status_deep_copy (blank_condition condition_dies condition_arrays) condition_arrays

abbrev statuses : DieKind Cell
statuses = status_kind condition_dies condition_arrays copy_status

abbrev status_die : Dies statuses
status_die = record {
  memory = two_dies.memory;
  count = 1;
  die = λ q. record {
    frozen = tt;
    mutable = false;
    r = record { observed_generation = 3; conditions = some 1 };
    seal = record { observed_generation = 0; conditions = none };
  };
}

status-Held :
    Held statuses.resource (record { observed_generation = 3; conditions = some 1 }) two_dies.memory
status-Held i (inl e) = omega (arith, e)
status-Held i (inr (inl o)) = absurd o
status-Held i (inr (inr o)) = absurd o

status_die-IsSound : IsSound statuses status_die
status_die-IsSound = record { r = λ q h. status-Held; seal = λ q h i o. absurd o }

keeps : Keeps condition_dies "False"
keeps = record { type_of-die = λ c. refl; type_of-of_type = λ v. refl }

types_differ : ◌≢◌ {A = String} "RBAC" "Ready"
types_differ e = ground (arith, eq_iff "RBAC" "Ready")

condition_die_lem_example :
    let out =
      condition_die condition_dies condition_arrays copy_status "Ready" "False" 0 status_die in
    (condition_of condition_dies "Ready"
        (conditions_of condition_dies condition_arrays copy_status out.0 out.1)
      ≡ some (
          condition_dies.die "False" (
            or_of_type condition_dies "Ready" (
              condition_of condition_dies "Ready"
                (conditions_of condition_dies condition_arrays copy_status 0 status_die)))))
    × (condition_of condition_dies "RBAC"
          (conditions_of condition_dies condition_arrays copy_status out.0 out.1)
        ≡ condition_of condition_dies "RBAC"
            (conditions_of condition_dies condition_arrays copy_status 0 status_die))
    × IsKept statuses status_die out.1
condition_die_lem_example =
    condition_die_lem condition_dies condition_arrays copy_status 0 "Ready" "RBAC" "False"
      status_die status-Copies keeps status_die-IsSound (omega arith) refl types_differ
