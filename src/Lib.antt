-- ===== src/Lib.antt =====
-- The ducks library and controller: duck types group resources of different kinds that have a shape
-- in common, and a duck says which resource takes part in a duck type. A client reads, lists and
-- deletes all resources of a duck type, a broker tells its subscribers when one of them changes, and
-- a controller installs the custom resource definition and the cluster roles of each duck type, and
-- runs a manager of its own for the ducks of each. Dies build ducks and duck types for tests and
-- clients, and rely on their deep copies.
--
-- The parts of the program and the files that model them:
--
-- * Api (api/v1/duck_types.go, ducktype_types.go, duck_lifecycle.go, ducktype_lifecycle.go): the
--   resources `Duck` and `DuckType`, their condition sets and helper methods. Api/Webhook
--   (duck_webhook.go, ducktype_webhook.go): the defaults and the validation of both.
-- * Client (client/client.go): `ducks` is `find_ducks`, `duck` is `find_duck`, `setDuckVersion` is
--   `set_duck_version`, and the methods have their names in snake case. A call takes the world that it
--   shares with the API server and returns the world that it leaves; a method that fills an object
--   returns the object. The pointer receivers copy nothing else. Client/Calls has all calls together,
--   with those that are passed on and those that panic.
-- * Broker (client/broker.go): the channels are queues with the capacities of `make`, and `Step` is
--   one step of the loop of `Start`, a single send included, or of the goroutines around it, in any
--   order. Broker/Informers is the runnable that `NewBroker` adds to its manager; a call on a nil
--   informer is no result.
-- * SubManager (reconcilers/submanager.go): `SubManagerReconciler` with its map of managers, passed
--   from call to call; a panic is no result.
-- * Controller (internal/controller/ducktype_controller.go): Roles has the cluster roles of duck types
--   and ducks, Definition the custom resource definition of a duck type, Reflect what the outcome of a
--   child does to the conditions of its parent, Available the ready check of a duck, and Assembled the
--   reconcilers that these are parts of, with what they hand to the sub-manager reconciler.
-- * Routing (internal/submanager/submanager.go): the cache of a sub-manager, which has a side for the
--   local types and one for the rest, and the options of `New`. SubManager calls `New` as one call.
-- * Copies (api/v1/zz_generated.deepcopy.go, internal/testresources/zz_generated.deepcopy.go): a memory
--   of cells, which hold the arrays of slices, and the deep copies of all types: Ducks has the
--   objects, Slices, Lists and Statuses the slices and what holds them, Methods the methods by type.
--   `DeepCopyInto` is a function from a value and a memory to the copy and the memory after it.
-- * Dies (api/v1/zz_generated.die.go, internal/testresources/zz_generated.die.go, api/v1/duck_dies.go,
--   api/v1/ducktype_dies.go): the builders of resources, as structs behind pointers. `DieKind` is what
--   distinguishes the types of dies, whose common calls are one text in the source and here: those
--   that build in Dies, those that encode and decode in Dies/Codec, `DieStampAt` in Dies/Paths.
--   Dies/Calls lists them for each type. Types, Duck, DuckType, DuckSpec, DuckTypeSpec and
--   ConditionDuck have the calls that set fields, Statuses those that set conditions, AsDuck
--   `AsDuck`. A local function writes to the resource that it is given and to new cells only; the
--   other children show what such functions make of a die and what they leave of all others;
--   Chains and Blank follow the calls from the declared blank dies.
-- * Lifecycle (api/v1, internal/controller, client): a duck from the check of its creation through its
--   reconciler to a lookup; Lifecycle/Types a duck type from its reconciler to a lookup.
-- * Main (cmd/main.go): from the flags to the calls that `main` makes up to `Start` or to the first
--   that fails, with their options.
-- * Prelude has the tests, lists, texts, association lists and calls that the parts share. Schema and
--   Conditions are the packages of Kubernetes and reconciler.io that everything uses.
-- * Examples has concrete values of all parameters, and every theorem that has hypotheses or
--   parameters at concrete inputs.
--
-- How the parts interact: the webhooks check the names and set the defaults that the client and the
-- controller rely on; `main` sets up the webhook of duck types alone. The client and the broker read
-- the conditions that the controller sets. The controller runs one sub-manager for each duck type.
-- The dies copy and share resources in the memory that deep copies work on.
--
-- Loops are structural recursion over their lists, so no definition runs on fuel. Numbers are natural
-- numbers; nothing in the program computes with machine integers. The bounds of the broker are the
-- capacities in client/broker.go: one for its own channels and five for a subscriber's.
--
-- Code outside the repository is a parameter: the record `Schema` for k8s.io/apimachinery schemas,
-- `Field` for its field errors, `Conditions` for the conditions of reconciler.io/runtime, `Upstream`
-- for the client that the duck client wraps and for duck.Convert, `Cache` for informers, `Host` for
-- managers, contexts and goroutines, `Resource` for the types of other packages with their deep copies,
-- `Encodings` for JSON, YAML, diffs and patches, `Reflection` for JSON paths and reflection,
-- `MetaDies` and `ConditionDies` for the dies of metadata and conditions, `ApiErrors` for API errors,
-- the two records `Kit` for the cache and the reconcilers of the runtimes, the lowercase of a character,
-- and `filepath.Join` for `main`. The laws of these records are what their documentation says; the
-- instances in Examples meet them.
--
-- Not modelled: the parsing of flags, the schemes and the logging of `main`, and the registration of
-- webhooks and watches, which are calls of other packages; what reconciler.io/runtime does around the
-- parts of a reconciler, but for its documented sequence, which stops at the first error; what a call
-- does after a panic that a caller recovers from; and the blank conditions, which only the dies of
-- conditions make.
-- An append to a slice of conditions always makes a new array; Go may use the spare end of the old
-- one, which no other slice reads.
pub mod Prelude
pub mod Schema
pub mod Conditions
pub mod Api
pub mod Client
pub mod Broker
pub mod SubManager
pub mod Controller
pub mod Routing
pub mod Copies
pub mod Dies
pub mod Lifecycle
pub mod Main
pub mod Examples
