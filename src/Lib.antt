-- ===== src/Lib.antt =====
-- The verification library of tekton-kueue, which lets Kueue schedule Tekton PipelineRuns.
--
-- The program has two servers and a command. The webhook (cmd/main.go, internal/webhook/v1)
-- suspends each new PipelineRun, gives it a queue, and applies the mutations that CEL expressions of
-- its configuration return (internal/cel). Its configuration comes from a ConfigMap, which a
-- reconciler puts into a store that the admissions read. The controller (internal/controller) shows a
-- PipelineRun to Kueue as a job with resource requests, read from annotations that the webhook may
-- have written, and sets a pending status for PipelineRuns of MultiKueue. The command `mutate`
-- (pkg/mutate) runs the webhook's defaulter on a file.
--
-- Files:
--   Base, Base/*            lists, dictionaries, texts, results; int64 and decimal text as strconv
--                           has them (Base/Int, Base/Decimal)
--   Tekton                  the fields of a PipelineRun that the program touches, and
--                           pkg/common/constants.go
--   Metrics                 the counters (internal/cel/metrics.go, internal/webhook/v1/metrics.go); their
--                           names and registration in Metrics/Registry
--   Cel/Types               internal/cel/types.go: IsValid, Validate, UnmarshalJSON, MarshalJSON
--   Cel/Values              the values and the engine of cel-go, a parameter
--   Cel/Functions           internal/cel/compiler.go: the functions of expressions, each create…
--                           function with its binding under a name of its own (createMutationFunction
--                           is create_mutation_function with mutation_binding)
--   Cel/Compiler            internal/cel/compiler.go: CompileCELPrograms and its parts
--   Cel/Evaluator           internal/cel/evaluator.go: Evaluate and the conversion of results
--   Cel/Mutator             internal/cel/mutator.go: Mutate (mutate_all), evaluate (evaluate_all),
--                           mutate
--   Webhook/ConfigStore     internal/webhook/v1/config_store.go, pkg/config; its lock in
--                           Webhook/ConfigStore/Locking, and in Webhook/ConfigStore/Serial what
--                           lets an update count as one step
--   Webhook/Defaulter       internal/webhook/v1/pipelinerun_webhook.go: Default
--   Webhook/PatchFilter     internal/webhook/v1/pipelinerun_webhook.go: the filter of patches
--   Memory, DeepCopy        pkg/config/zz_generated.deepcopy.go: DeepCopyInto and DeepCopy, over Go's
--                           structs, arrays and slices in a memory; the program itself reads a
--                           configuration only, so that its other parts have it as a value
--   Controller/Job          internal/controller/pipelinerun_controller.go: the job
--   Controller/Status       internal/controller/pipelinerun_status_reconciler.go
--   Controller/ConfigMap    internal/controller/configmap_controller.go, pkg/common/common_utils.go
--   Mutate                  pkg/mutate/mutate.go
--   Controller/Queue        the work queue of controller-runtime
--   Manager                 what is registered with controller-runtime's manager, in order
--   Controller/Setup        internal/controller: SetupWithManager (setup_with_manager for the jobs,
--                           setup_config_map_with_manager for the ConfigMap),
--                           SetupPendingStatusWithManager, SetupIndexer
--   Webhook/Setup           internal/webhook/v1/pipelinerun_webhook.go: NewCustomDefaulter,
--                           SetupPipelineRunWebhookWithManager, logConstructor
--   Main                    cmd/main.go: the choice of a subcommand, and TLS options
--   Main/Flags              cmd/main.go: the AddFlags methods, and the fields read behind the parsing
--   Main/Floats             cmd/main.go: safeFloat64ToFloat32OrZero, on the bits of IEEE 754
--   Main/Setup              cmd/main.go: the steps that the servers share
--   Main/RunController, Main/RunWebhook, Main/RunMutate
--                           cmd/main.go: runController, runWebhook, runMutate
--   Main/Program            cmd/main.go: main with the subcommands, from its arguments to its exit
--   Main/Start              cmd/main.go: init, and the init functions of the counters, before main
--   Tests, Tests/*          concrete parameters, and the theorems applied to them
-- A file below one of these holds its proofs and is named for what they are about;
-- Controller/Job/Mutated, Controller/Job/Overflow and Controller/Job/Admitted are about the webhook
-- and the job together, Controller/Job/Unordered is about annotations without an order, and
-- Controller/ConfigMap/Convergence is about the ConfigMap reconciler behind its watch and work queue,
-- and Controller/ConfigMap/Serving about the admissions under the store that it leaves, and
-- Controller/Status/Convergence is about the reconciler of the pending status behind its watch.
--
-- Go code that mutates a PipelineRun in place is a function that gives the new one, together with the
-- error, so that what a failed call leaves is seen. Errors are values with their wrapping, texts of
-- formats with their text arguments. The counters are passed through the calls that count. A Go map is
-- an association list; where `range` visits a map, the order is an argument. Sums of `int` are those
-- of a 64-bit machine. A nil dereference is the outcome `panicked`.
--
-- Loops are structural, but for two: strings.ReplaceAll (Cel/Functions/Replace) runs on the number of
-- characters, of which each round takes at least one, and decimal text (Base/Decimal) on twenty
-- digits, which a number below 2 ^ 64 does not exceed.
--
-- A server's start is a sequence of steps, each of which panics, exits, or goes on with the
-- registrations made so far; a ConfigStore behind a pointer is known by its address there.
--
-- Parameters are cel-go, the validation of apimachinery, encoding/json, YAML, Tekton's defaults,
-- validation and status methods, Kubernetes quantities, the client, files and certificates, the
-- parsing of flags and the libraries' own flags, the libraries' schemes, Prometheus' registry, and the
-- manager, which answers each registration.
-- The work queue of controller-runtime (Controller/Queue) is taken as documented: a change that passes
-- the predicate queues a request for the object that was changed, and one whose reconcile fails or asks
-- for another try is queued again at the end. The manager's client reads from a cache, which only the
-- events of the watch bring up to date, and writes to the server. A server-side apply merges the object
-- that is sent, and the managed fields are the server's.
--
-- Not modelled are log lines and signal handlers: they only call libraries.
pub mod Base
pub mod Cel
pub mod Controller
pub mod DeepCopy
pub mod Main
pub mod Manager
pub mod Memory
pub mod Metrics
pub mod Mutate
pub mod Tekton
pub mod Tests
pub mod Webhook
