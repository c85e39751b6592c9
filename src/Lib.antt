-- ===== src/Lib.antt =====
-- Verification of kform, which reads packages of Kubernetes documents, makes a graph of the blocks
-- in them and runs the blocks in the order of their dependencies.
--
-- The parts, and the files that model them:
--
-- - Recorder: pkg/recorder and pkg/recorder/diag, the list of diagnostics that the stages share and
--   that decides whether a run goes on.
-- - Package: apis/pkg/v1alpha1 and pkg/syntax/types. BlockTypes are the kinds of block, Nodes what
--   is read of a document, Blocks a block and its attributes (block.go), Validator the checks of
--   block_validator.go. Intake and Update are the `UpdatePackage` of each kind (bt_*.go) and their
--   choice (block_types.go); Locals, Growth and Handlers hold their properties, of one
--   document after the other. Listing and
--   Resolved are the listing of blocks and the checks of their dependencies (package.go). Graph is
--   `GenerateDAG`, with Connected and Reached for its edges and for the reach of the root.
-- - Dag: pkg/dag. Edges is dag.go, the two maps of edges and the methods that change them, with Laws
--   for their effect. Reduction is tr.go: Walk has the definitions, Steps and Rules the induction on
--   a walk, and Invariant, Depth, Termination, Cycle and Coverage the properties.
-- - Executor: pkg/exec/executor. Channels is the set-up of one channel for each dependency
--   (`init`), with Matrix for its effect. System is the run: the goroutines of dag_executor.go and
--   exec_context.go are tasks, and a schedule is a list of choices of the task that goes on. Rules,
--   Knowledge, Invariant and Order hold the properties of every schedule.
-- - Data: pkg/data, the results of the blocks (VarData, BlockStore), and block_exec_handler.go of
--   pkg/exec/fn/fns, the instances of a block (Items), with Counts for their number and Gather for
--   the results that they store.
-- - Functions: pkg/exec/fn/fns, what one instance of a block does. World has the configuration, the
--   clients of the providers and the encodings as parameters; Resource and Loop are
--   run_resource.go, Values is run_input.go, run_local_output.go and run_provider.go, Packages is
--   run_package.go and the choice of a function (init_fns_map.go). Cluster is what the code relies
--   on of a provider, Rule the induction on the loop of a resource, and DryRun, Destroy, Documents
--   and Defaults hold the properties.
-- - Runner: pkg/exec/kform/runner. Stages is a call that may fail and end the function, Run is
--   `Run` of runner.go, Plan its calls as a list, and Kform is `ParseAndRun` of kform.go.
-- - Diff: pkg/exec/diff. Masker is masker.go, Differ the comparison of differ.go and
--   diff_context.go, Pruned what it leaves to be destroyed.
-- - Renderer: pkg/render2. Walk is render2.go, Dependencies is deprenderer/renderer.go with
--   `AddDependencies` of package.go, Found what they find.
-- - Parser: pkg/syntax/parser. Tasks is the goroutines of pkgparser/validator.go, one for each
--   document, Placed, Steps and Settled what every schedule of them leaves, Ending that they can
--   end; Documents is the rest of pkgparser, Checks is validator.go and provider.go, Parse is
--   parser.go and dag.go; Clean and Sound hold what a parse without an error promises.
-- - Ignore: pkg/pkgio/ignore. Rules is parser.go and pattern.go, Ignored what `Ignore` answers,
--   Reading how a rule is taken apart, and Parsed what `Parse` reads.
-- - Shared: the Go types and functions that the parts use: sets, maps, text, errors, and in Stores
--   the interface of github.com/henderiw/store.
--
-- A package takes documents, each in a goroutine of its own, and keeps blocks; `GenerateDAG` makes a
-- vertex of each block, connects the dependencies and reduces the graph; the executor walks the
-- graph from the root, and each block runs its instances, which store their results for the blocks
-- that depend on them.
--
-- How the code is read:
--
-- - A Go map is an association list, and `range` visits it in an order that is a parameter where it
--   matters: an `Order` gives the order of each range of the reduction, `IsOrder` says that it
--   visits the members and nothing else.
-- - The recursion of the reduction has fuel, its greatest depth, and the result is none when that
--   runs out; the results on its termination say when it is enough.
-- - A call that panics is a result of its own (`panicked`); an error is a value.
-- - The numbers are those of Go's int without a bound; none of the code here computes near it.
-- - Documents (kyaml), stores, the renderer of expressions, the clients of providers,
--   `strconv.Atoi` and `filepath.Match` are parameters, with the laws that the code relies on as
--   fields of Nodes, Storer and the like; Shared.Stores has an association list as one such store.
-- - Formatted messages are the data that they are made of. Times, logs and locks are left out; the
--   steps of the executor are the parts of the code between two operations on channels or locks.
--
-- Not modelled: the rest of the renderer of expressions, which calls the CEL library, and the
-- addresses of packages; and the input and output of packages, registries, the inventory and the
-- commands, which call files, networks and the Kubernetes API.
mod Shared
pub mod Recorder
pub mod Package
pub mod Data
pub mod Dag
pub mod Executor
pub mod Functions
pub mod Runner
pub mod Diff
pub mod Renderer
pub mod Parser
pub mod Ignore
