-- ===== src/Lib.antt =====
-- Verification of the core of opencode-alg: the runs that the plugin plans, executes, stores and
-- closes, and the leases that keep two executions of one run apart.
--
-- Parts of the program, and the files that model them (paths from the repository's root):
--   src/types.ts             Run: records and enumerations of the durable run, Run/Status, Run/Values
--   src/graph.ts             Graph: readyNodes, skipFailedDescendants, descendantsOf and their loops;
--                            proofs in Graph/Order, Graph/Skip, Graph/Descendants.
--                            Inputs: resolveInputValue, wireInputs
--   src/schemas.ts           GraphSchema/Inputs and GraphSchema/Refine: parseInputExpression and
--                            GraphDefSchema; proofs in GraphSchema/Sound and GraphSchema/References.
--                            RunSchema/State and RunSchema/Rules: the rules of RunStateCoreSchema;
--                            proofs in RunSchema/Counts, Verdict and Closing
--   src/executor.ts          Executor: Reserve (reserveAttempt), Gate (dryOutput,
--                            effectiveShellGate), Reply and Checks and Record (runOneNode), Feedback
--                            (applyCheckerFeedback), Limits (finishGlobalLimit), Resume
--                            (prepareRunForResume, closeRun), Loop (preflightExecutableNodes,
--                            executeRun); proofs in Executor/Budget, Verdict,
--                            Reopening and Reopened
--   src/diagnostics.ts       Diagnostics: boundDiagnosticList; proofs in Diagnostics/Bounds
--   src/paths.ts             Paths/SafeId: isSafeId
--   src/filesystem-mutex.ts  FilesystemMutex: Files (records, readVerified, dispositions), Acquire
--                            (acquireTakeoverClaim, acquireFilesystemMutex), Holder (assertHeld, renew,
--                            the removal of a release), Waiting (waitForLock,
--                            acquireFilesystemMutexAsync); proofs in Closed, Held, Renewed
--                            and Patience
--   src/ownership.ts         Ownership: resolveOwnedRun, mutateOwnedRun, transferRunOwnership;
--                            proofs in Ownership/Transfer
--   src/context-budget.ts    Context: Plan (planContext), Usage (estimateUsedTokens), Windows
--                            (SessionWindows); proofs in Bounds, Spending and Windows/Kept
--   src/limits.ts            Limits: truncateUtf8; proofs in Limits/Longest
--   src/environment-memory/replication.ts
--                            Replication: Data (records, the object store), Chain
--                            (verifyEventChainAsync), Parsing (parseManifest), Remote (readManifest,
--                            putImmutable, publishManifest, validateManifestContents), Attempt
--                            (replicateEnvironmentMemory, restoreEnvironmentMemory); proofs in
--                            Backed, Sound, Published, Appended, Replicated, Formed, Recovered,
--                            Recoverable, Sole and RoundTrip
--   src/owner-index.ts       OwnerIndex: parseOwnerRunIndex, sortOwnerRunEntries; of src/store.ts,
--                            readOwnerRunIndex and updateOwnerRunIndex without the lease and the memo;
--                            proofs in Kept, Parsed and Reread
--   src/turn-boundary.ts     Turns: completedTurn; proofs in Turns/Whole
--   src/models.ts            Models: parseConfiguredModel, configuredModelResolutions,
--                            modelSnapshotFromResolution, snapshotModelResolutions,
--                            modelResolutionsForRun; Models/Settings: loadModelSettings,
--                            saveModelSettings, setAgentModel, setAgentModelVariant; proofs in
--                            Models/Effective and Models/Settings/Saved
-- Base holds the shared helpers; Examples holds concrete runs, witnesses and tests.
--
-- How the parts interact: a graph that GraphSchema accepts gives a run; the executor reserves
-- attempts for ready nodes in bounded batches, records their outcomes, skips what cannot run and
-- routes checker feedback; every write of the run passes the rules of RunSchema; Ownership guards
-- changes from outside an execution, and FilesystemMutex guards the execution itself.
--
-- State: a function of the source that mutates the run is a function from the run, or from its
-- node states, to the new ones. The outside world is a record of replies (Executor/Services):
-- children, commands, exceptions, failing saves, the abort signal, and the order in which the
-- members of a batch end. The store of a run (Ownership) is a record of operations on a state of
-- the project. The mutex is a function of two files that other processes may change between any
-- two accesses, and the object store of a replication changes in the same way; waiting callers run
-- any operation over a clock.
--
-- Bounds and fuel: the loop around skipFailedDescendants has as many rounds as nodes and two more:
-- each call but the last marks a node. The batches of a wave have as many rounds as ready
-- nodes and one more, each of which takes at least one node. The wave loop counts the source's own
-- bound. The claim loop of the mutex runs on fuel and reports `spinning` where other processes
-- leave stale claims without end. A wait has a round for each 5 ms and one more. The search for the
-- longest prefix has as many rounds as the text has units, since each shrinks its range. Fractions
-- of the context options are thousandths. Numbers are naturals, so that the tests
-- Number.isSafeInteger of replicated manifests are left out.
--
-- Not modelled: times of attempts, and of transfers with the rule on their order; prompts, log
-- lines and summaries, which no decision reads; the saves between steps, which write the state as
-- it is, or whose error ends the execution (`rejected`); sidecars of projected runs (the state is
-- the hydrated one); the redaction of diagnostics, the containment of paths, the schemas of role
-- outputs and the host's client, which are parameters; the heartbeat of the mutex; the database
-- behind the environment memory and the files of its object store; the rest of the store of runs,
-- shell, editing of configuration, session memory, skill evolution and terminal parts of the
-- repository.
pub mod Base
pub mod Run
pub mod Paths
pub mod Diagnostics
pub mod Graph
pub mod GraphSchema
pub mod Inputs
pub mod RunSchema
pub mod Executor
pub mod Ownership
pub mod OwnerIndex
pub mod Limits
pub mod Context
pub mod Replication
pub mod Turns
pub mod Models
pub mod FilesystemMutex
pub mod Examples
