-- ===== src/Lib.antt =====
-- De-code: the rules that stand between an agent and the effects of its actions.
--
-- The program is an agent for security work. Whatever it does to a host or a network passes through
-- the execution coordinator (src/decode/runtime/coordinator.py), which asks the governance gate
-- (src/decode/governance/gate.py) for a decision under the engagement's scope
-- (src/decode/governance/scope.py), collects a human approval that is bound to a digest of the
-- request, writes the decision to the audit trail, runs the operation, and keeps what came of it.
-- Commands and paths on the host are rated by src/decode/hostcontrol/policy.py; the steps of a plan
-- are ordered by src/decode/planner/dag.py, what a task has done is kept by
-- src/decode/schema/task_state.py, and what it may call is listed by src/decode/capabilities/.
--
-- Three parts stand above the coordinator. The tool-use loop (src/decode/runtime/agent_loop.py) asks
-- a model for one action after another, has each executed through a callback, and asks the verifier
-- (src/decode/verification/verifier.py) before it reports its task as done. Which model is asked is
-- chosen by src/decode/models/routing.py from src/decode/models/registry.py. Workflows
-- (src/decode/workflows/) declare stages; the Core planner of src/decode/workflows/registry.py
-- selects a reviewed workflow, hands over one stage at a time within a budget, and says when all is
-- done; a gate of src/decode/workflows/models.py checks what a stage returns.
--
-- Files:
-- - Prelude and its children: tests on numbers, lists, texts and dictionaries.
-- - Governance/Types, Scope, Gate: the risk levels, modes and audit trail, `ScopePolicy`, and
--   `GovernanceGate`. An evaluation is a pair of a decision, `none` where the gate raised, and the
--   trail behind it.
-- - HostControl/Words, Sudo, Outputs, Commands, Paths: the word lists, `strip_sudo`,
--   `command_output_bindings` and the rewriting of outputs, `CommandPolicy`, and `FilesystemScope`.
--   HostControl/Hooks is src/decode/hostcontrol/hooks.py.
-- - Runtime/Request: the request, its resolved action, and `resolved_action_error`.
-- - Runtime/Coordinator: `ExecutionCoordinator`. Effects holds its state, what surrounds it, and
--   steps that may end the call; Recorders, Guards and Launch hold its phases in the order of the
--   source; Quiet, Decided, Approved, Ready, Started, Launched, Finished and Course hold what is
--   true behind each phase, and Laws what a call promises.
-- - Planner/Graph, Planner/Order and Planner/Completion: `PlanGraph`, and the completion criteria of
--   nodes and objectives.
-- - Schema/TaskState and Schema/ActiveNode: `TaskState` with its recording methods, and the validator
--   of `ActiveNodeResult`, both in src/decode/schema/task_state.py.
-- - Capabilities/Registry and Capabilities/Resolver: src/decode/capabilities/registry.py and
--   resolver.py. Kernel/Safety: src/decode/kernel/safety.py.
-- - Runtime/AgentLoop: `ToolUseLoop.run`, one function for each part of a round; Params is the check
--   of parameters, Round what one round does to the state, and Laws what a run promises.
-- - Verification/Verifier: `Verifier` and `ModelVerifier`.
-- - Models/Registry, Models/Catalog, Models/Routing: `ModelRegistry` with its specifications, the loop
--   over OpenRouter's catalogue, and `ModelRouter`. Routing/Rank is the key of the ranking, Order
--   shows that it is an order, and Laws, Safety and Ends are about the choice, about what is never
--   chosen, and about fallbacks. Models/Numbers is what is done with scores and prices.
-- - Workflows/Budget, Gate, Specs, Selection, Decisions, Planner: the budget state, the gate of a
--   stage, specifications and their plans, `select`, the validators of decisions, and `decide`.
--   Workflows/Issued and Lineage, with the `==` of models in Equality: how the runner
--   (src/decode/workflows/runner.py) issues a decision, checks it, and lets it be reviewed or stop the
--   mission, and how it checks the missions that one replaces.
-- - Values: Python values. The modules named Tests, and
--   Runtime/Coordinator/Reads, hold examples.
--
-- State. A call of `execute` is a function on a record of the shared objects (request, gate and
-- registered check), the trail, the log, the feedback and evidence stores, and the launches made so
-- far. The approval callback, the preparation and the operation are functions on the shared objects,
-- so that they may change the request or the mode under the coordinator's hands. A line of the
-- trail is the event as `record` redacts it. Whether a write to the trail, the log, the feedback
-- store or the evidence store succeeds, and what the clock says, is
-- given by a function of the number of the call.
--
-- A run of the loop is a function of the number of rounds that are left on a record of the task
-- state, the steps, the replans, and, to speak of them, the calls and the checkpoints made so far.
-- What the model answers in a round, what an operation returns and what the verifier says are
-- functions of the number of the round. The router and the planner keep no state: they are functions
-- of the registry, the request, the mission's state and the specification.
--
-- Parameters: the parsers of ipaddress and urllib, path resolution by pathlib, the redaction and
-- display of texts and values, the digests and fingerprints of requests, states, workflows, nodes and
-- paths, and the reading of a price. No property of them is assumed. Scores and prices are any type
-- with the operations of a float; where the ranking matters they are assumed to be ordered, as floats
-- without `nan` are, and Models/Numbers shows whole numbers to be so. Texts
-- are compared as sequences of characters; `lower`, `upper` and `strip` are those of ASCII text.
--
-- Fuel. The search for a topological order takes fuel for the depth of its visits; a node on the
-- path is not entered again, so one more than the number of nodes is enough. A run of the loop is
-- recursion on its own budget of steps. The decimals of a size take fuel 19: sizes are below 2 ^ 63.
--
-- Not modelled: metadata and durations of results, the redaction of values under a secret name, the
-- validators of the request models, cancellation inside an approval callback, and the order in
-- which concurrent calls interleave. Interfaces, persistence, model services and process launching
-- are left out, and so are the other transitions of the workflow runner (approval, replanning and
-- advance) and the loading of its states, the executors of workflows, the prompts of the loop and
-- its events, the built-in list of models, and the patterns of identifiers. A result is given to
-- the criteria as the value that `model_dump` makes of it; whole numbers beyond the range of
-- floats, for which `math.isfinite` raises, count as finite.
pub mod Prelude
pub mod Governance
pub mod Values
pub mod HostControl
pub mod Runtime
pub mod Planner
pub mod Schema
pub mod Capabilities
pub mod Kernel
pub mod Models
pub mod Workflows
pub mod Verification
