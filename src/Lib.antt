-- ===== src/Lib.antt =====
-- Universal Cross-Shell Execution Runtime: a model of its core in Python and what holds of it.
--
-- A command is run as a record (UCER): a list of steps, each a command for one shell. The facade
-- (core/executor.py) sends the record through a chain of four stages. The crypto stage checks the
-- signature of a signed record, or signs it. The policy stage audits each step and compares the
-- capabilities that it calls for with those of the execution context. The persistence stage saves
-- the record before and after. The engine runs the steps, each through the unified executor, which
-- audits it again, and the sentinel looks at each trace. Above it, an orchestrator dispatches the
-- nodes of a workflow graph in the order of their dependencies, and an engine of roles decides who
-- may do what.
--
-- Files, and the code that they model:
--   Prelude        numbers, lists, texts (lists of code points), sets of enum members, dicts with
--                  string keys in insertion order, JSON values and results.
--   Types          core/types.py: Capability, ExecutionContext.
--   Ucer           core/ucer.py: the record, its canonical form, sign_intent, verify_integrity.
--   Auditor        security/auditor.py (BashASTAuditor.audit and its visitor, and the textual
--                  PowerShellAuditor) and security/ps_daemon.py
--                  (PersistentPowerShellAuditor and the script of its daemon).
--   Policy         security/contract.py (FormalContract.requires) and security/policy.py
--                  (PolicyGate.evaluate), with the record that it updates.
--   Sentinel       security/sentinel.py (inspect_trace), security/network.py (get_audit_log).
--   Isolation      core/distributed.py (negotiate_isolation, allocate_node).
--   Output         core/executor.py (normalize_output).
--   Pipeline       core/pipeline.py, core/middlewares.py, core/unified_executor.py and
--                  execute_ucer, replay and execute of core/executor.py. An action takes
--                  the record and the log of events (newest first) to a result and a new
--                  record and log; an exception is a result.
--   Dag            core/dag.py: the graph and its operations.
--   Orchestrator   core/orchestrator.py: DAGOrchestrator.execute_graph and _on_job_event.
--   Rbac           core/rbac_system.py: roles, accounts, the engine and the decorator.
--   Legacy         core/dsl.py and the helpers of security/policy.py: PolicySentinel.audit_ucer,
--                  PolicyEngine.map_capabilities_from_dsl, map_capabilities and is_allowed.
--   Secrets        core/secrets_management.py: the backends, their contract and the manager.
--   Database       core/db.py: the contract of a storage, SQLiteDatabase as tables of rows and
--                  NATSDatabase as two buckets.
--   Migration      core/db_migration.py: DatabaseMigrator with its schemas and its plan.
--   Semantic       semantic/capabilities.py, llm_client.py, compiler.py and planner.py: from an intent
--                  to a record that passed the gate, and from a goal to a workflow graph;
--                  semantic/parser.py and resolver.py: pipelines of raw commands.
--   Engine         engine/state_manager.py and engine/manager.py: snapshots by hard links, on a disk
--                  of paths, inodes and contents, and the manager that rolls back;
--                  security/mutation_controller.py: MutationController.
--   Sandbox        core/sandbox.py: SandboxExecutor, its handles and the protocol of a command.
--   Bridge         core/ir.py: SemanticBridge, the paths that it accepts and the commands that it gives
--                  to the facade's execute.
--   Server         api/rest_server.py: the workflows, the policy simulations, the audit log filter, the
--                  receipts and the background tasks, which call the executor of Pipeline.
--   Agent          api/mcp_server.py and cli/sder_cli.py: the tools of an agent and the commands,
--                  which compile an intent and run it.
--   MicroVm        core/microvm.py: the configuration and MicroVMExecutor.
--   Jobs           core/scheduler.py and core/databus.py: the payload of a job, and the loops that
--                  answer messages.
--   SecureExecutor core/secure_executor_1.py: the validation of a command, with the regular
--                  expressions of Prelude/Regex, and the executor.
--   Examples       runs on small inputs.
--
-- What is outside the repository is a parameter: bashlex and the PowerShell daemon (Tools), JSON
-- encoding, SHA-256 and RSA (Crypto), and, for a run, the adapters, the database, the clock and the
-- identifiers (World), each a function of the log so far, so that an answer may change with time.
-- The orchestrator's compiler, queue and store are Services. Each may fail. The clients of
-- the secret stores, the cipher and the disk, and the machine of the secure executor (with the
-- splitting of a command line by shlex) are parameters too. So are the texts of JSON (Codec), the
-- order that SQLite gives to rows with the same timestamp, the client of NATS (Bucket) and the two
-- servers of a migration (Servers), which may refuse any call, the machine of the manager and what
-- Docker answers to the sandbox, the parser of PowerShell (Shell) and the stream of jobs (JetStream,
-- Subscriber).
--
-- Bounds and fuel: the loop of execute_graph runs on fuel, one unit for each pass; a theorem states
-- how much is enough, and `out_of_fuel` is no exception of the code. The other loops are structural,
-- and the removal of escape sequences is on fuel as long as the text. Times, durations and loads are
-- natural numbers, in ticks and tenths; texts are ASCII.
--
-- Not modelled: the routes of the web server, the parsing of arguments, the adapters' subprocesses, the
-- opening of database files, tracing and logging, and the texts of messages; an error is a value that carries
-- what its message names. A node of a graph is reached by its identifier, under which add_node puts
-- it. The scheduler has no data bus, as JobScheduler has none: the wait for an event then ends in a
-- time-out. security/ps_daemon.py lacks the import of a name that an annotation uses, without which
-- the modules that import it do not load on Python 3.11; the model takes it as there.
pub mod Prelude
pub mod Types
pub mod Ucer
pub mod Auditor
pub mod Policy
pub mod Sentinel
pub mod Isolation
pub mod Output
pub mod Pipeline
pub mod Dag
pub mod Rbac
pub mod Orchestrator
pub mod Legacy
pub mod Secrets
pub mod SecureExecutor
pub mod Database
pub mod Migration
pub mod Server
pub mod Semantic
pub mod Engine
pub mod Sandbox
pub mod Bridge
pub mod MicroVm
pub mod Jobs
pub mod Agent
pub mod Examples
