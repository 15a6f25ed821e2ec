-- ===== src/Orchestrator.antt =====
-- core/orchestrator.py: `DAGOrchestrator` with a scheduler that has no data bus, as `JobScheduler`.
pub mod Touch
pub mod Order
pub mod Run
pub mod Halt
pub mod Answer
pub mod Events
pub mod Answering
pub mod Live
pub mod Completion
use universal_cross_shell_ex.Prelude.{
  ℕ, zero, suc, String, Bool, true, false, not, ◌&&◌, List, [], ◌∷◌, Option, none, some,
  if◌then◌else◌,
}
use universal_cross_shell_ex.Prelude.Dict.{Dict, update, same, values}
use universal_cross_shell_ex.Prelude.Result.{Result, ok, err}
use universal_cross_shell_ex.Types.{ExecutionContext}
use universal_cross_shell_ex.Ucer.{Ucer}
use universal_cross_shell_ex.Dag.{
  running, DagNode, UcerGraph, set_status, mark_completed, mark_failed, get_ready_nodes,
  is_complete, has_failed,
}

-- `timed_out` is the `TimeoutError` of the wait for an event, and `out_of_fuel` is of the model.
pub data Failure : Type 0 where
  compile_error submit_error kv_error timed_out out_of_fuel : Failure

-- A record was submitted to the scheduler; a graph was written to the key-value store.
pub data Event : Type 0 where
  submitted : Ucer → Event
  synced : UcerGraph → Event

-- The compiler (`none`: it raises), the scheduler's `submit_job` and the store's `set_kv` (`false`: it
-- raises), and whether there is a store with `set_kv`.
pub record Services : Type 0 where
  pub compile : List Event → String → ExecutionContext → Option Ucer
  pub submit_job : List Event → Ucer → ExecutionContext → Bool
  pub has_kv : Bool
  pub set_kv : List Event → UcerGraph → Bool

pub record Progress : Type 0 where
  pub graph : UcerGraph
  pub log : List Event

abbrev pub Step : Type 0 → Type 0
Step A = Progress → Result Failure A × Progress

module _ {A B : Type 0} where
  abbrev pub proceed : Result Failure A → (A → Step B) → Step B
  proceed (ok a) f p = f a p
  proceed (err e) f p = (err e, p)

  infixl 5 ◌>>=◌ ◌>>◌
  abbrev pub ◌>>=◌ : Step A → (A → Step B) → Step B
  ◌>>=◌ m f p = let (x, q) = m p in proceed x f q

  abbrev pub ◌>>◌ : Step A → Step B → Step B
  m >> k = m >>= λ _. k

abbrev pub finish : {A : Type 0} → A → Step A
finish a p = (ok a, p)

abbrev pub change : (UcerGraph → UcerGraph) → Step (Unit {0})
change f p = (ok tt, record p { graph = f p.graph })

abbrev pub write : Event → Progress → Progress
write e p = record p { log = e ∷ p.log }

-- `node.status = "running"` and `node.ucer_id = …` on the node object of the graph.
abbrev pub set_node : String → (DagNode → DagNode) → UcerGraph → UcerGraph
set_node node_id f g = record g { nodes = update node_id f g.nodes }

-- `==` on optional strings.
abbrev pub same_id : Option String → Option String → Bool
same_id none none = true
same_id (some a) (some b) = same a b
same_id _ _ = false

abbrev pub assign : String → DagNode → DagNode
assign ucer_id n = record n { ucer_id = some ucer_id }

-- The condition of the loop.
unfoldable pub goes_on : UcerGraph → Bool
unfolding is_complete has_failed
goes_on g = not (is_complete g) && not (has_failed g)

-- The first node with the identifier of an event. An event without one has `none`,
-- which is the identifier of a node that was not compiled yet.
unfoldable pub find_ucer : Option String → List DagNode → Option DagNode
find_ucer ucer_id [] = none
find_ucer ucer_id (n ∷ ns) = if same_id n.ucer_id ucer_id then some n else find_ucer ucer_id ns

abbrev pub mark : Option String → Bool → DagNode → UcerGraph → UcerGraph
mark ucer_id true n g = mark_completed n.node_id ucer_id g
mark ucer_id false n g = mark_failed n.node_id g

module _ (w : Services) where
  abbrev pub answered : Option Ucer → Result Failure Ucer
  answered none = err compile_error
  answered (some u) = ok u

  abbrev pub compile_node : DagNode → ExecutionContext → Step Ucer
  compile_node n ctx p = (answered (w.compile p.log n.intent ctx), p)

  -- `DistributedOrchestrator.dispatch_ucer`
  unfoldable pub dispatch_ucer : Ucer → ExecutionContext → Step (Unit {0})
  dispatch_ucer u ctx p =
      if w.submit_job p.log u ctx then (ok tt, write (submitted u) p) else (err submit_error, p)

  unfoldable pub sync_graph_state : Step (Unit {0})
  sync_graph_state p =
      if w.has_kv
      then (if w.set_kv p.log p.graph then (ok tt, write (synced p.graph) p) else (err kv_error, p))
      else (ok tt, p)

  -- What follows the compilation, inside the `try`.
  unfoldable pub submit_node : DagNode → ExecutionContext → Ucer → Step (Unit {0})
  unfolding dispatch_ucer sync_graph_state mark_completed
  submit_node n ctx u = do
    change (set_node n.node_id (assign u.command_id))
    dispatch_ucer u ctx
    sync_graph_state
    change (mark_completed n.node_id (some u.command_id))
    sync_graph_state

  unfoldable pub attempt_node : DagNode → ExecutionContext → Step (Unit {0})
  unfolding submit_node
  attempt_node n ctx = compile_node n ctx >>= submit_node n ctx

  -- The `except`: an exception of this synchronisation leaves the method.
  unfoldable pub fail_node : DagNode → Step (Unit {0})
  unfolding sync_graph_state mark_failed
  fail_node n = do change (mark_failed n.node_id); sync_graph_state

  -- `true` goes on with the next ready node, `false` is the `break`.
  unfoldable pub settle : DagNode → Result Failure (Unit {0}) → Step Bool
  unfolding fail_node
  settle n (ok _) = finish true
  settle n (err e) = do fail_node n; finish false

  unfoldable pub run_node : DagNode → ExecutionContext → Step Bool
  unfolding attempt_node settle
  run_node n ctx p =
      let q = record p { graph = set_node n.node_id (set_status running) p.graph } in
      let (x, r) = attempt_node n ctx q in settle n x r

  unfoldable pub run_nodes : List DagNode → ExecutionContext → Step (Unit {0})
  unfolding run_node
  run_nodes [] ctx = finish tt
  run_nodes (n ∷ ns) ctx = do more ← run_node n ctx; if more then run_nodes ns ctx else finish tt

  -- One pass of the loop: without a data bus nobody notifies the wait, which times out.
  unfoldable pub advance : List DagNode → ExecutionContext → Step (Unit {0})
  unfolding run_nodes
  advance [] ctx p = (err timed_out, p)
  advance (n ∷ ns) ctx p = run_nodes (n ∷ ns) ctx p

  unfoldable pub pass_ready : ExecutionContext → Step (Unit {0})
  unfolding advance get_ready_nodes
  pass_ready ctx p = advance (get_ready_nodes p.graph) ctx p

  unfoldable pub loop : ℕ → ExecutionContext → Step Bool
  unfolding pass_ready goes_on has_failed
  loop zero ctx p =
      if goes_on p.graph then (err out_of_fuel, p) else (ok (not (has_failed p.graph)), p)
  loop (suc fuel) ctx p =
      let (x, q) = pass_ready ctx p in
      let rest = proceed x (λ _. loop fuel ctx) q in
      if goes_on p.graph then rest else (ok (not (has_failed p.graph)), p)

  -- `DAGOrchestrator.execute_graph`
  unfoldable pub execute_graph : ℕ → ExecutionContext → Step Bool
  unfolding loop sync_graph_state
  execute_graph fuel ctx = do sync_graph_state; loop fuel ctx

  abbrev pub on_found : Option String → Bool → Option DagNode → Step (Unit {0})
  on_found ucer_id success none = finish tt
  on_found ucer_id success (some n) = do change (mark ucer_id success n); sync_graph_state

  -- `_on_job_event`
  unfoldable pub on_job_event : Option String → Bool → Step (Unit {0})
  unfolding find_ucer mark_completed mark_failed sync_graph_state
  on_job_event ucer_id success p =
      on_found ucer_id success (find_ucer ucer_id (values p.graph.nodes)) p
