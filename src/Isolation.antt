-- ===== src/Isolation.antt =====
-- core/distributed.py: isolation levels and the choice of a node. Loads are in tenths.
pub mod Nodes
use universal_cross_shell_ex.Prelude.{
  ℕ, String, Bool, true, false, ◌&&◌, List, [], ◌∷◌, Option, none, some, keep, ltb, if◌then◌else◌,
}
use universal_cross_shell_ex.Types.{Caps, caps_of, intersects, delete_root, network}

pub data Level : Type 0 where
  docker microvm : Level

pub record WorkerNode : Type 0 where
  pub id : String
  pub type : Level
  pub is_online : Bool
  pub load : ℕ

-- The node list of `DistributedNodeManager.__init__`.
abbrev pub initial_nodes : List WorkerNode
initial_nodes =
    record { id = "worker-L1-01"; type = docker; is_online = true; load = 1 }
    ∷ record { id = "worker-L1-02"; type = docker; is_online = true; load = 5 }
    ∷ record { id = "worker-L2-01"; type = microvm; is_online = true; load = 0 }
    ∷ []

-- `negotiate_isolation`, on the record's required capabilities.
unfoldable pub negotiate_isolation : Caps → Level
unfolding intersects caps_of
negotiate_isolation required =
    if intersects required (caps_of (delete_root ∷ network ∷ [])) then microvm else docker

abbrev pub is_level : Level → Level → Bool
is_level docker docker = true
is_level microvm microvm = true
is_level _ _ = false

abbrev pub eligible : Level → WorkerNode → Bool
eligible level n = is_level n.type level && n.is_online

-- The head of the list after a stable sort by load: the first of the least loaded.
unfoldable pub least : WorkerNode → List WorkerNode → WorkerNode
least n [] = n
least n (m ∷ ms) = least (if ltb m.load n.load then m else n) ms

head_id : List WorkerNode → Option String
unfolding least
head_id [] = none
head_id (n ∷ ns) = some (least n ns).id

-- `allocate_node`; `none` is the `RuntimeError`.
unfoldable pub allocate_node : List WorkerNode → Level → Option String
unfolding head_id
allocate_node nodes level = head_id (keep (eligible level) nodes)
