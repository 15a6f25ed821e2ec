-- ===== src/Server/Workflows.antt =====
-- api/rest_server.py: the workflows that the server keeps in memory.
use universal_cross_shell_ex.Prelude.{
  String, ◌≡◌, false, List, [], ◌∷◌, Option, none, some, if◌then◌else◌,
}
use Prim.Native.String.{◌++◌ as concat}
use universal_cross_shell_ex.Prelude.Json.{Fields}
use universal_cross_shell_ex.Prelude.Dict.{same}

-- The body of the request, where the identifier is optional.
pub record WorkflowModel : Type 0 where
  pub id : Option String
  pub name : String
  pub description : String
  pub nodes : List Fields
  pub edges : List Fields

-- A stored dict.
pub record Workflow : Type 0 where
  pub id : String
  pub name : String
  pub description : String
  pub nodes : List Fields
  pub edges : List Fields

-- `if not wf.id: wf.id = f"wf-{…}"`
abbrev pub id_or : String → Option String → String
id_or hex none = concat "wf-" hex
id_or hex (some id) = if same id "" then concat "wf-" hex else id

abbrev pub dumped : String → WorkflowModel → Workflow
dumped hex wf = record {
  id = id_or hex wf.id;
  name = wf.name;
  description = wf.description;
  nodes = wf.nodes;
  edges = wf.edges;
}

-- The loop over `workflows_db`, and what stands after it.
unfoldable pub store : Workflow → List Workflow → List Workflow
store wf [] = wf ∷ []
store wf (existing ∷ rest) = if same existing.id wf.id then wf ∷ rest else existing ∷ store wf rest

unfoldable pub save_workflow : String → WorkflowModel → List Workflow → Workflow × List Workflow
unfolding store
save_workflow hex wf db = let d = dumped hex wf in (d, store d db)

-- The workflow under an identifier.
unfoldable pub find : String → List Workflow → Option Workflow
find id [] = none
find id (wf ∷ rest) = if same wf.id id then some wf else find id rest

abbrev pub Fresh : String → List Workflow → Type 0
Fresh id [] = Unit
Fresh id (wf ∷ rest) = (same wf.id id ≡ false) × Fresh id rest

-- No two workflows have one identifier.
abbrev pub IsUnique : List Workflow → Type 0
IsUnique [] = Unit
IsUnique (wf ∷ rest) = Fresh wf.id rest × IsUnique rest
