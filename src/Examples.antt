-- ===== src/Examples.antt =====
-- Tests on small inputs, by the part of the program that they run.
mod Gate
mod Chain
mod Graphs
mod Access
mod Helpers
mod Commands
mod Vaults
mod Stores
mod Moves
mod Plans
mod Repeats
mod Disks
mod Boxes
mod Bridges
mod Panels
mod Queues
mod Agents
mod Pipes
use universal_cross_shell_ex.Prelude.{
  ℕ, String, Bool, true, false, List, [], ◌∷◌, Option, none, some,
}
use universal_cross_shell_ex.Prelude.Text.{Text, codes}
use universal_cross_shell_ex.Prelude.Dict.{same}
use universal_cross_shell_ex.Prelude.Json.{end}
use universal_cross_shell_ex.Prelude.Sets.{empty}
use universal_cross_shell_ex.Types.{ExecutionContext, caps_of, exec, fs_read}
use universal_cross_shell_ex.Ucer.{Adapter, bash, pending, Crypto, ExecutionStep, Ucer, exited}
use universal_cross_shell_ex.Auditor.{Node, command, word, node, nil, cons}
use universal_cross_shell_ex.Policy.{Tools}
use universal_cross_shell_ex.Pipeline.{World, Run}

abbrev pub context : ExecutionContext
context = record {
  execution_id = "e1";
  user_id = "u1";
  environment = [];
  working_dir = "/tmp";
  created_at = 0;
  capabilities = caps_of (exec ∷ fs_read ∷ []);
}

abbrev pub listing : List Node
listing = node command [] (cons (node word (codes "ls") nil) nil) ∷ []

abbrev pub removal : List Node
removal =
    node command [] (cons (node word (codes "rm") nil) (cons (node word (codes "a") nil) nil)) ∷ []

abbrev pub tools_of : List Node → Tools
tools_of tree = record { parse = λ c. some tree; daemon = λ c. none }

-- A hash that tells records apart by their identifiers, and a signature that is the payload.
abbrev pub crypto : Crypto
crypto = record {
  hash = λ c. c.command_id;
  sign = λ key payload. payload;
  verify = λ key payload signature. some (same payload signature);
}

abbrev pub list_step : ExecutionStep
list_step = record {
  step_id = "s1";
  adapter = bash;
  command = codes "ls";
  expected_state_changes = none;
}

abbrev pub ucer : Ucer
ucer = record {
  command_id = "c1";
  timestamp = 0;
  intent = "list";
  steps = list_step ∷ [];
  traces = [];
  required_capabilities = empty;
  state_hash = none;
  status = pending;
  canonical_hash = none;
  control_signature = none;
  execution_signature = none;
  execution_pub_key = none;
}

abbrev pub world : List Node → World
world tree = record {
  tools = λ log. tools_of tree;
  crypto = crypto;
  public_key = λ log. some "public";
  new_key = λ log. "new";
  clock = λ log. 0;
  fresh_id = λ log. "id";
  respond = λ log shell cmd ctx. some (record {
    stdout = some (codes "a.txt");
    stderr = some [];
    exit_code = some (exited 0);
    side_effects = some end;
  });
  storable = λ log u. true;
}

abbrev pub run : Run
run = record { ucer = ucer; log = [] }
