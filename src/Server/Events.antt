-- ===== src/Server/Events.antt =====
-- api/rest_server.py: the queue of events of the dashboard, and actions that may raise.
use universal_cross_shell_ex.Prelude.{String, List, ◌∷◌, ◌++◌, if◌then◌else◌}
use universal_cross_shell_ex.Prelude.Text.{Text}
use universal_cross_shell_ex.Prelude.Result.{Result, ok, err}
use universal_cross_shell_ex.Ucer.{Ucer}
use universal_cross_shell_ex.Pipeline.{Error, db_error, saved, Log, World}

-- What the dashboard is sent.
pub data Message : Type 0 where
  log_line : (message : Text) → (level : String) → Message
  audit_blocked : (reason : Text) → Ucer → Message
  audit_complete : Ucer → Message
  red_team_event : (stage message host severity : String) → Message
  red_team_tamper : (message : String) → Ucer → Message

-- The queue of events (newest first), beside what the executor logs.
pub record Cockpit : Type 0 where
  pub log : Log
  pub queue : List Message

-- The random parts of the signatures, and the identifiers of the steps.
pub record Tokens : Type 0 where
  pub first_step : String
  pub second_step : String
  pub control : String
  pub execution : String
  pub pub_key : String

abbrev pub Act : Type 0
Act = Cockpit → Result Error (Unit {0}) × Cockpit

abbrev pub continue : Result Error (Unit {0}) → Act → Act
continue (ok _) k c = k c
continue (err e) k c = (err e, c)

infixl 5 ◌>>◌
abbrev pub ◌>>◌ : Act → Act → Act
◌>>◌ m k c = let (x, c') = m c in continue x k c'

-- `event_queue.put`
abbrev pub put : Message → Act
put m c = (ok tt, record c { queue = m ∷ c.queue })

abbrev pub log_to_dashboard : Text → String → Act
log_to_dashboard message level = put (log_line message level)

-- The executor's world.
module _ (w : World) where
  -- `executor.db.save_ucer`
  unfoldable pub save : Ucer → Act
  save u c =
      if w.storable c.log u then (ok tt, record c { log = saved u ∷ c.log }) else (err db_error, c)

-- The handler around a task.
abbrev pub guarded : (Error → Text) → Text → Result Error (Unit {0}) × Cockpit → Cockpit
guarded str prefix (ok _, c) = c
guarded str prefix (err e, c) = record c { queue = log_line (prefix ++ str e) "alert" ∷ c.queue }
