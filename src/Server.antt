-- ===== src/Server.antt =====
-- api/rest_server.py: the tasks that run in the background and what they report, the stored
-- workflows, the policy simulations and the compliance receipts.
pub mod Events
pub mod Tasks
pub mod RedTeam
pub mod Reports
pub mod Workflows
pub mod Timeline
pub mod Rego
pub mod Receipts
