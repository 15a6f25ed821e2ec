-- ===== src/Migration/Schemas.antt =====
-- core/db_migration.py: the tables that a migration creates and the columns that it copies.
use universal_cross_shell_ex.Prelude.{String, List, [], ◌∷◌, ◌++◌}
use universal_cross_shell_ex.Prelude.Text.{Text, codes}

-- The lines of a text in triple quotes, between the line break after the opening quotes and the
-- eight spaces before the closing ones.
abbrev lines : List String → Text
lines [] = codes "        "
lines (l ∷ ls) = codes l ++ 10 ∷ lines ls

abbrev execution_audit_ddl : Text
execution_audit_ddl =
    10
    ∷ lines (
        "            CREATE TABLE IF NOT EXISTS execution_audit ("
        ∷ "                id SERIAL PRIMARY KEY,"
        ∷ "                audit_id UUID NOT NULL UNIQUE,"
        ∷ "                timestamp TIMESTAMP NOT NULL,"
        ∷ "                command_hash VARCHAR(256) NOT NULL,"
        ∷ "                policy_tags TEXT[] DEFAULT '{}',"
        ∷ "                severity VARCHAR(50) NOT NULL," ∷ "                exit_code INTEGER,"
        ∷ "                stdout_hash VARCHAR(256)," ∷ "                stderr_hash VARCHAR(256),"
        ∷ "                duration_seconds FLOAT," ∷ "                executor_user VARCHAR(255),"
        ∷ "                executor_hostname VARCHAR(255),"
        ∷ "                digital_signature VARCHAR(512),"
        ∷ "                merkle_root VARCHAR(512),"
        ∷ "                created_at TIMESTAMP DEFAULT CURRENT_TIMESTAMP,"
        ∷ "                INDEX idx_audit_id (audit_id),"
        ∷ "                INDEX idx_timestamp (timestamp),"
        ∷ "                INDEX idx_executor_user (executor_user)" ∷ "            );" ∷ [])

abbrev users_ddl : Text
users_ddl =
    10
    ∷ lines (
        "            CREATE TABLE IF NOT EXISTS users (" ∷ "                id SERIAL PRIMARY KEY,"
        ∷ "                user_id VARCHAR(255) NOT NULL UNIQUE,"
        ∷ "                username VARCHAR(255) NOT NULL,"
        ∷ "                email VARCHAR(255) NOT NULL,"
        ∷ "                roles TEXT[] DEFAULT '{}',"
        ∷ "                is_active BOOLEAN DEFAULT TRUE,"
        ∷ "                created_at TIMESTAMP DEFAULT CURRENT_TIMESTAMP,"
        ∷ "                last_login TIMESTAMP,"
        ∷ "                mfa_enabled BOOLEAN DEFAULT FALSE,"
        ∷ "                INDEX idx_user_id (user_id),"
        ∷ "                INDEX idx_username (username)" ∷ "            );" ∷ [])

abbrev service_accounts_ddl : Text
service_accounts_ddl =
    10
    ∷ lines (
        "            CREATE TABLE IF NOT EXISTS service_accounts ("
        ∷ "                id SERIAL PRIMARY KEY,"
        ∷ "                account_id VARCHAR(255) NOT NULL UNIQUE,"
        ∷ "                name VARCHAR(255) NOT NULL,"
        ∷ "                roles TEXT[] DEFAULT '{}',"
        ∷ "                api_key_hash VARCHAR(512),"
        ∷ "                is_active BOOLEAN DEFAULT TRUE,"
        ∷ "                created_at TIMESTAMP DEFAULT CURRENT_TIMESTAMP,"
        ∷ "                last_used TIMESTAMP,"
        ∷ "                allowed_origins TEXT[] DEFAULT '{}',"
        ∷ "                rate_limit INTEGER DEFAULT 1000,"
        ∷ "                INDEX idx_account_id (account_id)" ∷ "            );" ∷ [])

abbrev workflows_ddl : Text
workflows_ddl =
    10
    ∷ lines (
        "            CREATE TABLE IF NOT EXISTS workflows ("
        ∷ "                id SERIAL PRIMARY KEY,"
        ∷ "                workflow_id UUID NOT NULL UNIQUE,"
        ∷ "                name VARCHAR(255) NOT NULL," ∷ "                description TEXT,"
        ∷ "                dag_json JSONB," ∷ "                policy_tags TEXT[] DEFAULT '{}',"
        ∷ "                created_by VARCHAR(255),"
        ∷ "                created_at TIMESTAMP DEFAULT CURRENT_TIMESTAMP,"
        ∷ "                updated_at TIMESTAMP,"
        ∷ "                is_active BOOLEAN DEFAULT TRUE,"
        ∷ "                INDEX idx_workflow_id (workflow_id),"
        ∷ "                INDEX idx_name (name),"
        ∷ "                INDEX idx_created_by (created_by)" ∷ "            );" ∷ [])

abbrev policy_rules_ddl : Text
policy_rules_ddl =
    10
    ∷ lines (
        "            CREATE TABLE IF NOT EXISTS policy_rules ("
        ∷ "                id SERIAL PRIMARY KEY,"
        ∷ "                policy_id UUID NOT NULL UNIQUE,"
        ∷ "                name VARCHAR(255) NOT NULL," ∷ "                description TEXT,"
        ∷ "                rego_rule TEXT," ∷ "                severity VARCHAR(50),"
        ∷ "                enabled BOOLEAN DEFAULT TRUE,"
        ∷ "                created_at TIMESTAMP DEFAULT CURRENT_TIMESTAMP,"
        ∷ "                INDEX idx_policy_id (policy_id),"
        ∷ "                INDEX idx_severity (severity)" ∷ "            );" ∷ [])

abbrev pub schemas : List (String × Text)
schemas =
    ("execution_audit", execution_audit_ddl)
    ∷ ("users", users_ddl)
    ∷ ("service_accounts", service_accounts_ddl)
    ∷ ("workflows", workflows_ddl)
    ∷ ("policy_rules", policy_rules_ddl)
    ∷ []

-- `migration_plan`
abbrev pub migration_plan : List (String × List String)
migration_plan =
    (
      "execution_audit",
      "audit_id" ∷ "timestamp" ∷ "command_hash" ∷ "policy_tags" ∷ "severity" ∷ "exit_code"
          ∷ "stdout_hash" ∷ "stderr_hash" ∷ "duration_seconds" ∷ "executor_user"
          ∷ "executor_hostname" ∷ "digital_signature" ∷ "merkle_root" ∷ [],
    )
    ∷ (
      "users",
      "user_id" ∷ "username" ∷ "email" ∷ "roles" ∷ "is_active" ∷ "created_at" ∷ "last_login"
          ∷ "mfa_enabled" ∷ [],
    )
    ∷ (
      "service_accounts",
      "account_id" ∷ "name" ∷ "roles" ∷ "api_key_hash" ∷ "is_active" ∷ "created_at" ∷ "last_used"
          ∷ "allowed_origins" ∷ "rate_limit" ∷ [],
    )
    ∷ (
      "workflows",
      "workflow_id" ∷ "name" ∷ "description" ∷ "dag_json" ∷ "policy_tags" ∷ "created_by"
          ∷ "created_at" ∷ "updated_at" ∷ "is_active" ∷ [],
    )
    ∷ (
      "policy_rules",
      "policy_id" ∷ "name" ∷ "description" ∷ "rego_rule" ∷ "severity" ∷ "enabled" ∷ "created_at"
          ∷ [],
    )
    ∷ []
