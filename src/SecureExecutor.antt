-- ===== src/SecureExecutor.antt =====
-- core/secure_executor_1.py: the validation of a command and the executor with its audit record.
-- `shlex.split`, path resolution, the hashes, the subprocess and the policy engine are parameters.
pub mod Run
pub mod Refusals
use universal_cross_shell_ex.Prelude.{
  ℕ, ◌+◌, String, Bool, true, false, not, ◌&&◌, ◌||◌, List, [], ◌∷◌, ◌++◌, Option, none, some, any,
  length, leb, ltb, ◌==◌, if◌then◌else◌,
}
use universal_cross_shell_ex.Prelude.Text.{Text, codes, lower, text_eq, contains}
use universal_cross_shell_ex.Prelude.Dict.{Dict, has, insert}
use universal_cross_shell_ex.Prelude.Regex.{Regex, blank, class, seq, alt, many, literal, search_in}
use universal_cross_shell_ex.Prelude.Result.{Result, ok, err}
use universal_cross_shell_ex.Ucer.{ExitCode, killed}

pub data CommandSeverity : Type 0 where
  safe warning dangerous forbidden : CommandSeverity

pub data Shell : Type 0 where
  bash powershell sh zsh : Shell

pub record SecureContext : Type 0 where
  pub command : Text
  pub shell : Shell
  pub timeout_seconds : ℕ
  pub working_dir : Option Text
  pub environment : Dict String
  pub policy_tags : List String
  pub audit_id : String

abbrev pub system_dirs : List Text
system_dirs = codes "/" ∷ codes "/etc" ∷ codes "/sys" ∷ codes "/proc" ∷ codes "/dev" ∷ []

-- `validate_working_dir`, where `none` is a resolution that raises.
abbrev pub is_allowed_dir : (Text → Option Text) → Option Text → Bool
is_allowed_dir resolve none = true
is_allowed_dir resolve (some []) = true
is_allowed_dir resolve (some (c ∷ cs)) = outside (resolve (c ∷ cs))
  where
    outside : Option Text → Bool
    outside none = false
    outside (some d) = not (any (text_eq d) system_dirs)

abbrev pub dangerous_vars : List String
dangerous_vars = "LD_PRELOAD" ∷ "PYTHONPATH" ∷ "PERL5LIB" ∷ "RUBYLIB" ∷ []

-- The constraints and the validators of the model's fields.
unfoldable pub is_valid_context : (Text → Option Text) → SecureContext → Bool
unfolding has
is_valid_context resolve ctx =
    leb 1 (length ctx.command)
    && leb (length ctx.command) 10000
    && leb 1 ctx.timeout_seconds
    && leb ctx.timeout_seconds 3600
    && is_allowed_dir resolve ctx.working_dir
    && not (any (λ v. has v ctx.environment) dangerous_vars)

abbrev is_blank : ℕ → Bool
is_blank c = c == 32 || leb 9 c && leb c 13 || leb 28 c && leb c 31

abbrev pub spaces : Regex
spaces = many (class is_blank)

abbrev pub some_spaces : Regex
some_spaces = seq (class is_blank) spaces

abbrev pub is_meta : ℕ → Bool
is_meta c = any (λ m. m == c) (codes ";&|`$()")

-- The last one ends in a bar, which adds the empty alternative.
abbrev pub dangerous_patterns : List Regex
dangerous_patterns =
    class is_meta
    ∷ seq (literal (codes ">")) (seq spaces (literal (codes "/dev/")))
    ∷ seq (literal (codes ">")) (seq spaces (literal (codes "/etc/")))
    ∷ seq (literal (codes "rm")) (seq some_spaces (literal (codes "-rf")))
    ∷ seq (literal (codes "dd")) (seq some_spaces (literal (codes "if=")))
    ∷ seq (literal (codes "chmod")) (seq some_spaces (literal (codes "777")))
    ∷ alt (seq (literal (codes ":{")) (seq spaces (literal (codes ":")))) blank
    ∷ []

-- The first pattern that is found, by its place in the list.
abbrev pub first_match : Text → ℕ → List Regex → Option ℕ
first_match cmd i [] = none
first_match cmd i (r ∷ rs) = if search_in r cmd then some i else first_match cmd (i + 1) rs

unfoldable pub is_dangerous : Text → Option ℕ
unfolding search_in
is_dangerous cmd = first_match cmd 0 dangerous_patterns

abbrev pub safe_commands : List Text
safe_commands =
    codes "echo"
    ∷ codes "cat"
    ∷ codes "ls"
    ∷ codes "pwd"
    ∷ codes "date"
    ∷ codes "whoami"
    ∷ codes "id"
    ∷ codes "uname"
    ∷ codes "grep"
    ∷ codes "sed"
    ∷ codes "awk"
    ∷ codes "sort"
    ∷ codes "uniq"
    ∷ codes "wc"
    ∷ codes "tail"
    ∷ codes "head"
    ∷ codes "curl"
    ∷ codes "wget"
    ∷ codes "git"
    ∷ codes "docker"
    ∷ codes "kubectl"
    ∷ codes "terraform"
    ∷ []

-- `token.split('/')[-1]`, on what was read since the last slash.
abbrev pub basename_from : Text → Text → Text
basename_from acc [] = acc
basename_from acc (c ∷ cs) =
    if c == 47 then basename_from [] cs else basename_from (acc ++ c ∷ []) cs

unfoldable pub extract_base_command : Option (List Text) → Text
unfolding lower
extract_base_command none = []
extract_base_command (some []) = []
extract_base_command (some (t ∷ ts)) = lower (basename_from [] t)

pub data Reason : Type 0 where
  bad_syntax : Reason
  matched_pattern : ℕ → Reason
  not_listed : Text → Reason

abbrev pub Validation : Type 0
Validation = Bool × Option Reason × CommandSeverity

abbrev pub listed : Text → Validation
listed base =
    if any (text_eq base) safe_commands
    then (true, none, safe)
    else (true, some (not_listed base), warning)

abbrev pub on_pattern : Option ℕ → Option (List Text) → Validation
on_pattern (some i) tokens = (false, some (matched_pattern i), forbidden)
on_pattern none tokens = listed (extract_base_command tokens)

-- `CommandValidator.validate`, on the tokens of the command (`none`: `shlex.split` raises).
unfoldable pub validate : Option (List Text) → SecureContext → Validation
unfolding is_dangerous extract_base_command
validate none ctx = (false, some bad_syntax, forbidden)
validate (some ts) ctx = on_pattern (is_dangerous ctx.command) (some ts)
