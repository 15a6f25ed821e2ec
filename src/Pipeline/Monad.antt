-- ===== src/Pipeline/Monad.antt =====
-- State, exceptions and events of a run, and what the outside world answers.
use universal_cross_shell_ex.Prelude.{ℕ, String, Bool, List, ◌∷◌, Option, if◌then◌else◌}
use universal_cross_shell_ex.Prelude.Text.{Text}
use universal_cross_shell_ex.Prelude.Json.{Fields}
use universal_cross_shell_ex.Prelude.Result.{Result, ok, err}
use universal_cross_shell_ex.Types.{ExecutionContext}
use universal_cross_shell_ex.Ucer.{Adapter, ExitCode, Ucer, Crypto}
use universal_cross_shell_ex.Policy.{Tools, Denied}

pub data Error : Type 0 where
  tampered malformed_signature key_error db_error adapter_error : Error
  denied : Denied → Error
  unsupported : Adapter → Error
  blocked : String → Error

-- An adapter is called; a record is saved; a metric is emitted.
pub data Event : Type 0 where
  ran : Adapter → Text → Event
  saved : Ucer → Event
  metric : String → Adapter → ℕ → Bool → Event

abbrev pub Log : Type 0
Log = List Event

-- The dict that an adapter returns; each key may be missing.
pub record RunResult : Type 0 where
  pub stdout : Option Text
  pub stderr : Option Text
  pub exit_code : Option ExitCode
  pub side_effects : Option Fields

-- `respond` is an adapter's answer (`none`: it raises), `storable` whether the database takes a
-- record, `clock` the time in milliseconds, `fresh_id` a new UUID.
pub record World : Type 0 where
  pub tools : Log → Tools
  pub crypto : Crypto
  pub public_key : Log → Option String
  pub new_key : Log → String
  pub clock : Log → ℕ
  pub fresh_id : Log → String
  pub respond : Log → Adapter → Text → ExecutionContext → Option RunResult
  pub storable : Log → Ucer → Bool

-- The record under way and the events so far.
pub record Run : Type 0 where
  pub ucer : Ucer
  pub log : Log

abbrev pub Exec : Type 0 → Type 0
Exec A = Run → Result Error A × Run

module _ {A : Type 0} where
  abbrev pub pure : A → Exec A
  pure a r = (ok a, r)

  abbrev pub raise : Error → Exec A
  raise e r = (err e, r)

  abbrev pub gets : (Run → A) → Exec A
  gets f r = (ok (f r), r)

  abbrev pub rescue : (Run → Run) → Result Error A × Run → Result Error A × Run
  rescue h (ok a, r) = (ok a, r)
  rescue h (err e, r) = (err e, h r)

  -- `try: m` / `except Exception: h; raise`
  abbrev pub on_error : Exec A → (Run → Run) → Exec A
  on_error m h r = rescue h (m r)

module _ {A B : Type 0} where
  abbrev pub continue : Result Error A → (A → Exec B) → Exec B
  continue (ok a) f r = f a r
  continue (err e) f r = (err e, r)

  infixl 5 ◌>>=◌ ◌>>◌
  abbrev pub ◌>>=◌ : Exec A → (A → Exec B) → Exec B
  ◌>>=◌ m f r = let (x, r') = m r in continue x f r'

  abbrev pub ◌>>◌ : Exec A → Exec B → Exec B
  m >> k = m >>= λ _. k

abbrev pub modify : (Run → Run) → Exec (Unit {0})
modify f r = (ok tt, f r)

abbrev pub raise_if : Bool → Error → Exec (Unit {0})
raise_if b e r = (if b then err e else ok tt, r)

abbrev pub note : Event → Run → Run
note e r = record r { log = e ∷ r.log }

abbrev pub Handler : Type 0
Handler = ExecutionContext → Exec (Unit {0})
