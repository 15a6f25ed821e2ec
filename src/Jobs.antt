-- ===== src/Jobs.antt =====
-- core/scheduler.py and core/databus.py: the jobs that are put on a stream, and the two loops that
-- take messages from it and answer each with `ack` or `nak`. JetStream, JSON and the callbacks are
-- parameters.
pub mod Loops
use Prim.Native.String.{◌++◌ as concat}
use universal_cross_shell_ex.Prelude.{
  ℕ, String, Bool, true, false, not, List, [], ◌∷◌, Option, none, some, if◌then◌else◌,
}
use universal_cross_shell_ex.Prelude.Dict.{Dict}
use universal_cross_shell_ex.Prelude.Result.{Result, ok, err}
use universal_cross_shell_ex.Types.{Caps, ExecutionContext}
use universal_cross_shell_ex.Ucer.{Ucer, Canonical, model_dump_canonical}

-- `context.snapshot()`
pub record ContextSnapshot : Type 0 where
  pub execution_id : String
  pub env : Dict String
  pub cwd : String
  pub capabilities : Caps
  pub timestamp : ℕ

unfoldable pub snapshot : ExecutionContext → ContextSnapshot
snapshot c = record {
  execution_id = c.execution_id;
  env = c.environment;
  cwd = c.working_dir;
  capabilities = c.capabilities;
  timestamp = c.created_at;
}

pub record Payload : Type 0 where
  pub ucer : Canonical
  pub context : ContextSnapshot
  pub priority : ℕ
  pub submitted_at : ℕ
  pub trace_id : String

-- A server: whether it can be reached, and a stream that may refuse what is published.
pub record JetStream (S : Type 0) : Type 0 where
  pub reachable : S → Bool
  pub add_stream : S → S
  pub publish : (subject : String) → Payload → S → Option (ℕ × S)

pub data SubmitError : Type 0 where
  not_connected not_published : SubmitError

-- The scheduler: whether it has a stream (`self.js`), and the server.
pub record Scheduler (S : Type 0) : Type 0 where
  pub js : Bool
  pub server : S

module _ {S : Type 0} (jet : JetStream S) where
  -- `connect`; a stream that exists already is no error.
  unfoldable pub connect : Scheduler S → Result SubmitError (Unit {0}) × Scheduler S
  connect s =
      if jet.reachable s.server
      then (ok tt, record { js = true; server = jet.add_stream s.server })
      else (err not_connected, s)

  abbrev pub job_subject : Ucer → String
  job_subject u = concat "ucser.jobs." u.command_id

  abbrev pub payload_of : Ucer → ExecutionContext → (priority now : ℕ) → String → Payload
  payload_of u ctx priority now trace_id = record {
    ucer = model_dump_canonical u;
    context = snapshot ctx;
    priority = priority;
    submitted_at = now;
    trace_id = trace_id;
  }

  abbrev pub published : Scheduler S → Option (ℕ × S) → Result SubmitError ℕ × Scheduler S
  published s none = (err not_published, s)
  published s (some (seq, server)) = (ok seq, record s { server = server })

  abbrev pub when_connected :
      Result SubmitError (Unit {0}) × Scheduler S
      → (Scheduler S → Result SubmitError ℕ × Scheduler S)
      → Result SubmitError ℕ × Scheduler S
  when_connected (ok _, s) k = k s
  when_connected (err e, s) k = (err e, s)

  unfoldable pub submit_job :
      Ucer
      → ExecutionContext
      → (priority now : ℕ) → (trace_id : String) → Scheduler S
      → Result SubmitError ℕ × Scheduler S
  unfolding connect model_dump_canonical snapshot
  submit_job u ctx priority now trace_id s =
      when_connected (if not s.js then connect s else (ok tt, s)) λ s'.
        published s'
          (jet.publish (job_subject u) (payload_of u ctx priority now trace_id) s'.server)

-- What a message is answered.
pub data Reply : Type 0 where
  ack nak : Reply

-- A subscription: JSON, the callback (`false`: it raises), and whether the answers reach the server.
pub record Subscriber (M D : Type 0) : Type 0 where
  pub loads : M → Option D
  pub has_command_id : D → Bool
  pub callback : D → Bool
  pub ack_ok : M → Bool
  pub nak_ok : M → Bool

-- How a loop over the messages ends: it waits for more, or an exception has ended it.
pub data Ending : Type 0 where
  waiting stopped : Ending

abbrev pub Answers : Type 0 → Type 0
Answers M = List (M × Reply) × Ending

abbrev pub answer : {M : Type 0} → M → Reply → Answers M → Answers M
answer m r (rs, e) = ((m, r) ∷ rs, e)

module _ {M D : Type 0} (sub : Subscriber M D) where
  -- `nak`, which may raise, and the rest of the loop.
  abbrev pub refuse : M → Answers M → Answers M
  refuse m rest = if sub.nak_ok m then answer m nak rest else ([], stopped)

  abbrev pub accept : M → D → Answers M → Answers M
  accept m d rest =
      if sub.callback d
      then (if sub.ack_ok m then answer m ack rest else refuse m rest)
      else refuse m rest

  abbrev pub work : M → Option D → Answers M → Answers M
  work m none rest = ([], stopped)
  work m (some d) rest = if sub.has_command_id d then accept m d rest else ([], stopped)

  -- The loop of `DistributedWorker.start`.
  unfoldable pub start : List M → Answers M
  start [] = ([], waiting)
  start (m ∷ ms) = let rest = start ms in work m (sub.loads m) rest

  abbrev pub hear : M → Option D → Answers M → Answers M
  hear m none rest = refuse m rest
  hear m (some d) rest = accept m d rest

  -- The loop of `UnifiedDataBus.subscribe`.
  unfoldable pub listen : List M → Answers M
  listen [] = ([], waiting)
  listen (m ∷ ms) = let rest = listen ms in hear m (sub.loads m) rest
