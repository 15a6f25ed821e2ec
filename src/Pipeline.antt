-- ===== src/Pipeline.antt =====
-- core/pipeline.py, core/middlewares.py, core/unified_executor.py and the facade of
-- core/executor.py. A handler works on the record in place and may raise; what it does to the
-- world is a log of events, newest first. The rest of the world, `World`, answers by the log.
mod Monad
mod Stages
unfoldable pub use Monad.*
unfoldable pub use Stages.*
pub mod Safety
pub mod Outcome
pub mod Ending
pub mod Refusal
pub mod Replay
pub mod Prefix
