-- ===== src/Queue/Interface.antt =====
-- queue-api/src/queue.ts: the interface of the queue implementations, as far as a proxy uses it.
--
-- `H` is the type of the consumers' handlers, `T` that of the jobs' data.
use checkmate.Prelude.{ℕ, ◌≡◌, String, List, [], ◌∷◌, ◌++◌, Option, Result, if◌then◌else◌}
use checkmate.Prelude.Text.{◌===◌}

pub record ConsumeOptions : Type 0 where
  pub consumer_group : String
  pub max_retries : Option ℕ

pub record QueueInterface (H T : Type 0) : Type 1 where
  pub Queue : Type 0
  pub consume : H → ConsumeOptions → Queue → Queue
  -- The queue may refuse a job.
  pub enqueue : T → Queue → Result String (Queue × String)
  pub stop : Queue → Queue
  -- The handlers that compete for the jobs of a group.
  pub consumers : String → Queue → List H
  pub consumers-consume :
      (group : String) (handler : H) (options : ConsumeOptions) (queue : Queue)
      → consumers group (consume handler options queue) ≡ (
          if options.consumer_group === group
          then consumers group queue ++ handler ∷ []
          else consumers group queue)
