-- ===== src/Relay/Job.antt =====
-- The job of RelayWorker.ts on the channel that `getChannel` returns.
use testbench.Common.{Bool, true, false, Option, none, some, List, [], ◌∷◌, ℕ, String}
use testbench.Relay.Channel.{Phase, pending, fulfilled, rejected}

-- The status of a measurement, that is sent as JSON with the fields `id` and `status`.
pub record Message : Type 0 where
  pub id : String
  pub status : String

pub data Effect : Type 0 where
  sent : Message → Effect
  drained : Effect
  progress : ℕ → Effect

pub data End : Type 0 where
  waiting : End
  failed : End
  returned : String → End

-- `await job.updateProgress(100)`, which redis takes or not.
abbrev after_progress : Message → Bool → List Effect × End
after_progress m true = (progress 100 ∷ [], returned m.id)
after_progress m false = ([], failed)

-- The rest of the job after the message, where the buffer may have been full.
abbrev after_drain : Message → Bool → Bool → List Effect × End
after_drain m true progresses = let rest = after_progress m progresses in (drained ∷ rest.0, rest.1)
after_drain m false progresses = ([], waiting)

-- What `sendToQueue` returns, `none` where it throws on a channel that is closed.
after_send : Message → Option Bool → Bool → Bool → List Effect × End
after_send m none drains progresses = ([], failed)
after_send m (some true) drains progresses =
    let rest = after_progress m progresses in (sent m ∷ rest.0, rest.1)
after_send m (some false) drains progresses =
    let rest = after_drain m drains progresses in (sent m ∷ rest.0, rest.1)

-- The job on the channel that `getChannel` promises: `drains` says whether the channel reports 'drain'
-- after a full buffer, `progresses` whether the progress is taken.
unfoldable relay_job : Phase → Option Bool → Bool → Bool → Message → List Effect × End
unfolding after_send
relay_job pending ok drains progresses m = ([], waiting)
relay_job rejected ok drains progresses m = ([], failed)
relay_job fulfilled ok drains progresses m = after_send m ok drains progresses
