-- ===== src/Tester/Worker.antt =====
-- The worker of index.ts, which runs the jobs of its queue one at a time: no job blocks the queue.
use testbench.Common.{◌≡◌, false, Option, some, List, [], ◌∷◌, ◌+++◌}
use testbench.Tester.Table.{StateMachine}
use testbench.Tester.Machine.{JobData, Settings, World, Outcome}
use testbench.Tester.Tasks.{is_headless, emulator_container, test_container, device_trace}
use testbench.Tester.Loop.{run_job}
use testbench.Tester.Ends.{Closes, Unheard}
use testbench.Tester.Cleanup.{IsSettled}
use testbench.Tester.Device.{IsRestored}

abbrev pub Process : Type 0
Process = JobData → Option (Outcome (Unit {0}))

abbrev pub Served : Type 0
Served = JobData × Option (Outcome (Unit {0}))

-- The jobs with what becomes of them.
abbrev pub each_run : Process → List JobData → List Served
each_run run [] = []
each_run run (job ∷ queue) = (job, run job) ∷ each_run run queue

-- What bullmq documents of a worker with `concurrency: 1`: the jobs of the queue are processed one
-- after the other, in their order.
pub record Worker : Type 0 where
  pub process : Process → List JobData → List Served
  pub process_lem : (run : Process) (queue : List JobData) → process run queue ≡ each_run run queue

module _ (worlds : JobData → World) (cfg : Settings) (lib : StateMachine) where
  -- `new Worker(QUEUE_NAME_INPUT, jobURL, …)` on a queue; each job meets a world of its own.
  unfoldable pub serve : Worker → List JobData → List Served
  serve worker queue = worker.process (λ job. run_job (worlds job) cfg job lib) queue

  -- The job has ended, and where it has returned or thrown, what it used is as it was asked to be;
  -- else its process has ended after a refusal that nobody heard.
  abbrev pub IsLeftClean : Served → Type 0
  IsLeftClean (job, result) =
      (o : Outcome (Unit {0})) × (result ≡ some o)
      × Closes (λ _ h. IsSettled (emulator_container (worlds job) cfg job) h)
          (Unheard (test_container (worlds job) cfg job)) o
      × (is_headless job ≡ false
          → Closes (λ _. IsRestored ("rm " +++ device_trace (worlds job) cfg job))
              (Unheard (test_container (worlds job) cfg job)) o)
