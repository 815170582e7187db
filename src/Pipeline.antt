-- ===== src/Pipeline.antt =====
-- The parts together: a job that the management service queues (arthur/miles/backend/management/src)
-- is run by the tester (arthur/miles/backend/worker/ui-test-worker/src), whose reports go to the
-- queue that the status of a job is read from.
use testbench.Common.{
  ◌≡◌, refl, ◌≢◌, Bool, true, false, Option, none, some, List, [], ◌∷◌, ◌++◌, String, ◌===◌, ◌+++◌,
  any, find, sym, ◌∙◌, ap, arith, eq_iff, Bool-cases, inl, inr, get_or_else, ◌⊎◌, if◌then◌else◌,
  is_some,
}
use mathlib.Core.Path.{subst}
use testbench.Tester.Table.{StateMachine}
use testbench.Tester.Machine.{
  JobData, Settings, World, History, Call, add_status, Outcome, resolved, rejected, crashed,
}
use testbench.Tester.Tasks.{emulator_container, test_container, is_headless}
use testbench.Tester.Loop.{run_job}
use testbench.Tester.Frame.{LogWorks}
use testbench.Tester.Ends.{calls_of, machine_of, Closes, Unheard}
use testbench.Tester.Cleanup.{IsSettled, emulator-removed}
use testbench.Tester.Status.{FailureAsked, Queued, IsSilent, failure, report_ends}
use testbench.Management.Intake.{Body}
use testbench.Management.Api.{
  Added, new_job, new_job-headless, StatusJob, job_status, text, Answer, code,
}
mod Tests

-- What the status queue holds of a run, the newest job first, which is the order that bullmq's
-- `getJobs` gives.
abbrev pub status_jobs : History → List StatusJob
status_jobs [] = []
status_jobs ((add_status n i s, true) ∷ h) = record { id = i; status = s } ∷ status_jobs h
status_jobs ((_, ok) ∷ h) = status_jobs h

-- A job that is found is not one of a failure.
Harmless : Option StatusJob → Type 0
Harmless none = Unit
Harmless (some j) = j.status ≢ failure

Harmless-if :
    (hit : Bool) (j : StatusJob) (rest : Option StatusJob)
    → j.status ≢ failure
    → Harmless rest
    → Harmless (if hit then some j else rest)
unfolding Harmless
Harmless-if true j rest h k = h
Harmless-if false j rest h k = k

Harmless-none :
    (others : List StatusJob) (id : String)
    → any (λ (j : StatusJob). j.id === id) others ≡ false
    → Harmless (find (λ (j : StatusJob). j.id === id) others)
unfolding Harmless
Harmless-none [] id e = tt
Harmless-none (j ∷ others) id e = elim (Bool-cases (j.id === id)) [
  | inl hit ↦ let wrong : true ≡ false = rw hit at e in cc
  | inr miss ↦
      let later : any (λ (k : StatusJob). k.id === id) others ≡ false = rw miss at e in
      rw miss (Harmless-none others id later)
]

find-Harmless :
    (h : History) (others : List StatusJob) (id : String)
    → IsSilent h
    → any (λ (j : StatusJob). j.id === id) others ≡ false
    → Harmless (find (λ (j : StatusJob). j.id === id) (status_jobs h ++ others))
find-Harmless [] others id silent e = Harmless-none others id e
find-Harmless ((add_status n i s, true) ∷ h) others id (fine, silent) e =
    Harmless-if (i === id) (record { id = i; status = s }) _ fine
      (find-Harmless h others id silent e)
find-Harmless ((add_status n i s, false) ∷ h) others id (fine, silent) e =
    find-Harmless h others id silent e
find-Harmless ((_, ok) ∷ h) others id silent e = find-Harmless h others id silent e

answer-Harmless :
    (found : Option StatusJob) (id : String)
    → Harmless found
    → (elim found as (λ _. Answer) [
      | none ↦ text 404 ("Kein Status für einen Job mit der Id " +++ id +++ " gefunden.")
      | some j ↦ text 200 j.status
    ])
      ≢ text 200 failure
unfolding Harmless
answer-Harmless none id h e =
    let same : code (text 404 "") ≡ code (text 200 "") = ap code e in absurd (omega (arith, same))
answer-Harmless (some j) id h e = h (ap body e)
  where
    body : Answer → String
    body (text n s) = s
    body _ = ""

answer-silent :
    (h : History) (others : List StatusJob) (id : String)
    → IsSilent h
    → any (λ (j : StatusJob). j.id === id) others ≡ false
    → job_status (some (status_jobs h ++ others)) id ≢ text 200 failure
unfolding job_status
answer-silent h others id silent e =
    answer-Harmless (find (λ (j : StatusJob). j.id === id) (status_jobs h ++ others)) id
      (find-Harmless h others id silent e)

-- A run in which no task has failed asked for no failure.
unfailed :
    (A B C : History → Type 0) (o : Outcome (Unit {0}))
    → Closes (λ f h. (f ≡ true → A h) × (f ≡ false → B h × IsSilent h)) (λ h. IsSilent h × C h) o
    → (machine_of o).failed ≡ false
    → IsSilent (calls_of o)
unfailed A B C (resolved _ m) told miss = (told.1 miss).1
unfailed A B C (rejected m) told miss = (told.1 miss).1
unfailed A B C (crashed m) told miss = told.0

module _ (w : World) (cfg : Settings) (works : LogWorks w) (lib : StateMachine) where
  -- What becomes of a job.
  abbrev pub Runs : JobData → Type 0
  Runs job =
      (o : Outcome (Unit {0})) × (run_job w cfg job lib ≡ some o)
      × Closes (λ _ h. IsSettled (emulator_container w cfg job) h)
          (Unheard (test_container w cfg job)) o

  Added-map :
      {P : JobData → Type 0} {Q : JobData → Type 0} {queue : List JobData}
      {r : Answer × List JobData}
      → ((job : JobData) → P job → Q job)
      → Added P queue r
      → Added Q queue r
  Added-map f (inl same) = inl same
  Added-map f (inr (job, e1, e2, p)) = inr (job, e1, e2, f job p)

  -- Where the log accepts every line, a request for a new job is refused and the queue is as it
  -- was, or a job with the request's id is queued as the last one and its id is answered: the
  -- tester's run of that job uses the emulator and ends. If it returns or throws and has asked for
  -- the emulator, it has asked for the removal of the emulator's container before; else its process
  -- has ended, after docker refused to run the emulator or to remove the test's container for an
  -- expired test, for neither of which the job waits.
  pub new_job-Runs :
      (accepts : Bool) (queue : List JobData) (b : Body)
      → Added
          (λ job. (is_headless job ≡ true) × (job.uuid ≡ get_or_else b.id "") × Runs job)
          queue
          (new_job accepts queue (some b))
  new_job-Runs accepts queue b =
      Added-map (λ job p. (p.0, p.1, emulator-removed w cfg job works lib))
        (new_job-headless accepts queue b)

  -- Where the log accepts every line, and no other job of the status queue has the job's id, the
  -- run of a job ends, and if its failure is the status that is answered for the id after the
  -- run, a task of the run has failed.
  pub failed_status-true :
      (job : JobData) (others : List StatusJob)
      → any (λ (j : StatusJob). j.id === job.uuid) others ≡ false
      → (o : Outcome (Unit {0})) × (run_job w cfg job lib ≡ some o)
        × (job_status (some (status_jobs (calls_of o) ++ others)) job.uuid ≡ text 200 failure
            → (machine_of o).failed ≡ true)
  failed_status-true job others fresh =
      let (o, runs, told) = report_ends w cfg job works lib in
      let missed = unfailed (FailureAsked job) (Queued job) (Unheard (test_container w cfg job)) in
      (
        o,
        runs,
        λ answered. elim (Bool-cases (machine_of o).failed) [
          | inl hit ↦ hit
          | inr miss ↦
              absurd
                (answer-silent (calls_of o) others job.uuid (missed o told miss) fresh answered)
        ],
      )
