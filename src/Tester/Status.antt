-- ===== src/Tester/Status.antt =====
-- What a job reports at its end: the request for an analysis, or the failure.
use testbench.Common.{
  ◌≡◌, refl, sym, ◌∙◌, Bool, true, false, some, [], ◌∷◌, String, ◌⊎◌, inl, arith, eq_iff, ◌≢◌,
}
use mathlib.Core.Bool.{false≢true}
use testbench.Tester.Table.{
  State, initial, start, build_ui_test_image, start_emulator, run_ui_test, create_analyzer_job,
  delete_ui_test_image, close_log_file, failed, take_screenshot, ended, StateMachine,
}
use testbench.Tester.Successor.{successor, IsLive}
use testbench.Tester.Machine.{
  JobData, Settings, add_status, add_analyzer_job, close_log, write_log, World, Machine, History,
  Outcome, pass, detach,
}
use testbench.Tester.Tasks.{is_headless, fsm_task, test_container, log}
use testbench.Tester.Loop.{task, abort_task, handler, run_job}
use testbench.Tester.Rules.{View, Triple, Triple-adapt, Triple-then, Triple-pass, perform_rule}
use testbench.Tester.Guarded.{merged_task, keeping_task, fsm_task_rule}
use testbench.Tester.Frame.{
  Ignores, keeps_rules, LogWorks, log_works, Triple-detach, start_rule, abort_rule,
}
use testbench.Tester.Runs.{IsInvariant}
use testbench.Tester.Ends.{Final-Closes, Closes-weaken, Closes, Unheard, run_job_rule}

abbrev pub failure : String
failure = "MEASUREMENT_FAILED"

-- The status queue was asked to take the job's failure, whether or not it did.
abbrev pub FailureAsked : JobData → History → Type 0
FailureAsked job [] = ⊥
FailureAsked job ((add_status n i s, ok) ∷ h) =
    ((n ≡ job.name) × (i ≡ job.uuid) × (s ≡ failure)) ⊎ FailureAsked job h
FailureAsked job ((_, ok) ∷ h) = FailureAsked job h

-- No failure was reported, of whatever job.
abbrev pub IsSilent : History → Type 0
IsSilent [] = Unit
IsSilent ((add_status n i s, ok) ∷ h) = (s ≢ failure) × IsSilent h
IsSilent ((_, ok) ∷ h) = IsSilent h

-- The analysis of the job was queued, under the job's id.
abbrev pub Queued : JobData → History → Type 0
Queued job [] = ⊥
Queued job ((add_analyzer_job n u t r e j, true) ∷ h) =
    ((u ≡ job.uuid) × (j ≡ job.uuid)) ⊎ Queued job h
Queued job ((_, ok) ∷ h) = Queued job h

abbrev Post : JobData → View
Post job take_screenshot f h = (f ≡ true) × IsSilent h
Post job failed f h = (f ≡ true) × FailureAsked job h
Post job create_analyzer_job f h = (f ≡ false → Queued job h) × IsSilent h
Post job delete_ui_test_image f h = (f ≡ false → Queued job h) × IsSilent h
Post job close_log_file f h =
    (f ≡ true → FailureAsked job h) × (f ≡ false → Queued job h × IsSilent h)
Post job ended f h = (f ≡ true → FailureAsked job h) × (f ≡ false → Queued job h × IsSilent h)
Post job s f h = IsSilent h

abbrev Pre : JobData → View
Pre job failed f h = (f ≡ true) × IsSilent h
Pre job create_analyzer_job f h = IsSilent h
Pre job s f h = Post job s f h

edge-Post :
    (hd f : Bool) (job : JobData) (s : State) (h : History)
    → IsLive f s
    → Post job s f h
    → Pre job (successor hd f s) f h
edge-Post true true job initial h live k = ground arith
edge-Post true true job _ h live k = ground arith
edge-Post true false job _ h live k = ground arith
edge-Post false true job _ h live k = ground arith
edge-Post false false job _ h live k = ground arith

abbrev In : JobData → State → View
In job x s f h = (s ≡ x) × Pre job x f h

abbrev Out : JobData → State → View
Out job x s f h = (s ≡ x) × Post job x f h

started-ne-failure : ◌≢◌ {A = String} "MEASUREMENT_STARTED" failure
started-ne-failure = ground (arith, eq_iff "MEASUREMENT_STARTED" failure)

-- The report that a job has started tells of no failure.
start-silent :
    (job : JobData) (n i : String) → Ignores (Out job start) (add_status n i "MEASUREMENT_STARTED")
start-silent job n i s f ok h v = (v.0, (started-ne-failure, v.1))

module _ (w : World) (cfg : Settings) (job : JobData) (works : LogWorks w) where
  -- What is left where the process has ended.
  abbrev Stopped : View
  Stopped s f h = IsSilent h × Unheard (test_container w cfg job) h

  -- The states whose tasks neither report the failure nor ask for the analysis.
  abbrev IsPlain : State → Type 0
  IsPlain failed = ⊥
  IsPlain create_analyzer_job = ⊥
  IsPlain close_log_file = ⊥
  IsPlain ended = ⊥
  IsPlain _ = Unit

  followed : {V : View} (text : String) → Triple Stopped V V V (detach (log w text))
  followed text = Triple-detach _ (log_works w works text)

  task-Out :
      (x : State)
      → IsPlain x
      → Triple Stopped (Out job x) (Out job x) (Out job x) (task w cfg job x)
  unfolding task
  task-Out failed p = absurd p
  task-Out create_analyzer_job p = absurd p
  task-Out close_log_file p = absurd p
  task-Out ended p = absurd p
  task-Out start p = search (keeps_rules, start-silent) depth 20
  task-Out build_ui_test_image p = search (keeps_rules, followed) depth 20
  task-Out start_emulator p = start_rule w cfg job (λ i n k s f h v. v) (λ i n k s f h v. (v.1, tt))
  task-Out x p = search keeps_rules depth 20

  abort-Out :
      (x : State)
      → IsPlain x
      → Triple Stopped (Out job x) (Out job x) Stopped (abort_task w cfg job x)
  unfolding abort_task
  abort-Out run_ui_test p =
      abort_rule w cfg job (log_works w works) (λ s f h v. v) (λ s f h v. (v.1, inl refl))
  abort-Out _ p = Triple-pass

  Out-failed :
      (x s : State) (f : Bool) (h : History) → IsPlain x → Out job x s f h → Out job x s true h
  Out-failed initial s f h p v = ground arith
  Out-failed x s f h p v = ground arith

  cannot : {P : Type 0} (m : Machine) (t : String) → w.accepts m.history (write_log t) ≡ false → P
  cannot m t e = absurd (false≢true (sym e ∙ works m.history t))

  abbrev Closing : View
  Closing s f h = Post job close_log_file f h

  plain :
      (x : State)
      → IsPlain x
      → Triple Stopped
          (Out job x)
          (Out job x)
          Closing
          (fsm_task w (task w cfg job x) (abort_task w cfg job x))
  plain x p =
      keeping_task w (task-Out x p) (abort-Out x p) (λ s f h v. Out-failed x s f h p v)
        (λ m t e v. cannot m t e)

  report :
      Triple Stopped
        (In job failed)
        (Out job failed)
        Closing
        (fsm_task w (task w cfg job failed) pass)
  unfolding task
  report = merged_task (
      fsm_task_rule {Done = Out job failed} {Lost = Out job failed} (record {
        skip = λ m t e v. cannot m t e;
        body =
            perform_rule w _ (λ m v e. (v.0, (v.1.0, inl (refl, refl, refl))))
              (λ m v e. (v.0, (v.1.0, inl (refl, refl, refl))));
        weaken = λ s f h v. v;
        aborted = Triple-pass;
        gone = λ m t e v. cannot m t e;
        fails = λ s f h v. (v.0, (refl, v.1.1));
      }))

  queue :
      Triple Stopped
        (In job create_analyzer_job)
        (Out job create_analyzer_job)
        Closing
        (fsm_task w (task w cfg job create_analyzer_job) pass)
  unfolding task
  queue = merged_task (
      fsm_task_rule {Done = Out job create_analyzer_job} {Lost = In job create_analyzer_job}
        (record {
          skip = λ m t e v. cannot m t e;
          body =
              Triple-then {Q = Out job create_analyzer_job}
                (perform_rule w _ (λ m v e. (v.0, ((λ f. inl (refl, refl)), v.1))) (λ m v e. v))
                (Triple-adapt {P = Out job create_analyzer_job} {R = Out job create_analyzer_job}
                  (search keeps_rules depth 20) (λ s f h v. v) (λ s f h v. (v.0, v.1.1)));
          weaken = λ s f h v. (v.0, v.1.1);
          aborted =
              Triple-adapt {P = In job create_analyzer_job} Triple-pass (λ s f h v. (v.0, v.1.1))
                (λ s f h v. v);
          gone = λ m t e v. cannot m t e;
          fails = λ s f h v. (v.0, ((λ e. cc), v.1));
        }))

  handled : (x : State) → Triple Stopped (In job x) (Out job x) Closing (handler w cfg job x)
  unfolding handler abort_task
  handled initial = Triple-pass
  handled ended = Triple-pass
  handled close_log_file = perform_rule w close_log (λ m v e. v) (λ m v e. v.1)
  handled failed = report
  handled create_analyzer_job = queue
  handled x = plain _ tt

  invariant : IsInvariant w cfg job Stopped (Pre job) (Post job) Closing
  invariant = record {
    edge = λ s f h live k. edge-Post (is_headless job) f job s h live k;
    handled = handled;
  }

  -- The ends of a run, and that no failure was asked to be taken up to the call that ended the process.
  pub report_ends :
      (lib : StateMachine)
      → (o : Outcome (Unit {0})) × (run_job w cfg job lib ≡ some o)
        × Closes
            (λ f h. (f ≡ true → FailureAsked job h) × (f ≡ false → Queued job h × IsSilent h))
            (λ h. IsSilent h × Unheard (test_container w cfg job) h)
            o
  report_ends lib =
      let (o, runs, final) = run_job_rule lib invariant tt in
      (
        o,
        runs,
        Final-Closes
            (λ f h. (f ≡ true → FailureAsked job h) × (f ≡ false → Queued job h × IsSilent h))
            (λ h. IsSilent h × Unheard (test_container w cfg job) h) (λ m k. k) (λ m k. k)
            (λ m k. k) o final,
      )

  -- Where the log accepts every line, a job ends. If it returns or throws, either a task has failed
  -- and the status queue was asked to take the failure under the job's id, or none has: then the
  -- job's analysis was queued under that id and no failure was asked to be taken. Else its process
  -- has ended, after docker refused to run the emulator or to remove the test's container for an
  -- expired test, for neither of which the job waits.
  pub report_complete :
      (lib : StateMachine)
      → (o : Outcome (Unit {0})) × (run_job w cfg job lib ≡ some o)
        × Closes
            (λ f h. (f ≡ true → FailureAsked job h) × (f ≡ false → Queued job h × IsSilent h))
            (Unheard (test_container w cfg job))
            o
  report_complete lib =
      let (o, runs, told) = report_ends lib in
      (
        o,
        runs,
        Closes-weaken
            (λ f h. (f ≡ true → FailureAsked job h) × (f ≡ false → Queued job h × IsSilent h))
            (λ h. IsSilent h × Unheard (test_container w cfg job) h)
            (Unheard (test_container w cfg job)) o (λ h k. k.1) told,
      )
