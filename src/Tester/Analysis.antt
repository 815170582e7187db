-- ===== src/Tester/Analysis.antt =====
-- An analyzer job is queued only for a measurement that went through.
use testbench.Common.{◌≡◌, refl, Bool, true, false, some, [], ◌∷◌, String, ◌⊎◌, inl, arith}
use testbench.Tester.Table.{
  State, initial, build_ui_test_image, start_emulator, run_ui_test, stop_perfetto, stop_apk,
  uninstall_apk, pull_trace_file, delete_trace_file, delete_emulator, create_analyzer_job,
  close_log_file, take_screenshot, ended, StateMachine,
}
use testbench.Tester.Successor.{successor, IsLive}
use testbench.Tester.Machine.{
  JobData, Settings, run_container, exec, add_analyzer_job, close_log, World, History, Outcome,
  pass, detach,
}
use testbench.Tester.Tasks.{is_headless, pull_command, fsm_task, log}
use testbench.Tester.Loop.{task, abort_task, handler, run_job}
use testbench.Tester.Rules.{
  View, Triple, Triple-adapt, Triple-bind, Triple-then, Triple-pass, Triple-observe, Triple-ensure,
  Triple-adb_config, perform_rule,
}
use testbench.Tester.Guarded.{merged_task, keeping_task, fsm_task_rule}
use testbench.Tester.Frame.{keeps_rules, Triple-detach, log_left, start_rule, abort_rule}
use testbench.Tester.Runs.{IsInvariant}
use testbench.Tester.Ends.{Final-Closes, Closes-always, calls_of, run_job_rule}

-- The container of the UI test has run.
abbrev pub Tested : History → Type 0
Tested [] = ⊥
Tested ((run_container i n k b e, true) ∷ h) = Unit
Tested ((_, ok) ∷ h) = Tested h

-- The trace was copied to the results' folder.
abbrev pub Pulled : (String → String) → History → Type 0
Pulled command [] = ⊥
Pulled command ((exec c, true) ∷ h) = ((adb : String) × (c ≡ command adb)) ⊎ Pulled command h
Pulled command ((_, ok) ∷ h) = Pulled command h

-- Before each request for an analysis, the test had run and the trace had been copied.
abbrev pub IsJustified : (String → String) → History → Type 0
IsJustified command [] = Unit
IsJustified command ((add_analyzer_job n u t r e j, ok) ∷ h) =
    Tested h × Pulled command h × IsJustified command h
IsJustified command ((_, ok) ∷ h) = IsJustified command h

-- What a machine that has not failed has behind it, in a state.
abbrev Behind : (String → String) → State → History → Type 0
Behind command run_ui_test h = Tested h
Behind command stop_perfetto h = Tested h
Behind command stop_apk h = Tested h
Behind command uninstall_apk h = Tested h
Behind command pull_trace_file h = Tested h × Pulled command h
Behind command delete_trace_file h = Tested h × Pulled command h
Behind command delete_emulator h = Tested h × Pulled command h
Behind command _ h = Unit

-- And when it enters the state.
abbrev Ahead : (String → String) → State → History → Type 0
Ahead command run_ui_test h = Unit
Ahead command pull_trace_file h = Tested h
Ahead command create_analyzer_job h = Tested h × Pulled command h
Ahead command x h = Behind command x h

-- A screenshot is taken of a machine that has failed.
abbrev Post : (String → String) → View
Post command take_screenshot f h = (f ≡ true) × IsJustified command h
Post command s f h = (f ≡ false → Behind command s h) × IsJustified command h

abbrev Pre : (String → String) → View
Pre command take_screenshot f h = (f ≡ true) × IsJustified command h
Pre command create_analyzer_job f h =
    (f ≡ false) × (Tested h × Pulled command h) × IsJustified command h
Pre command s f h = (f ≡ false → Ahead command s h) × IsJustified command h

edge-Post :
    (hd f : Bool) (command : String → String) (s : State) (h : History)
    → IsLive f s
    → Post command s f h
    → Pre command (successor hd f s) f h
edge-Post true true command initial h live k = ground arith
edge-Post true true command _ h live k = ground arith
edge-Post true false command _ h live k = ground arith
edge-Post false true command _ h live k = ground arith
edge-Post false false command _ h live k = ground arith

abbrev In : (String → String) → State → View
In command x s f h = (s ≡ x) × Pre command x f h

abbrev Out : (String → String) → State → View
Out command x s f h = (s ≡ x) × Post command x f h

abbrev Lost : (String → String) → View
Lost command s f h = IsJustified command h

module _ (w : World) (cfg : Settings) (job : JobData) where
  abbrev command : String → String
  command = pull_command w cfg job

  -- The states whose tasks neither run the test, copy the trace nor ask for the analysis.
  abbrev IsPlain : State → Type 0
  IsPlain run_ui_test = ⊥
  IsPlain pull_trace_file = ⊥
  IsPlain create_analyzer_job = ⊥
  IsPlain _ = Unit

  followed :
      (V : View)
      → ((s : State) (f : Bool) (h : History) → V s f h → IsJustified command h)
      → (text : String) → Triple (Lost command) V V V (detach (log w text))
  followed V left text = Triple-detach _ (log_left w left text)

  task-Out :
      (x : State)
      → IsPlain x
      → Triple (Lost command) (Out command x) (Out command x) (Out command x) (task w cfg job x)
  unfolding task
  task-Out run_ui_test p = absurd p
  task-Out pull_trace_file p = absurd p
  task-Out create_analyzer_job p = absurd p
  task-Out build_ui_test_image p =
      search (keeps_rules, followed (Out command build_ui_test_image) (λ s f h v. v.1.1)) depth 20
  task-Out start_emulator p = start_rule w cfg job (λ i n k s f h v. v) (λ i n k s f h v. v.1.1)
  task-Out x p = search keeps_rules depth 20

  Out-failed : (x s : State) (f : Bool) (h : History) → Out command x s f h → Out command x s true h
  Out-failed initial s f h v = ground arith
  Out-failed x s f h v = ground arith

  plain :
      (x : State)
      → IsPlain x
      → Triple
          (Lost command)
          (Out command x)
          (Out command x)
          (Out command x)
          (fsm_task w (task w cfg job x) pass)
  plain x p = keeping_task w (task-Out x p) Triple-pass (Out-failed x) (λ m t e v. v)

  -- What is left of a test that did not pass.
  abbrev Untested : View
  Untested s f h = (s ≡ run_ui_test) × IsJustified command h

  aborted :
      Triple
        (Lost command)
        (Out command run_ui_test)
        Untested
        (Lost command)
        (abort_task w cfg job run_ui_test)
  unfolding abort_task
  aborted =
      Triple-adapt {P = Untested}
        (abort_rule w cfg job (log_left w (λ s f h v. v.1)) (λ s f h v. v) (λ s f h v. v.1))
        (λ s f h v. (v.0, v.1.1)) (λ s f h v. v)

  tested :
      Triple
        (Lost command)
        (In command run_ui_test)
        (Out command run_ui_test)
        Untested
        (task w cfg job run_ui_test)
  unfolding task
  tested =
      Triple-then
        (perform_rule {Q = Out command run_ui_test} w _ (λ m v e. (v.0, ((λ f. tt), v.1.1)))
          (λ m v e. (v.0, v.1.1)))
        (Triple-bind {Q = Out command run_ui_test} (Triple-observe w.exit_code) (λ code.
          Triple-adapt {P = Out command run_ui_test} (Triple-ensure _) (λ s f h v. v)
            (λ s f h v. (v.0, v.1.1))))

  test :
      Triple
        (Lost command)
        (In command run_ui_test)
        (Out command run_ui_test)
        Untested
        (fsm_task w (task w cfg job run_ui_test) (abort_task w cfg job run_ui_test))
  test = merged_task (
      fsm_task_rule {Done = Out command run_ui_test} {Lost = Untested} (record {
        skip = λ m t e v. (v.0, v.1.1);
        body = tested;
        weaken = λ s f h v. (v.0, v.1.1);
        aborted = aborted;
        gone = λ m t e v. v;
        fails = λ s f h v. (v.0, ((λ e. cc), v.1));
      }))

  pull :
      Triple
        (Lost command)
        (In command pull_trace_file)
        (Out command pull_trace_file)
        (In command pull_trace_file)
        (fsm_task w (task w cfg job pull_trace_file) pass)
  unfolding task
  pull = merged_task (
      fsm_task_rule {Done = Out command pull_trace_file} {Lost = In command pull_trace_file}
        (record {
          skip = λ m t e v. v;
          body = Triple-bind {Q = In command pull_trace_file} Triple-adb_config (λ adb.
              perform_rule w _ (λ m v e. (v.0, ((λ f. (v.1.0 f, inl (adb, refl))), v.1.1)))
                (λ m v e. v));
          weaken = λ s f h v. (v.0, ((λ e. (v.1.0 e).0), v.1.1));
          aborted =
              Triple-adapt {P = In command pull_trace_file} Triple-pass
                (λ s f h v. (v.0, ((λ e. (v.1.0 e).0), v.1.1))) (λ s f h v. v);
          gone = λ m t e v. v;
          fails = λ s f h v. (v.0, ((λ e. cc), v.1.1));
        }))

  abbrev Queued : View
  Queued = Out command create_analyzer_job

  queue :
      Triple
        (Lost command)
        (In command create_analyzer_job)
        Queued
        Queued
        (fsm_task w (task w cfg job create_analyzer_job) pass)
  unfolding task
  queue = merged_task (
      fsm_task_rule {Done = Queued} {Lost = Queued} (record {
        skip = λ m t e v. (v.0, ((λ f. tt), v.1.2));
        body =
            Triple-then {Q = Queued}
              (perform_rule w _ (λ m v e. (v.0, ((λ f. tt), (v.1.1.0, v.1.1.1, v.1.2))))
                (λ m v e. (v.0, ((λ f. tt), (v.1.1.0, v.1.1.1, v.1.2)))))
              (search keeps_rules depth 20);
        weaken = λ s f h v. v;
        aborted = Triple-pass;
        gone = λ m t e v. v;
        fails = λ s f h v. (v.0, ((λ e. tt), v.1.1));
      }))

  handled :
      (x : State)
      → Triple (Lost command) (In command x) (Out command x) (Lost command) (handler w cfg job x)
  unfolding handler abort_task
  handled initial = Triple-pass
  handled ended = Triple-pass
  handled close_log_file = perform_rule w close_log (λ m v e. v) (λ m v e. v.1.1)
  handled run_ui_test = Triple-adapt test (λ s f h v. v) (λ s f h v. v.1)
  handled pull_trace_file = Triple-adapt pull (λ s f h v. v) (λ s f h v. v.1.1)
  handled create_analyzer_job = Triple-adapt queue (λ s f h v. v) (λ s f h v. v.1.1)
  handled x = Triple-adapt (plain _ tt) (λ s f h v. v) (λ s f h v. v.1.1)

  invariant : IsInvariant w cfg job (Lost command) (Pre command) (Post command) (Lost command)
  invariant = record {
    edge = λ s f h live k. edge-Post (is_headless job) f command s h live k;
    handled = handled;
  }

  -- A job ends, whatever the other systems answer, and wherever it has asked for an analysis, the
  -- container of the UI test had run and the trace had been copied before.
  pub analysis-IsJustified :
      (lib : StateMachine)
      → (o : Outcome (Unit {0})) × (run_job w cfg job lib ≡ some o)
        × IsJustified command (calls_of o)
  analysis-IsJustified lib =
      let (o, runs, final) = run_job_rule lib invariant ((λ e. tt), tt) in
      (
        o,
        runs,
        Closes-always (λ _ h. IsJustified command h) o
            (Final-Closes (λ _ h. IsJustified command h) (λ h. (f : Bool) → IsJustified command h)
              (λ m k. k.1) (λ m k. k) (λ m k f. k) o final),
      )
