-- ===== src/Tester/Cleanup.antt =====
-- The emulator's container is removed before the job ends.
use testbench.Common.{
  ◌≡◌, refl, Bool, true, false, some, [], ◌∷◌, String, ◌⊎◌, inl, inr, arith, sym, ◌∙◌,
}
use mathlib.Core.Bool.{false≢true}
use testbench.Tester.Table.{
  State, initial, start, build_ui_test_image, start_emulator, prepare_adb, check_device_booted,
  analyze_apk, install_apk, create_appium_config, create_perfetto_config, start_apk, start_perfetto,
  run_ui_test, stop_perfetto, stop_apk, uninstall_apk, pull_trace_file, delete_trace_file,
  delete_emulator, close_log_file, take_screenshot, ended, StateMachine,
}
use testbench.Tester.Successor.{successor, IsLive}
use testbench.Tester.Machine.{
  JobData, Settings, run_emulator, remove_container, close_log, write_log, World, Machine, History,
  Outcome, detach,
}
use testbench.Tester.Tasks.{is_headless, emulator_container, test_container, fsm_task, log}
use testbench.Tester.Loop.{task, abort_task, handler, run_job}
use testbench.Tester.Rules.{View, Triple, Triple-pass, perform_rule}
use testbench.Tester.Guarded.{merged_task, keeping_task, fsm_task_rule}
use testbench.Tester.Frame.{
  Ignores, keeps_rules, LogWorks, log_works, Triple-detach, start_rule, abort_rule,
}
use testbench.Tester.Runs.{IsInvariant}
use testbench.Tester.Ends.{Final-Closes, Closes, Unheard, run_job_rule}

-- An emulator was requested.
abbrev pub Started : History → Type 0
Started [] = ⊥
Started ((run_emulator i n k, ok) ∷ h) = Unit
Started ((_, ok) ∷ h) = Started h

-- The removal of the container `name` was requested.
abbrev pub Removed : String → History → Type 0
Removed name [] = ⊥
Removed name ((remove_container n, ok) ∷ h) = (n ≡ name) ⊎ Removed name h
Removed name ((_, ok) ∷ h) = Removed name h

abbrev pub IsSettled : String → History → Type 0
IsSettled name h = ¬ Started h ⊎ Removed name h

-- What is known of the calls in a state, for a headless emulator and for a device.
abbrev Known : Bool → String → State → History → Type 0
Known true name start_emulator h = Unit
Known true name prepare_adb h = Unit
Known true name check_device_booted h = Unit
Known true name analyze_apk h = Unit
Known true name install_apk h = Unit
Known true name create_appium_config h = Unit
Known true name create_perfetto_config h = Unit
Known true name start_apk h = Unit
Known true name start_perfetto h = Unit
Known true name run_ui_test h = Unit
Known true name take_screenshot h = Unit
Known true name stop_perfetto h = Unit
Known true name pull_trace_file h = Unit
Known true name stop_apk h = ⊥
Known true name uninstall_apk h = ⊥
Known true name delete_trace_file h = ⊥
Known true name _ h = IsSettled name h
Known false name start_emulator h = ⊥
Known false name delete_emulator h = ⊥
Known false name _ h = IsSettled name h

-- What is known when the state is entered: for the removal itself, nothing yet.
abbrev Entered : Bool → String → State → History → Type 0
Entered true name delete_emulator h = Unit
Entered hd name s h = Known hd name s h

edge-Known :
    (hd f : Bool) (name : String) (s : State) (h : History)
    → IsLive f s
    → Known hd name s h
    → Entered hd name (successor hd f s) h
edge-Known true true name initial h live k = k
edge-Known true true name _ h live k = ground arith
edge-Known true false name _ h live k = ground arith
edge-Known false true name _ h live k = ground arith
edge-Known false false name _ h live k = ground arith

-- The two views, in the state `x`.
abbrev In : Bool → String → State → View
In hd name x s f h = (s ≡ x) × Entered hd name x h

abbrev Out : Bool → String → State → View
Out hd name x s f h = (s ≡ x) × Known hd name x h

abbrev Settled : String → View
Settled name s f h = IsSettled name h

-- Any removal keeps what is settled.
abbrev Calm : String → State → View
Calm name x s f h = (s ≡ x) × IsSettled name h

Calm-remove :
    (name : String) (x : State) (other : String) → Ignores (Calm name x) (remove_container other)
Calm-remove name x other s f ok h (at, inl none_started) = (at, inl none_started)
Calm-remove name x other s f ok h (at, inr removed) = (at, inr (inr removed))

-- What is left where the process has ended.
abbrev Stopped : World → Settings → JobData → View
Stopped w cfg job s f h = Unheard (test_container w cfg job) h

module _ (w : World) (cfg : Settings) (job : JobData) (works : LogWorks w) (name : String) where
  cannot : {P : Type 0} (m : Machine) (t : String) → w.accepts m.history (write_log t) ≡ false → P
  cannot m t e = absurd (false≢true (sym e ∙ works m.history t))

  quiet_task :
      (x : State) (V : State → Bool → History → Type 0)
      → Triple (Stopped w cfg job) V V V (task w cfg job x)
      → Triple (Stopped w cfg job) V V (Stopped w cfg job) (abort_task w cfg job x)
      → ((s : State) (f : Bool) (h : History) → V s f h → V s true h)
      → Triple
          (Stopped w cfg job)
          V
          V
          (Settled name)
          (fsm_task w (task w cfg job x) (abort_task w cfg job x))
  quiet_task x V body aborted fails = keeping_task w body aborted fails (λ m t e v. cannot m t e)

  followed : {V : View} (text : String) → Triple (Stopped w cfg job) V V V (detach (log w text))
  followed text = Triple-detach _ (log_works w works text)

  task-Out :
      (hd : Bool) (x : State)
      → Triple
          (Stopped w cfg job)
          (Out hd name x)
          (Out hd name x)
          (Out hd name x)
          (task w cfg job x)
  unfolding task
  task-Out true start = search keeps_rules depth 20
  task-Out true delete_emulator = search (keeps_rules, Calm-remove)
  task-Out true build_ui_test_image = search (keeps_rules, followed) depth 20
  task-Out true start_emulator = start_rule w cfg job (λ i n k s f h v. v) (λ i n k s f h v. tt)
  task-Out true _ = search keeps_rules depth 20
  task-Out false start = search keeps_rules depth 20
  task-Out false build_ui_test_image = search (keeps_rules, followed) depth 20
  task-Out false start_emulator = start_rule w cfg job (λ i n k s f h v. v) (λ i n k s f h v. tt)
  task-Out false _ = search keeps_rules depth 20

  abort-Out :
      (hd : Bool) (x : State)
      → Triple
          (Stopped w cfg job)
          (Out hd name x)
          (Out hd name x)
          (Stopped w cfg job)
          (abort_task w cfg job x)
  unfolding abort_task
  abort-Out true start = Triple-pass
  abort-Out true run_ui_test =
      abort_rule w cfg job (log_works w works) (λ s f h v. v) (λ s f h v. inl refl)
  abort-Out true _ = Triple-pass
  abort-Out false run_ui_test =
      abort_rule w cfg job (log_works w works)
        (λ s f h v. Calm-remove name run_ui_test _ s f true h v) (λ s f h v. inl refl)
  abort-Out false _ = Triple-pass

  quiet :
      (hd : Bool) (x : State)
      → Triple
          (Stopped w cfg job)
          (Out hd name x)
          (Out hd name x)
          (Settled name)
          (fsm_task w (task w cfg job x) (abort_task w cfg job x))
  quiet hd x =
      keeping_task w (task-Out hd x) (abort-Out hd x) (λ s f h v. v) (λ m t e v. cannot m t e)

module _ (w : World) (cfg : Settings) (job : JobData) (works : LogWorks w) where
  abbrev container : String
  container = emulator_container w cfg job

  abbrev Settling : View
  Settling = Out true container delete_emulator

  -- The task that removes the container asks for it in any case.
  removal :
      Triple
        (Stopped w cfg job)
        (In true container delete_emulator)
        Settling
        (Settled container)
        (fsm_task w (task w cfg job delete_emulator) (abort_task w cfg job delete_emulator))
  unfolding task abort_task
  removal = merged_task (
      fsm_task_rule {Done = Settling} {Lost = Settling} (record {
        skip = λ m t e v. cannot w cfg job works container m t e;
        body = perform_rule w _ (λ m v e. (v.0, inr (inl refl))) (λ m v e. (v.0, inr (inl refl)));
        weaken = λ s f h v. v;
        aborted = abort-Out w cfg job works container true delete_emulator;
        gone = λ m t e v. cannot w cfg job works container m t e;
        fails = λ s f h v. v;
      }))

  handled :
      (hd : Bool) (x : State)
      → Triple
          (Stopped w cfg job)
          (In hd container x)
          (Out hd container x)
          (Settled container)
          (handler w cfg job x)
  unfolding handler
  handled true initial = Triple-pass
  handled false initial = Triple-pass
  handled true ended = Triple-pass
  handled false ended = Triple-pass
  handled true close_log_file = perform_rule w close_log (λ m v e. v) (λ m v e. v.1)
  handled false close_log_file = perform_rule w close_log (λ m v e. v) (λ m v e. v.1)
  handled true delete_emulator = removal
  handled true x = quiet w cfg job works container true _
  handled false x = quiet w cfg job works container false _

  invariant :
      IsInvariant w cfg job
        (Stopped w cfg job)
        (λ s f h. Entered (is_headless job) container s h)
        (λ s f h. Known (is_headless job) container s h)
        (Settled container)
  invariant = record {
    edge = λ s f h live k. edge-Known (is_headless job) f container s h live k;
    handled = handled (is_headless job);
  }

  begin : (hd : Bool) → Known hd container initial []
  begin true = inl (λ h. h)
  begin false = inl (λ h. h)

  end : (hd : Bool) (h : History) → Known hd container ended h → IsSettled container h
  end true h k = k
  end false h k = k

  -- Where the log accepts every line, a job ends. If it returns or throws and has asked for an
  -- emulator, it has asked for the removal of that emulator's container before. Else its process has
  -- ended, after docker refused to run the emulator or to remove the test's container for an expired
  -- test, for neither of which the job waits.
  pub emulator-removed :
      (lib : StateMachine)
      → (o : Outcome (Unit {0})) × (run_job w cfg job lib ≡ some o)
        × Closes (λ _ h. IsSettled container h) (Unheard (test_container w cfg job)) o
  emulator-removed lib =
      let (o, runs, final) = run_job_rule lib invariant (begin (is_headless job)) in
      (
        o,
        runs,
        Final-Closes (λ _ h. IsSettled container h) (Unheard (test_container w cfg job))
            (λ m k. end (is_headless job) _ k) (λ m k. k) (λ m k. k) o final,
      )
