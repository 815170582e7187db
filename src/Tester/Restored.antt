-- ===== src/Tester/Restored.antt =====
-- A device is left as it was found: the tasks of MobilePhoneTesterJob.ts on a device.
use testbench.Common.{◌≡◌, refl, Bool, true, false, Option, some, ◌∷◌, String, inl, inr, ◌+++◌, sym}
use mathlib.Core.Path.{subst}
use testbench.Tester.Table.{
  State, initial, start, build_ui_test_image, start_emulator, start_apk, start_perfetto,
  run_ui_test, stop_perfetto, uninstall_apk, delete_trace_file, close_log_file, ended, StateMachine,
}
use testbench.Tester.Successor.{successor}
use testbench.Tester.Machine.{
  uninstall, detach, JobData, Settings, World, Machine, History, ApkInfos, Outcome, pass, close_log,
}
use testbench.Tester.Tasks.{
  is_headless, device_trace, test_container, log, on_start_emulator, on_abort_ui_test,
}
use testbench.Tester.Loop.{task, abort_task, handler, run_job}
use testbench.Tester.Rules.{Ensures, good, bad, over, quiet}
use testbench.Tester.Frame.{LogWorks}
use testbench.Tester.Runs.{IsKept}
use testbench.Tester.Ends.{run_machine_rule, Final-Closes, Closes, Unheard}
use testbench.Tester.Track.{Sight, Sees, Track, track_rules, Track-pass, Track-then, Track-detach}
use testbench.Tester.Attempt.{
  logged, perform-Track, connect_rule, known_rule, asked_rule, DoneOr, Never, IsGuarded,
  guarded_rule,
}
use testbench.Tester.Device.{
  Post, Pre, edge-Post, IsRestored, killed, AppOwed, NoTest, NoStart-OnlyStarts, AppOwed-no_adb,
  AppOwed-no_apk, AppOwed-uninstalled, TestKilled-no_adb, TestKilled-removed,
}

module _ (w : World) (cfg : Settings) (job : JobData) (works : LogWorks w) where
  abbrev rm : String
  rm = "rm " +++ device_trace w cfg job

  -- What is left where the process has ended.
  abbrev Stopped : Sight
  Stopped f a i h = Unheard (test_container w cfg job) h

  -- The states whose tasks keep what is known.
  abbrev IsPlain : State → Type 0
  IsPlain start_apk = ⊥
  IsPlain stop_perfetto = ⊥
  IsPlain uninstall_apk = ⊥
  IsPlain delete_trace_file = ⊥
  IsPlain _ = Unit

  followed : {V : Sight} (text : String) → Track Stopped V V V (detach (log w text))
  followed text = Track-detach _ (logged w works text)

  task-Post :
      (x : State) → IsPlain x → Track Stopped (Post rm x) (Post rm x) (Post rm x) (task w cfg job x)
  unfolding task on_start_emulator
  task-Post start_apk p = absurd p
  task-Post stop_perfetto p = absurd p
  task-Post uninstall_apk p = absurd p
  task-Post delete_trace_file p = absurd p
  task-Post build_ui_test_image p = search (track_rules, followed) depth 20
  task-Post start_emulator p = Track-detach _ (
      asked_rule {V = Post rm start_emulator} {Q = Post rm start_emulator} {R = Stopped} w _
        (λ f a ok i h v. v) (λ f a ok i h v. absurd v))
  task-Post start p = search track_rules depth 20
  task-Post x p = search track_rules depth 20

  abort-Post :
      (x : State)
      → IsPlain x
      → Track Stopped (Post rm x) (Post rm x) Stopped (abort_task w cfg job x)
  unfolding abort_task on_abort_ui_test
  abort-Post run_ui_test p = Track-then (logged w works _) (
      Track-then {Q = Post rm run_ui_test}
        (perform-Track w _ (λ f a i h v. v) (λ f a i h v. inl refl)) (logged w works _))
  abort-Post _ p = Track-pass

  marked :
      (x : State)
      → IsPlain x
      → (f a : Bool) (i : Option ApkInfos) (h : History) → Post rm x f a i h
      → Post rm x true a i h
  marked start_perfetto p f a i h k = (k.0, k.1, λ e. cc)
  marked start_apk p f a i h k = absurd p
  marked _ p f a i h k = k

  -- What is left where a task of these states fails.
  abbrev Left : State → Sight
  Left start_apk f a i h = AppOwed a i h × NoTest h
  Left x f a i h = Post rm x f a i h

  start_app-Track :
      Track Stopped
        (Pre rm start_apk)
        (Post rm start_apk)
        (Left start_apk)
        (task w cfg job start_apk)
  unfolding task
  start_app-Track =
      Track-then {Q = λ f a i h. Pre rm start_apk f a i h × (a ≡ true)}
        (connect_rule (λ f i h v. (v, refl)) (λ f i h v. (inl v.0, v.1)))
        (known_rule
          (λ j.
            asked_rule w _
              (λ f a ok i h v. (
                inr (v.0.1, (j, v.1, (refl, NoStart-OnlyStarts _ h v.0.0.0))),
                v.0.0.1,
                λ e. v.0.1,
              ))
              (λ f a ok i h v.
                (inr (v.0.1, (j, v.1, (refl, NoStart-OnlyStarts _ h v.0.0.0))), v.0.0.1)))
          (λ f a h v. (inl v.0.0, v.0.1)))

  stop_perfetto-Track :
      Track Stopped
        (Pre rm stop_perfetto)
        (Post rm stop_perfetto)
        (Post rm stop_perfetto)
        (task w cfg job stop_perfetto)
  unfolding task
  stop_perfetto-Track =
      Track-then {Q = Pre rm stop_perfetto} (connect_rule (λ f i h v. v) (λ f i h v. cc)) (
        asked_rule w _ (λ f a ok i h v. (v.0, inr (v.1, killed ok h)))
          (λ f a ok i h v. (v.0, inr (v.1, killed ok h))))

  uninstall-Track :
      Track Stopped
        (Pre rm uninstall_apk)
        (Post rm uninstall_apk)
        (Post rm uninstall_apk)
        (task w cfg job uninstall_apk)
  unfolding task
  uninstall-Track =
      Track-then {Q = Pre rm uninstall_apk}
        (connect_rule (λ f i h v. v) (λ f i h v. (AppOwed-no_adb i h v.0, v.1)))
        (known_rule (λ j. asked_rule w _ (gone j) (gone j))
          (λ f a h v. (AppOwed-no_apk a h v.0, v.1)))
    where
      gone :
          (j : ApkInfos) (f a ok : Bool) (i : Option ApkInfos) (h : History)
          → Pre rm uninstall_apk f a i h × (i ≡ some j)
          → Post rm uninstall_apk f a i ((uninstall j.apk_package, ok) ∷ h)
      gone j f a ok i h (v, e) =
          (AppOwed-uninstalled a ok j h (subst (λ k. AppOwed a k h) e v.0), v.1)

  delete_trace-Track :
      Track Stopped
        (Pre rm delete_trace_file)
        (Post rm delete_trace_file)
        (Post rm delete_trace_file)
        (task w cfg job delete_trace_file)
  unfolding task
  delete_trace-Track =
      Track-then {Q = Pre rm delete_trace_file}
        (connect_rule (λ f i h v. v) (λ f i h v. (v.0, TestKilled-no_adb rm h v.1)))
        (asked_rule w _ (λ f a ok i h v. (v.0, TestKilled-removed rm a ok h v.1))
          (λ f a ok i h v. (v.0, TestKilled-removed rm a ok h v.1)))

  -- The task of a state, with what it needs and does.
  task-IsGuarded :
      (x : State)
      → IsGuarded
          (task w cfg job x)
          (abort_task w cfg job x)
          Stopped
          (Pre rm x)
          (Post rm x)
          (Left x)
  unfolding abort_task pass
  task-IsGuarded start_apk = record {
    body = start_app-Track;
    weaken = λ f a i h v. (v.0, v.1);
    aborted = record { from = λ s h. good (h.0, h.1) };
    marked = λ f a i h v. v;
  }
  task-IsGuarded stop_perfetto = record {
    body = stop_perfetto-Track;
    weaken = λ f a i h v. v;
    aborted = Track-pass;
    marked = λ f a i h v. v;
  }
  task-IsGuarded uninstall_apk = record {
    body = uninstall-Track;
    weaken = λ f a i h v. v;
    aborted = Track-pass;
    marked = λ f a i h v. v;
  }
  task-IsGuarded delete_trace_file = record {
    body = delete_trace-Track;
    weaken = λ f a i h v. v;
    aborted = Track-pass;
    marked = λ f a i h v. v;
  }
  task-IsGuarded x = record {
    body = task-Post x _;
    weaken = λ f a i h v. v;
    aborted = abort-Post x _;
    marked = marked x _;
  }

  done :
      (x : State) (f a : Bool) (i : Option ApkInfos) (h : History)
      → DoneOr (Post rm x) (Left x) f a i h
      → Post rm x f a i h
  done x f a i h (inl v) = v
  done start_apk f a i h (inr (v, e)) = (v.0, v.1, λ e'. cc)
  done x f a i h (inr (v, e)) = v

  abbrev Closed : Machine → Type 0
  Closed = Sees (Post rm ended)

  settle :
      (x : State) {o : Outcome (Unit {0})}
      → Ensures (Sees Stopped) (Sees (DoneOr (Post rm x) (Left x))) (Sees Never) o
      → Ensures (Sees Stopped) (Sees (Post rm x)) Closed o
  settle x (good h) = good (done x _ _ _ _ h)
  settle x (bad h) = absurd h
  settle x (over h) = over h

  handled :
      (x : State) (m : Machine)
      → Sees (Pre rm x) m
      → Ensures (Sees Stopped) (Sees (Post rm x)) Closed (handler w cfg job x m)
  unfolding handler pass
  handled initial m v = good v
  handled ended m v = good v
  handled close_log_file m v =
      (asked_rule {K = Stopped} {V = Post rm ended} {Q = Post rm ended} {R = Post rm ended} w
          close_log (λ f a ok i h k. k) (λ f a ok i h k. k)).from
        m v
  handled x m v = settle x ((guarded_rule w works (task-IsGuarded x)).from m v)

  device-IsKept :
      is_headless job ≡ false
      → IsKept w cfg job (λ x. Sees (Pre rm x)) (λ x. Sees (Post rm x)) (Sees Stopped) Closed
  device-IsKept device = record {
    leads = λ m live k.
        subst
          (λ b. Pre rm (successor b m.failed m.state) m.failed m.adb m.apk_infos (quiet m.history))
          (sym device) (edge-Post rm m.failed m.adb m.state m.apk_infos (quiet m.history) live k);
    kept = λ x m at v. handled x m v;
  }

  -- Where the log accepts every line, a job on a device ends. If it returns or throws, it has then
  -- asked to put the device back: each package that it asked to start it has asked to uninstall
  -- since, and if it asked for the container of the UI test, it has asked the device since then
  -- to stop the recording and to delete its file. Else its process has ended, after docker refused
  -- to run an emulator or to remove the test's container for an expired test, for neither of which
  -- the job waits.
  pub device-IsRestored :
      (lib : StateMachine)
      → is_headless job ≡ false
      → (o : Outcome (Unit {0})) × (run_job w cfg job lib ≡ some o)
        × Closes (λ _. IsRestored rm) (Unheard (test_container w cfg job)) o
  device-IsRestored lib device =
      let (o, runs, final) = run_machine_rule lib (device-IsKept device) (tt, tt) in
      (
        o,
        runs,
        Final-Closes (λ _. IsRestored rm) (Unheard (test_container w cfg job)) (λ m k. k) (λ m k. k)
            (λ m k. k) o final,
      )
