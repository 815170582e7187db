-- ===== src/Tester/Loop.antt =====
-- The handler of each state and the main loop of MobilePhoneTesterJob.ts. The machine of
-- javascript-state-machine enters a state, then calls the state's handler and waits for it.
use testbench.Common.{ℕ, zero, suc, Bool, true, false, Option, none, some, []}
use mathlib.Core.Option
use testbench.Tester.Table.{
  State, initial, start, build_ui_test_image, start_emulator, prepare_adb, check_device_booted,
  analyze_apk, install_apk, create_appium_config, create_perfetto_config, start_apk, start_perfetto,
  run_ui_test, stop_perfetto, stop_apk, uninstall_apk, pull_trace_file, delete_trace_file,
  delete_emulator, create_analyzer_job, delete_ui_test_image, close_log_file, failed,
  take_screenshot, ended, state_eq, StateMachine,
}
use testbench.Tester.Successor.{next}
use testbench.Tester.Machine.{
  JobData, Settings, World, Machine, Outcome, resolved, rejected, crashed, M, pass,
}
use testbench.Tester.Tasks.{
  is_headless, fsm_task, on_start, on_build_ui_test_image, on_start_emulator, on_prepare_adb,
  on_check_device_booted, on_analyze_apk, on_install_apk, on_create_appium_config,
  on_create_perfetto_config, on_start_apk, on_start_perfetto, on_run_ui_test, on_abort_ui_test,
  on_stop_perfetto, on_stop_apk, on_uninstall_apk, on_pull_trace_file, on_delete_trace_file,
  on_delete_emulator, on_create_analyzer_job, on_delete_ui_test_image, on_failed,
  on_take_screenshot, on_close_log_file,
}

-- `let adb; let apkInfos; … failed: false`
abbrev pub new_machine : Machine
new_machine = record {
  state = initial;
  failed = false;
  adb = false;
  adb_config_string = "undefined";
  apk_infos = none;
  history = [];
}

-- `if (failed) throw`
unfoldable pub throw_if : Bool → Machine → Outcome (Unit {0})
throw_if true m = rejected m
throw_if false m = resolved tt m

-- The job's function: it throws after the loop if a task has failed.
unfoldable pub verdict : Outcome (Unit {0}) → Outcome (Unit {0})
unfolding throw_if
verdict (resolved _ m) = throw_if m.failed m
verdict (rejected m) = rejected m
verdict (crashed m) = crashed m

module _ (w : World) (cfg : Settings) (job : JobData) where
  -- What the state does, and what it does when its timeout fires.
  unfoldable pub task : State → M (Unit {0})
  unfolding on_start on_build_ui_test_image on_start_emulator on_prepare_adb on_check_device_booted
      on_analyze_apk on_install_apk on_create_appium_config on_create_perfetto_config on_start_apk
      on_start_perfetto on_run_ui_test on_stop_perfetto on_stop_apk on_uninstall_apk
      on_pull_trace_file on_delete_trace_file on_delete_emulator on_create_analyzer_job
      on_delete_ui_test_image on_failed on_take_screenshot
  task start = on_start w cfg job
  task build_ui_test_image = on_build_ui_test_image w cfg job
  task start_emulator = on_start_emulator w cfg job
  task prepare_adb = on_prepare_adb w cfg job
  task check_device_booted = on_check_device_booted w cfg job
  task analyze_apk = on_analyze_apk w cfg job
  task install_apk = on_install_apk w cfg job
  task create_appium_config = on_create_appium_config w cfg job
  task create_perfetto_config = on_create_perfetto_config w cfg job
  task start_apk = on_start_apk w cfg job
  task start_perfetto = on_start_perfetto w cfg job
  task run_ui_test = on_run_ui_test w cfg job
  task stop_perfetto = on_stop_perfetto w cfg job
  task stop_apk = on_stop_apk w cfg job
  task uninstall_apk = on_uninstall_apk w cfg job
  task pull_trace_file = on_pull_trace_file w cfg job
  task delete_trace_file = on_delete_trace_file w cfg job
  task delete_emulator = on_delete_emulator w cfg job
  task create_analyzer_job = on_create_analyzer_job w cfg job
  task delete_ui_test_image = on_delete_ui_test_image w cfg job
  task failed = on_failed w cfg job
  task take_screenshot = on_take_screenshot w cfg job
  task _ = pass

  unfoldable pub abort_task : State → M (Unit {0})
  unfolding on_abort_ui_test
  abort_task run_ui_test = on_abort_ui_test w cfg job
  abort_task _ = pass

  -- The final and the first state have no handler, and the log file is closed without a task.
  unfoldable pub handler : State → M (Unit {0})
  unfolding on_close_log_file
  handler initial = pass
  handler ended = pass
  handler close_log_file = on_close_log_file w cfg job
  handler s = fsm_task w (task s) (abort_task s)

  unfoldable pub enter : State → M (Unit {0})
  enter s m = handler s (record m { state = s })

  unfoldable pub advance : StateMachine → M (Unit {0})
  advance lib m = elim (next lib (is_headless job) m.failed m.state) [
    | none ↦ rejected m
    | some s ↦ enter s m
  ]

  -- `while (state !== ENDE)`; `none` means that the fuel ran out.
  unfoldable pub loop : StateMachine → ℕ → Machine → Option (Outcome (Unit {0}))
  loop lib zero m = none
  loop lib (suc fuel) m = elim (state_eq m.state ended) [
    | true ↦ some (resolved tt m)
    | false ↦ elim (advance lib m) [
      | resolved _ t ↦ loop lib fuel t
      | rejected t ↦ some (rejected t)
      | crashed t ↦ some (crashed t)
    ]
  ]

  unfoldable pub run_job : StateMachine → Option (Outcome (Unit {0}))
  run_job lib = Option.map verdict (loop lib 24 new_machine)
