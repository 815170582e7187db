-- ===== src/Tester/Tasks.antt =====
-- helper.ts, and the methods `onStart` to `onCloseLogFile` of MobilePhoneTesterJob.ts. A block that
-- the source retries (promise.retry) stands once: the answers are those of its last attempt.
use testbench.Common.{
  Bool, true, false, ◌&&◌, ◌||◌, Option, none, some, String, ◌===◌, ◌+++◌, if◌then◌else◌, is_truthy,
  ◌==◌,
}
use text.Mathlib.Text.{starts_with}
use testbench.Tester.Table.{
  State, initial, start, build_ui_test_image, start_emulator, prepare_adb, check_device_booted,
  analyze_apk, install_apk, create_appium_config, create_perfetto_config, start_apk, start_perfetto,
  run_ui_test, stop_perfetto, stop_apk, uninstall_apk, pull_trace_file, delete_trace_file,
  delete_emulator, create_analyzer_job, delete_ui_test_image, close_log_file, failed,
  take_screenshot, ended,
}
use testbench.Tester.Machine.{
  JobData, Settings, ApkInfos, World, resolved, rejected, M, ◌>>=◌, ◌>>◌, pass, throw, ensure,
  observe, detach, catch, set_failed, perform, write_log, add_status, build_image, follow_progress,
  inspect_image, run_emulator, create_adb, wait_for_device, get_device_property, read_manifest,
  install, read_file, write_file, chown, exec, start_app, run_container, shell, kill_package,
  uninstall, remove_container, add_analyzer_job, update_progress, remove_image, close_log,
}

-- The name of a state in the source.
abbrev pub label : State → String
label initial = "none"
label start = "start"
label build_ui_test_image = "build-ui-test-image"
label start_emulator = "start-emulator"
label prepare_adb = "prepare-adb"
label check_device_booted = "check-device-booted"
label analyze_apk = "analyze-apk"
label install_apk = "install-apk"
label create_appium_config = "create-appium-config"
label create_perfetto_config = "create-perfetto-config"
label start_apk = "start-apk"
label start_perfetto = "start-perfetto"
label run_ui_test = "run-ui-test"
label stop_perfetto = "stop-perfetto"
label stop_apk = "stop-apk"
label uninstall_apk = "uninstall-apk"
label pull_trace_file = "pull-trace-file"
label delete_trace_file = "delete-trace-file"
label delete_emulator = "delete-emulator"
label create_analyzer_job = "create-analyzer-job"
label delete_ui_test_image = "delete-ui-test-image"
label close_log_file = "close-log-file"
label failed = "failed"
label take_screenshot = "take-screenshot"
label ended = "ENDE"

abbrev pub headless_emulator : String
headless_emulator = "HEADLESS_EMULATOR"

abbrev pub is_headless : JobData → Bool
is_headless job = job.device === headless_emulator

-- An unfinished variable fails with a TypeError when a method of it is called.
unfoldable pub with_adb : M (Unit {0})
unfolding ensure
with_adb s = ensure s.adb s

unfoldable pub with_apk : M ApkInfos
with_apk s = elim s.apk_infos [ none ↦ rejected s | some i ↦ resolved i s ]

unfoldable pub set_adb_config : String → M (Unit {0})
set_adb_config text s = resolved tt (record s { adb_config_string = text })

unfoldable pub set_adb : M (Unit {0})
set_adb s = resolved tt (record s { adb = true })

unfoldable pub set_apk : Option ApkInfos → M (Unit {0})
set_apk i s = resolved tt (record s { apk_infos = i })

unfoldable pub adb_config : M String
adb_config s = resolved s.adb_config_string s

abbrev has_both : Option ApkInfos → Bool
has_both none = false
has_both (some i) = is_truthy i.apk_package && is_truthy i.apk_activity

-- `if (b) m`
unfoldable pub when : Bool → M (Unit {0}) → M (Unit {0})
unfolding pass
when true m = m
when false m = pass

module _ (w : World) where
  -- `log`, the time stamp and the console left out.
  unfoldable pub log : String → M (Unit {0})
  log text = perform w (write_log text)

  -- The task under its timeout; `on_abort` listens to the signal that the timeout raises.
  unfoldable pub with_timeout : M (Unit {0}) → M (Unit {0}) → M (Unit {0})
  with_timeout fn on_abort = do
    fn
    late ← observe w.timed_out
    when late (do detach on_abort; throw)

  -- The body of the `try`, for the name of the state.
  unfoldable pub attempt : String → M (Unit {0}) → M (Unit {0}) → M (Unit {0})
  attempt name fn on_abort = do
    log ("Start: " +++ name)
    with_timeout fn on_abort
    log ("Erfolgreich: " +++ name)

  -- The body of the `catch`.
  unfoldable pub give_up : String → M (Unit {0})
  give_up name = do
    error ← observe w.reason
    log ("Fehlgeschlagen: " +++ name +++ ". Folgender Fehler: " +++ error)
    set_failed

  unfoldable pub fsm_task : M (Unit {0}) → M (Unit {0}) → M (Unit {0})
  fsm_task fn on_abort s =
      let name = label s.state in catch (attempt name fn on_abort) (give_up name) s

module _ (w : World) (cfg : Settings) (job : JobData) where
  unfoldable pub results : String
  results = cfg.job_data_dir +++ "/" +++ job.result_folder_path

  unfoldable pub image_name : String
  image_name = "miles_image-" +++ job.uuid

  unfoldable pub test_container : String
  test_container = "ui_test_" +++ job.uuid

  unfoldable pub emulator_container : String
  emulator_container = "emulator_" +++ job.uuid

  unfoldable pub network : String
  network = cfg.project_name +++ "_internal_network"

  unfoldable pub device_trace : String
  device_trace = "/data/misc/perfetto-traces/" +++ job.uuid +++ ".perfetto-trace"

  unfoldable pub adb_host : String
  adb_host = if is_headless job then emulator_container else cfg.adb_server_address

  unfoldable pub on_start : M (Unit {0})
  on_start = do
    log w ("Job-Info: " +++ w.job_info)
    perform w (add_status job.name job.uuid "MEASUREMENT_STARTED")

  unfoldable pub on_build_ui_test_image : M (Unit {0})
  on_build_ui_test_image = do
    perform w (build_image (cfg.job_data_dir +++ "/" +++ job.test_image_path) image_name)
    output ← observe w.build_output
    detach (log w ("Docker-build Ausgabe: " +++ output))
    perform w follow_progress
    perform w (inspect_image image_name)
    created ← observe w.image_created
    ensure created

  -- Nobody waits for the container, which never ends by itself; where docker refuses to run it, the
  -- process ends.
  unfoldable pub on_start_emulator : M (Unit {0})
  on_start_emulator = detach (
      perform w (run_emulator (cfg.project_name +++ "_emulator:latest") emulator_container network))

  unfoldable pub on_prepare_adb : M (Unit {0})
  on_prepare_adb = do
    set_adb_config (
        if is_headless job
        then "-H " +++ adb_host +++ " -P 5037"
        else "-H " +++ adb_host +++ " -P 5037" +++ " -s " +++ job.device)
    perform w (create_adb adb_host (if is_headless job then none else some job.device))
    set_adb

  unfoldable pub on_check_device_booted : M (Unit {0})
  on_check_device_booted = do
    with_adb
    perform w wait_for_device
    perform w (get_device_property "sys.boot_completed")
    value ← observe w.property_value
    ensure ("1" === value)

  unfoldable pub on_analyze_apk : M (Unit {0})
  on_analyze_apk = do
    with_adb
    perform w (read_manifest (cfg.job_data_dir +++ "/" +++ job.app_path))
    infos ← observe w.manifest
    set_apk infos
    ensure (has_both infos)

  unfoldable pub on_install_apk : M (Unit {0})
  on_install_apk = do with_adb; perform w (install (cfg.job_data_dir +++ "/" +++ job.app_path))

  unfoldable pub on_create_appium_config : M (Unit {0})
  on_create_appium_config = do
    perform w (read_file cfg.appium_template_path)
    template ← observe w.file_content
    perform w (
        write_file (results +++ "/appiumConfig.js") (
          w.render template (if is_headless job then emulator_container else "appium")
            (if is_headless job then "" else "'appium:udid': '" +++ job.device +++ "',")
            (if is_headless job then "" else "'appium:host': \"host.docker.internal\",")))
    perform w (chown (results +++ "/appiumConfig.js"))

  unfoldable pub on_create_perfetto_config : M (Unit {0})
  on_create_perfetto_config = perform w (
      exec (
        "protoc --encode=perfetto.protos.TraceConfig -I " +++ cfg.proto_directory_path +++ " "
        +++ cfg.proto_file_path +++ " < " +++ cfg.perfetto_config_path +++ " > " +++ results
        +++ "/perfetto-config.bin"))

  unfoldable pub on_start_apk : M (Unit {0})
  on_start_apk = do with_adb; i ← with_apk; perform w (start_app i.apk_package i.apk_activity)

  unfoldable pub on_start_perfetto : M (Unit {0})
  on_start_perfetto = do
    adb ← adb_config
    perform w (
        exec (
          "cat " +++ results +++ "/perfetto-config.bin | adb " +++ adb
          +++ " shell perfetto --background -c - -o " +++ device_trace))

  -- The listener that removes the test's container when the timeout fires; nobody waits for it.
  unfoldable pub on_abort_ui_test : M (Unit {0})
  on_abort_ui_test = do
    log w "Timeout --> Versuch, die Oberflächentests zu beenden"
    perform w (remove_container test_container)
    log w "Timeout --> Oberflächentests erfolgreich beendet"

  unfoldable pub on_run_ui_test : M (Unit {0})
  on_run_ui_test = do
    perform w (
        run_container image_name test_container network
          (cfg.host_path_to_job_dir +++ "/" +++ job.result_folder_path
            +++ "/appiumConfig.js:/usr/src/app/appiumConfig.js")
          job.env)
    code ← observe w.exit_code
    ensure (code == 0)

  unfoldable pub on_stop_perfetto : M (Unit {0})
  on_stop_perfetto = do with_adb; perform w (shell "killall perfetto")

  unfoldable pub on_stop_apk : M (Unit {0})
  on_stop_apk = do with_adb; i ← with_apk; perform w (kill_package i.apk_package)

  unfoldable pub on_uninstall_apk : M (Unit {0})
  on_uninstall_apk = do with_adb; i ← with_apk; perform w (uninstall i.apk_package)

  unfoldable pub pull_command : String → String
  pull_command adb =
      "adb " +++ adb +++ " exec-out cat " +++ device_trace +++ " > " +++ results
      +++ "/trace.perfetto-trace"

  unfoldable pub on_pull_trace_file : M (Unit {0})
  on_pull_trace_file = do adb ← adb_config; perform w (exec (pull_command adb))

  unfoldable pub on_delete_trace_file : M (Unit {0})
  on_delete_trace_file = do with_adb; perform w (shell ("rm " +++ device_trace))

  unfoldable pub on_delete_emulator : M (Unit {0})
  on_delete_emulator = perform w (remove_container emulator_container)

  unfoldable pub on_create_analyzer_job : M (Unit {0})
  on_create_analyzer_job = do
    perform w (
        add_analyzer_job job.name job.uuid (job.result_folder_path +++ "/trace.perfetto-trace")
          job.result_folder_path (is_headless job || starts_with job.device "emulator-") job.uuid)
    log w "Analyzer Job erstellt"
    perform w (update_progress 100)

  unfoldable pub on_delete_ui_test_image : M (Unit {0})
  on_delete_ui_test_image = perform w (remove_image image_name)

  unfoldable pub on_failed : M (Unit {0})
  on_failed = perform w (add_status job.name job.uuid "MEASUREMENT_FAILED")

  unfoldable pub on_take_screenshot : M (Unit {0})
  on_take_screenshot = do
    adb ← adb_config
    perform w (
        exec (
          "adb " +++ adb +++ " exec-out screencap -p > " +++ results
          +++ "/emulator_screen_on_failure.png "))

  unfoldable pub on_close_log_file : M (Unit {0})
  on_close_log_file = perform w close_log
