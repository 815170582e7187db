-- ===== src/Tester/Tests.antt =====
-- A job on the headless emulator, one on a device, and a table-driven machine to run them on.
use testbench.Common.{◌≡◌, refl, Bool, true, false, not, some, [], is_some}
use testbench.Tester.Table.{row_of, target_of, StateMachine}
use testbench.Tester.Machine.{JobData, Settings, World, Call, run_container, Outcome, Machine}
use testbench.Tester.Tasks.{emulator_container, test_container, pull_command}
use testbench.Tester.Loop.{run_job}
use testbench.Tester.Frame.{LogWorks}
use testbench.Tester.Ends.{calls_of, Closes, Unheard}
use testbench.Tester.Cleanup.{IsSettled, emulator-removed}
use testbench.Tester.Analysis.{IsJustified, analysis-IsJustified}
use testbench.Tester.Loop.{new_machine}
use testbench.Tester.Loop.{loop, verdict}
use testbench.Tester.Heard.{IsGranted, IsOver, job_returns}
use testbench.Tester.Rules.{quiet}
use testbench.Tester.Fuel.{loop-enough_fuel}
use testbench.Common.{ℕ, ◌≤◌}
use testbench.Tester.Tasks.{device_trace}
use testbench.Tester.Device.{IsRestored}
use testbench.Tester.Restored.{device-IsRestored}
use testbench.Common.{◌+++◌}
use testbench.Tester.Worker.{Worker, each_run}
use testbench.Tester.Status.{FailureAsked, Queued, IsSilent, report_complete}

-- The package's answers, read off the rows.
abbrev pub table_machine : StateMachine
table_machine = record {
  can = λ rows e s. is_some (row_of e s rows);
  fire = λ rows e s f. target_of f (row_of e s rows);
  can_lem = λ rows e s. refl;
  fire_lem = λ rows e s f. refl;
}

abbrev pub settings : Settings
settings = record {
  job_data_dir = "/data";
  host_path_to_job_dir = "/host";
  project_name = "miles";
  adb_server_address = "adb";
  perfetto_config_path = "p.pbtx";
  proto_directory_path = "res";
  proto_file_path = "p.proto";
  appium_template_path = "a.template";
}

abbrev pub emulator_job : JobData
emulator_job = record {
  name = "n";
  uuid = "u1";
  device = "HEADLESS_EMULATOR";
  app_path = "a.apk";
  test_image_path = "us/0";
  result_folder_path = "results";
  env = [];
}

abbrev pub device_job : JobData
device_job = record emulator_job { device = "pixel" }

-- Every call is fulfilled but those that `refuses` names.
abbrev world : (Call → Bool) → World
world refuses = record {
  accepts = λ h c. not (refuses c);
  timed_out = λ h. false;
  manifest = λ h. some (record { apk_package = "p"; apk_activity = "a" });
  exit_code = λ h. 0;
  image_created = λ h. true;
  property_value = λ h. "1";
  file_content = λ h. "";
  reason = λ h. "";
  build_output = λ h. "";
  job_info = "";
  render = λ t a b c. t;
}

abbrev refuses_test : Call → Bool
refuses_test (run_container i n k b e) = true
refuses_test _ = false

abbrev pub sunny : World
sunny = world (λ c. false)

abbrev pub rainy : World
rainy = world refuses_test

pub sunny_log : LogWorks sunny
sunny_log h t = refl

pub rainy_log : LogWorks rainy
rainy_log h t = refl

emulator-removed_example :
    (o : Outcome (Unit {0})) × (run_job rainy settings emulator_job table_machine ≡ some o)
    × Closes
        (λ _ h. IsSettled (emulator_container rainy settings emulator_job) h)
        (Unheard (test_container rainy settings emulator_job))
        o
emulator-removed_example = emulator-removed rainy settings emulator_job rainy_log table_machine

analysis-IsJustified_example :
    (o : Outcome (Unit {0})) × (run_job sunny settings device_job table_machine ≡ some o)
    × IsJustified (pull_command sunny settings device_job) (calls_of o)
analysis-IsJustified_example = analysis-IsJustified sunny settings device_job table_machine

report_complete_example :
    (o : Outcome (Unit {0})) × (run_job rainy settings device_job table_machine ≡ some o)
    × Closes
        (λ f h.
          (f ≡ true → FailureAsked device_job h) × (f ≡ false → Queued device_job h × IsSilent h))
        (Unheard (test_container rainy settings device_job))
        o
report_complete_example = report_complete rainy settings device_job rainy_log table_machine

loop-enough_fuel_example :
    (o : Outcome (Unit {0})) × (run_job rainy settings device_job table_machine ≡ some (verdict o))
    × ((fuel : ℕ)
        → 24 ≤ fuel
        → loop rainy settings device_job table_machine fuel new_machine ≡ some o)
loop-enough_fuel_example = loop-enough_fuel rainy settings device_job table_machine

device-IsRestored_example :
    (o : Outcome (Unit {0})) × (run_job rainy settings device_job table_machine ≡ some o)
    × Closes
        (λ _. IsRestored ("rm " +++ device_trace rainy settings device_job))
        (Unheard (test_container rainy settings device_job))
        o
device-IsRestored_example = device-IsRestored rainy settings device_job rainy_log table_machine refl

abbrev one_by_one : Worker
one_by_one = record { process = each_run; process_lem = λ run queue. refl }

rainy-IsGranted : IsGranted rainy settings emulator_job
rainy-IsGranted = record { runs = λ h i n k. refl; removes = λ h. refl }

job_returns_example :
    (o : Outcome (Unit {0})) × (run_job rainy settings emulator_job table_machine ≡ some o)
    × ((m : Machine) × IsOver m o
        × IsSettled (emulator_container rainy settings emulator_job) (quiet m.history)
        × ((m.failed ≡ true → FailureAsked emulator_job (quiet m.history))
            × (m.failed ≡ false
                → Queued emulator_job (quiet m.history) × IsSilent (quiet m.history))))
job_returns_example =
    job_returns rainy settings emulator_job rainy_log rainy-IsGranted table_machine
