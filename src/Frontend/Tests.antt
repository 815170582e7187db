-- ===== src/Frontend/Tests.antt =====
-- The overview and the form of a job, at concrete inputs.
use testbench.Common.{
  ◌≡◌, refl, Bool, true, false, Option, none, some, List, [], ◌∷◌, ◌++◌, String, ◌===◌, map, ap,
  if◌then◌else◌,
}
use testbench.Tester.Tests.{table_machine, settings, rainy, rainy_log}
use testbench.Tester.Tasks.{is_headless}
use testbench.Management.Intake.{Body, EnvField, array}
use testbench.Management.Api.{Upload}
use testbench.Management.Queues.{JobJson, get_adb_device_infos}
use testbench.Management.Listing.{Queue}
use testbench.Management.Info.{RedisInfo, Sources}
use testbench.Frontend.Modal.{FormValue, text, file, Modal, new_modal, Input}
use testbench.Frontend.Overview.{
  Overview, new_overview, refreshed, row_of, status_of, refreshed-rows, show_new_job_modal,
}
use testbench.Frontend.Save.{FormParser, save, IsAsked, Saved, Unless, save-IsAsked, save_complete}
use testbench.Frontend.Headless.{filled, saved-Runs}
use testbench.Pipeline.{Runs}

abbrev no_body : Body
no_body = record {
  id = none;
  name = none;
  device = none;
  app_path = none;
  test_image_path = none;
  result_folder_path = none;
  config = none;
}

abbrev members : Option EnvField → List String
members (some (array env)) = env
members _ = []

abbrev with_field : String → String → Body → Body
with_field key value b =
    if key === "name"
    then record b { name = some value }
    else if key === "device"
    then record b { device = some value }
    else if key === "config[env][]"
    then record b { config = some (array (value ∷ members b.config)) }
    else b

-- A parser that knows the fields of the form.
abbrev parse_fields : List (String × FormValue) → Body
parse_fields [] = no_body
parse_fields ((key, text value) ∷ fields) = with_field key value (parse_fields fields)
parse_fields ((key, file f) ∷ fields) = parse_fields fields

abbrev env_fields : List String → FormValue → List (String × FormValue)
env_fields es v = map (λ (e : String). ("config[env][]", text e)) es ++ ("measurement_data", v) ∷ []

members-env_fields :
    (es : List String) (v : FormValue) → members (parse_fields (env_fields es v)).config ≡ es
members-env_fields [] (text t) = refl
members-env_fields [] (file f) = refl
members-env_fields (e ∷ es) v = ap (λ r. e ∷ r) (members-env_fields es v)

abbrev parser : FormParser
parser = record {
  parse = parse_fields;
  parse_lem = λ name device e es v. record {
    name_lem = refl;
    device_lem = refl;
    config_lem = ap (λ r. some (array (e ∷ r))) (members-env_fields es v);
  };
}

abbrev stored : Upload
stored = record { folder_made = true; stored = true; unpacked = true }

abbrev typed : Modal
typed = record new_modal { name = "n"; selected_device = " pixel "; env_strings = "A=1" ∷ "" ∷ [] }

save-IsAsked_example : Unless (IsAsked typed "u1") [] typed (save parser stored "u1" false [] typed)
save-IsAsked_example = save-IsAsked parser stored "u1" false [] typed

save_complete_example : Saved (IsAsked typed "u1") [] typed (save parser stored "u1" true [] typed)
save_complete_example =
    save_complete parser stored "u1" [] typed (refl, refl, refl) (refl, refl, refl)

abbrev report : RedisInfo
report = record {
  redis_version = "7";
  redis_mode = "standalone";
  tcp_port = "6379";
  os = "Linux";
  uptime_in_seconds = "1";
  total_system_memory = "0";
  maxmemory = "9";
  used_memory = "1";
  mem_fragmentation_ratio = "1";
  used_memory_peak = "2";
  connected_clients = "3";
  blocked_clients = "0";
}

abbrev broken : JobJson
broken = record {
  id = "1";
  timestamp = 0;
  processed_on = none;
  processed_by = none;
  finished_on = none;
  progress = "0";
  attempts_made = 1;
  delay = 0;
  failed_reason = some "late";
  stacktrace = none;
  opts = "{}";
  data_text = "{}";
  name = "n";
  returnvalue = "";
}

abbrev queue : Queue
queue = record {
  name = "q";
  counts = λ s. some 2;
  get_jobs = λ ss from until. some broken ∷ none ∷ [];
}

abbrev sources : Sources
sources = record {
  redis = some report;
  ui_tests_jobs_queue = queue;
  analyzer_jobs_queue = queue;
  status_jobs_queue = queue;
  workers = [];
  headless_emulator_available = true;
  adb = none;
}

abbrev not_empty : String → Bool
not_empty s = if s === "0" then false else true

abbrev text_of : String → String
text_of s = s

abbrev page : Overview String
page = refreshed text_of not_empty sources new_overview

refreshed-rows_example :
    (page.ui_test_jobs ≡ some (map (λ j. row_of (some j.progress) j) (broken ∷ [])))
    × (page.analyzer_jobs ≡ some (map (row_of none) (broken ∷ [])))
    × (page.status_jobs ≡ some (map status_of (broken ∷ [])))
    × (page.ui_test_queue_infos ≡ some queue.counts)
    × (page.analyzer_queue_infos ≡ some queue.counts)
    × (page.device_infos ≡ some (get_adb_device_infos true none))
refreshed-rows_example = refreshed-rows text_of not_empty sources report new_overview refl

abbrev inputs : List Input
inputs = Input.typed_name "n" ∷ Input.picked_device "HEADLESS_EMULATOR" ∷ []

abbrev form : Modal
form = filled inputs (show_new_job_modal page true new_modal)

saved-Runs_example :
    Unless
      (λ job.
        IsAsked form "u1" job
        × (is_headless job ≡ true)
        × Runs rainy settings rainy_log table_machine job)
      []
      form
      (save parser stored "u1" true [] form)
saved-Runs_example =
    saved-Runs rainy settings rainy_log table_machine text_of not_empty sources report new_overview
      new_modal inputs parser stored "u1" true true [] refl refl refl (tt, (refl, tt))
