-- ===== src/Tester/Machine.antt =====
-- What a measurement job keeps while it runs, the calls that it makes of other systems (docker, adb,
-- the queues, the file system), and the answers of those systems, which the job cannot choose.
use testbench.Common.{ℕ, Bool, true, false, Option, List, ◌∷◌, String}
use testbench.Tester.Table.{State}

-- `job.data`, as the management service queues it.
pub record JobData : Type 0 where
  pub name : String
  pub uuid : String
  pub device : String
  pub app_path : String
  pub test_image_path : String
  pub result_folder_path : String
  pub env : List String

-- The worker's environment variables, and the three paths that node's `path.resolve` gives.
pub record Settings : Type 0 where
  pub job_data_dir : String
  pub host_path_to_job_dir : String
  pub project_name : String
  pub adb_server_address : String
  pub perfetto_config_path : String
  pub proto_directory_path : String
  pub proto_file_path : String
  pub appium_template_path : String

-- The package and the launch activity that adb reads from the APK.
pub record ApkInfos : Type 0 where
  pub apk_package : String
  pub apk_activity : String

pub data Call : Type 0 where
  write_log : String → Call
  add_status : (name id status : String) → Call
  build_image : (path tag : String) → Call
  follow_progress : Call
  inspect_image : (tag : String) → Call
  run_emulator : (image name network : String) → Call
  create_adb : (host : String) (udid : Option String) → Call
  wait_for_device : Call
  get_device_property : (property : String) → Call
  read_manifest : (path : String) → Call
  install : (path : String) → Call
  read_file : (path : String) → Call
  write_file : (path content : String) → Call
  chown : (path : String) → Call
  exec : (command : String) → Call
  start_app : (pkg activity : String) → Call
  run_container : (image name network bind : String) (env : List String) → Call
  shell : (command : String) → Call
  kill_package : (pkg : String) → Call
  uninstall : (pkg : String) → Call
  remove_container : (name : String) → Call
  add_analyzer_job :
      (name uuid tracefile_path result_folder : String) (is_emulator : Bool) (job_id : String)
      → Call
  update_progress : ℕ → Call
  remove_image : (tag : String) → Call
  close_log : Call

-- The calls made so far, the last one first, each with whether its promise was fulfilled.
abbrev pub History : Type 0
History = List (Call × Bool)

-- The answers of the other systems, which may depend on all that was called before.
pub record World : Type 0 where
  pub accepts : History → Call → Bool
  pub timed_out : History → Bool  -- the task's promise.timeout fires
  pub manifest : History → Option ApkInfos
  pub exit_code : History → ℕ
  pub image_created : History → Bool
  pub property_value : History → String
  pub file_content : History → String
  pub reason : History → String  -- the text of the last rejection
  pub build_output : History → String
  pub job_info : String  -- JSON.stringify(job.data)
  pub render : String → String → String → String → String  -- Mustache.render

pub record Machine : Type 0 where
  pub state : State
  pub failed : Bool
  pub adb : Bool  -- whether the variable `adb` holds a connection
  pub adb_config_string : String
  pub apk_infos : Option ApkInfos
  pub history : History

-- An asynchronous function: it resolves with a value, or rejects, and leaves the machine changed; or
-- the process that runs the job has ended, which no `catch` hears of.
pub data Outcome {ℓ} (A : Type ℓ) : Type ℓ where
  resolved : A → Machine → Outcome A
  rejected : Machine → Outcome A
  crashed : Machine → Outcome A

abbrev pub M : Type 0 → Type 0
M A = Machine → Outcome A

infixl 5 ◌>>=◌ ◌>>◌
unfoldable pub ◌>>=◌ : {A B : Type 0} → M A → (A → M B) → M B
◌>>=◌ m f s = elim (m s) [ resolved a t ↦ f a t | rejected t ↦ rejected t | crashed t ↦ crashed t ]

unfoldable pub ◌>>◌ : {B : Type 0} → M (Unit {0}) → M B → M B
unfolding ◌>>=◌
m >> k = m >>= λ _. k

unfoldable pub pass : M (Unit {0})
pass s = resolved tt s

unfoldable pub throw : M (Unit {0})
throw s = rejected s

unfoldable pub ensure : Bool → M (Unit {0})
ensure true s = resolved tt s
ensure false s = rejected s

-- A value that the other systems give at this point.
unfoldable pub observe : {A : Type 0} → (History → A) → M A
observe f s = resolved (f s.history) s

-- A promise that nobody waits for: where it rejects, node ends the process.
unfoldable pub detach : M (Unit {0}) → M (Unit {0})
detach m s = elim (m s) [
  | resolved _ t ↦ resolved tt t
  | rejected t ↦ crashed t
  | crashed t ↦ crashed t
]

-- try { m } catch { handler }
unfoldable pub catch : M (Unit {0}) → M (Unit {0}) → M (Unit {0})
catch m handler s = elim (m s) [
  | resolved _ t ↦ resolved tt t
  | rejected t ↦ handler t
  | crashed t ↦ crashed t
]

unfoldable pub set_failed : M (Unit {0})
set_failed s = resolved tt (record s { failed = true })

abbrev pub record_call : Call → Bool → Machine → Machine
record_call c ok s = record s { history = (c, ok) ∷ s.history }

abbrev pub answer : Call → Bool → M (Unit {0})
answer c true s = resolved tt (record_call c true s)
answer c false s = rejected (record_call c false s)

-- Make a call and wait for it.
unfoldable pub perform : World → Call → M (Unit {0})
perform w c s = answer c (w.accepts s.history c) s
