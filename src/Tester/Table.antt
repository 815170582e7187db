-- ===== src/Tester/Table.antt =====
-- The states, events and transition table of MobilePhoneTesterJob.ts (the argument of
-- `new StateMachine`), and what the job relies on in the package javascript-state-machine.
use testbench.Common.{
  ℕ, zero, ◌≡◌, Bool, true, false, not, ◌&&◌, Option, none, some, List, [], ◌∷◌, is_some,
  if◌then◌else◌,
}

-- `initial` is the package's state "none", `ended` is MAGIC_STRING_FINAL_STATE.
pub data State : Type 0 where
  initial start build_ui_test_image start_emulator prepare_adb check_device_booted : State
  analyze_apk install_apk create_appium_config create_perfetto_config start_apk : State
  start_perfetto run_ui_test stop_perfetto stop_apk uninstall_apk pull_trace_file : State
  delete_trace_file delete_emulator create_analyzer_job delete_ui_test_image : State
  close_log_file failed take_screenshot ended : State

pub data Event : Type 0 where
  step error : Event

-- A position in the list of states, by which states are compared.
abbrev pub index : State → ℕ
index initial = 0
index start = 1
index build_ui_test_image = 2
index start_emulator = 3
index prepare_adb = 4
index check_device_booted = 5
index analyze_apk = 6
index install_apk = 7
index create_appium_config = 8
index create_perfetto_config = 9
index start_apk = 10
index start_perfetto = 11
index run_ui_test = 12
index stop_perfetto = 13
index stop_apk = 14
index uninstall_apk = 15
index pull_trace_file = 16
index delete_trace_file = 17
index delete_emulator = 18
index create_analyzer_job = 19
index delete_ui_test_image = 20
index close_log_file = 21
index failed = 22
index take_screenshot = 23
index ended = 24

-- A row of the table. `to` is a function of the machine's `failed`; a fixed target ignores it.
pub record Row : Type 0 where
  pub name : Event
  pub from : State
  pub to : Bool → State

abbrev row : Event → State → (Bool → State) → Row
row e s t = record { name = e; from = s; to = t }

-- The rows of the table, for `isHeadlessEmulator`.
unfoldable pub transitions : Bool → List Row
transitions headless =
    row step initial (λ _. start)
    ∷ row step start (λ _. build_ui_test_image)
    ∷ row step build_ui_test_image (λ _. if headless then start_emulator else prepare_adb)
    ∷ row step start_emulator (λ _. prepare_adb)
    ∷ row step prepare_adb (λ _. check_device_booted)
    ∷ row step check_device_booted (λ _. analyze_apk)
    ∷ row step analyze_apk (λ _. install_apk)
    ∷ row step install_apk (λ _. create_appium_config)
    ∷ row step create_appium_config (λ _. create_perfetto_config)
    ∷ row step create_perfetto_config (λ _. start_apk)
    ∷ row step start_apk (λ _. start_perfetto)
    ∷ row step start_perfetto (λ _. run_ui_test)
    ∷ row step run_ui_test (λ _. stop_perfetto)
    ∷ row step stop_perfetto (λ _. if not headless then stop_apk else pull_trace_file)
    ∷ row step stop_apk (λ _. uninstall_apk)
    ∷ row step uninstall_apk (λ _. pull_trace_file)
    ∷ row step pull_trace_file (λ _. if not headless then delete_trace_file else delete_emulator)
    ∷ row step delete_trace_file (λ f. if f then delete_ui_test_image else create_analyzer_job)
    ∷ row step delete_emulator (λ f. if f then delete_ui_test_image else create_analyzer_job)
    ∷ row step create_analyzer_job (λ _. delete_ui_test_image)
    ∷ row step delete_ui_test_image (λ _. close_log_file)
    ∷ row step failed (λ _. close_log_file)
    ∷ row step close_log_file (λ _. ended)
    ∷ row error build_ui_test_image (λ _. failed)
    ∷ row error start_emulator (λ _. delete_emulator)
    ∷ row error check_device_booted
        (λ _. if headless then delete_emulator else delete_ui_test_image)
    ∷ row error analyze_apk (λ _. if headless then delete_emulator else delete_ui_test_image)
    ∷ row error install_apk (λ _. if headless then delete_emulator else delete_ui_test_image)
    ∷ row error start_apk (λ _. if headless then delete_emulator else uninstall_apk)
    ∷ row error start_perfetto (λ _. if headless then delete_emulator else stop_apk)
    ∷ row error run_ui_test (λ _. take_screenshot)
    ∷ row error take_screenshot (λ _. if headless then delete_emulator else stop_perfetto)
    ∷ row error delete_ui_test_image (λ _. failed)
    ∷ []

abbrev event_eq : Event → Event → Bool
event_eq step step = true
event_eq error error = true
event_eq _ _ = false

abbrev pub state_eq : State → State → Bool
state_eq s t = testbench.Common.◌==◌ (index s) (index t)

-- The row that an event of a given name uses in a state.
unfoldable pub row_of : Event → State → List Row → Option Row
row_of e s [] = none
row_of e s (r ∷ rs) = if event_eq r.name e && state_eq r.from s then some r else row_of e s rs

abbrev pub target_of : Bool → Option Row → Option State
target_of f none = none
target_of f (some r) = some (r.to f)

-- What the job uses of javascript-state-machine, over a table of rows: `can` tells whether a
-- transition of that name is possible in a state, and firing it gives the state that is entered, with
-- the row's target computed from the machine (`none`: the package rejects the transition).
pub record StateMachine : Type 0 where
  pub can : List Row → Event → State → Bool
  pub fire : List Row → Event → State → Bool → Option State
  pub can_lem : (rows : List Row) (e : Event) (s : State) → can rows e s ≡ is_some (row_of e s rows)
  pub fire_lem :
      (rows : List Row) (e : Event) (s : State) (f : Bool)
      → fire rows e s f ≡ target_of f (row_of e s rows)
