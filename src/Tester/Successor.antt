-- ===== src/Tester/Successor.antt =====
-- What the transition table and the loop's choice of an event come to: one function on states.
use testbench.Common.{
  ◌≡◌, refl, ◌∙◌, Bool, true, false, ◌&&◌, Option, some, if◌then◌else◌, arith, ℕ, ◌<◌, is_some,
}
use testbench.Tester.Table.{
  State, initial, start, build_ui_test_image, start_emulator, prepare_adb, check_device_booted,
  analyze_apk, install_apk, create_appium_config, create_perfetto_config, start_apk, start_perfetto,
  run_ui_test, stop_perfetto, stop_apk, uninstall_apk, pull_trace_file, delete_trace_file,
  delete_emulator, create_analyzer_job, delete_ui_test_image, close_log_file, failed,
  take_screenshot, ended, step, error, transitions, row_of, target_of, StateMachine,
}

-- The state after `s`, for `isHeadlessEmulator` and the machine's `failed`.
abbrev pub successor : Bool → Bool → State → State
successor h f initial = start
successor h f start = build_ui_test_image
successor h true build_ui_test_image = failed
successor true false build_ui_test_image = start_emulator
successor false false build_ui_test_image = prepare_adb
successor h true start_emulator = delete_emulator
successor h false start_emulator = prepare_adb
successor h f prepare_adb = check_device_booted
successor true true check_device_booted = delete_emulator
successor false true check_device_booted = delete_ui_test_image
successor h false check_device_booted = analyze_apk
successor true true analyze_apk = delete_emulator
successor false true analyze_apk = delete_ui_test_image
successor h false analyze_apk = install_apk
successor true true install_apk = delete_emulator
successor false true install_apk = delete_ui_test_image
successor h false install_apk = create_appium_config
successor h f create_appium_config = create_perfetto_config
successor h f create_perfetto_config = start_apk
successor true true start_apk = delete_emulator
successor false true start_apk = uninstall_apk
successor h false start_apk = start_perfetto
successor true true start_perfetto = delete_emulator
successor false true start_perfetto = stop_apk
successor h false start_perfetto = run_ui_test
successor h true run_ui_test = take_screenshot
successor h false run_ui_test = stop_perfetto
successor true f stop_perfetto = pull_trace_file
successor false f stop_perfetto = stop_apk
successor h f stop_apk = uninstall_apk
successor h f uninstall_apk = pull_trace_file
successor true f pull_trace_file = delete_emulator
successor false f pull_trace_file = delete_trace_file
successor h true delete_trace_file = delete_ui_test_image
successor h false delete_trace_file = create_analyzer_job
successor h true delete_emulator = delete_ui_test_image
successor h false delete_emulator = create_analyzer_job
successor h f create_analyzer_job = delete_ui_test_image
successor h true delete_ui_test_image = failed
successor h false delete_ui_test_image = close_log_file
successor h f failed = close_log_file
successor h f close_log_file = ended
successor true true take_screenshot = delete_emulator
successor false true take_screenshot = stop_perfetto
successor h false take_screenshot = take_screenshot
successor h f ended = ended

-- The loop's body: the event `error` if the machine has failed and can take it, else `step`.
pub next : StateMachine → Bool → Bool → State → Option State
next lib headless f s =
    let rows = transitions headless in
    if f && lib.can rows error s then lib.fire rows error s f else lib.fire rows step s f

-- A screenshot is taken of a failed machine only, and the loop stops at the final state.
abbrev pub IsLive : Bool → State → Type 0
IsLive f take_screenshot = f ≡ true
IsLive f ended = ⊥
IsLive f _ = Unit

-- The loop's choice over the rows themselves, the package's answers put in.
choose : Bool → Bool → State → Option State
choose headless f s =
    let rows = transitions headless in
    if f && is_some (row_of error s rows)
    then target_of f (row_of error s rows)
    else target_of f (row_of step s rows)

choose-successor : (h f : Bool) (s : State) → IsLive f s → choose h f s ≡ some (successor h f s)
unfolding choose transitions row_of
choose-successor true true take_screenshot live = refl
choose-successor false true take_screenshot live = refl
choose-successor h false take_screenshot live = ground arith
choose-successor h f ended live = absurd live
choose-successor true true s live = refl
choose-successor true false s live = refl
choose-successor false true s live = refl
choose-successor false false s live = refl

next-choose : (lib : StateMachine) (h f : Bool) (s : State) → next lib h f s ≡ choose h f s
unfolding next choose
next-choose lib h f s = rw (
  lib.can_lem (transitions h) error s,
  lib.fire_lem (transitions h) error s f,
  lib.fire_lem (transitions h) step s f,
)

-- For every state in which the loop goes on, the table has a row for the event that the loop
-- chooses, and the row leads to the successor.
pub next-successor :
    (lib : StateMachine) (h f : Bool) (s : State)
    → IsLive f s
    → next lib h f s ≡ some (successor h f s)
next-successor lib h f s live = next-choose lib h f s ∙ choose-successor h f s live

-- How many transitions a state is away from the end, at most.
abbrev pub distance : State → ℕ
distance initial = 23
distance start = 22
distance build_ui_test_image = 21
distance start_emulator = 20
distance prepare_adb = 19
distance check_device_booted = 18
distance analyze_apk = 17
distance install_apk = 16
distance create_appium_config = 15
distance create_perfetto_config = 14
distance start_apk = 13
distance start_perfetto = 12
distance run_ui_test = 11
distance take_screenshot = 10
distance stop_perfetto = 9
distance stop_apk = 8
distance uninstall_apk = 7
distance pull_trace_file = 6
distance delete_trace_file = 5
distance delete_emulator = 5
distance create_analyzer_job = 4
distance delete_ui_test_image = 3
distance failed = 2
distance close_log_file = 1
distance ended = 0

pub distance-successor :
    (h f : Bool) (s : State) → IsLive f s → distance (successor h f s) < distance s
distance-successor true true take_screenshot live = omega arith
distance-successor false true take_screenshot live = omega arith
distance-successor h false take_screenshot live = ground arith
distance-successor h f ended live = absurd live
distance-successor true true s live = omega arith
distance-successor true false s live = omega arith
distance-successor false true s live = omega arith
distance-successor false false s live = omega arith
