-- ===== src/Tester/Device.antt =====
-- What a job leaves on a device, in MobilePhoneTesterJob.ts: the calls that matter, and what is
-- known of them in each state of the machine.
use testbench.Common.{
  ◌≡◌, ◌≢◌, refl, Bool, true, false, Option, none, some, [], ◌∷◌, String, ◌⊎◌, inl, inr, arith, sym,
  ◌∙◌, ap,
}
use testbench.Tester.Table.{
  State, build_ui_test_image, start_emulator, check_device_booted, analyze_apk, install_apk,
  start_apk, start_perfetto, run_ui_test, stop_perfetto, stop_apk, uninstall_apk, pull_trace_file,
  delete_trace_file, delete_emulator, create_analyzer_job, delete_ui_test_image, close_log_file,
  failed, take_screenshot, ended,
}
use testbench.Tester.Successor.{successor, IsLive}
use testbench.Tester.Machine.{start_app, uninstall, shell, run_container, History, ApkInfos}

-- An app of the package was asked to start, and has not been asked to be uninstalled since.
abbrev pub IsThere : String → History → Type 0
IsThere p [] = ⊥
IsThere p ((start_app q a, ok) ∷ h) = (q ≡ p) ⊎ IsThere p h
IsThere p ((uninstall q, ok) ∷ h) = (q ≢ p) × IsThere p h
IsThere p ((_, ok) ∷ h) = IsThere p h

-- The container of the UI test was asked for, and the device's shell has not been asked to run the
-- command since.
abbrev pub IsDue : String → History → Type 0
IsDue c [] = ⊥
IsDue c ((run_container i n k b e, ok) ∷ h) = Unit
IsDue c ((shell d, ok) ∷ h) = (d ≢ c) × IsDue c h
IsDue c ((_, ok) ∷ h) = IsDue c h

-- Every app that was started is of the one package.
abbrev pub OnlyStarts : String → History → Type 0
OnlyStarts p [] = Unit
OnlyStarts p ((start_app q a, ok) ∷ h) = (q ≡ p) × OnlyStarts p h
OnlyStarts p ((_, ok) ∷ h) = OnlyStarts p h

abbrev pub NoStart : History → Type 0
NoStart [] = Unit
NoStart ((start_app q a, ok) ∷ h) = ⊥
NoStart ((_, ok) ∷ h) = NoStart h

abbrev pub NoTest : History → Type 0
NoTest [] = Unit
NoTest ((run_container i n k b e, ok) ∷ h) = ⊥
NoTest ((_, ok) ∷ h) = NoTest h

-- No app was started, or there are a connection and a package by which it can be uninstalled.
abbrev pub AppOwed : Bool → Option ApkInfos → History → Type 0
AppOwed a i h =
    NoStart h ⊎ ((a ≡ true) × ((j : ApkInfos) × (i ≡ some j) × OnlyStarts j.apk_package h))

-- Every app that was started is gone.
abbrev pub AppDone : History → Type 0
AppDone h = (p : String) → ¬ IsThere p h

abbrev pub kill_command : String
kill_command = "killall perfetto"

-- The recording was stopped, and its trace can be removed.
abbrev pub TestKilled : Bool → History → Type 0
TestKilled a h = NoTest h ⊎ ((a ≡ true) × ¬ IsDue kill_command h)

abbrev pub TestDone : String → History → Type 0
TestDone rm h = ¬ IsDue kill_command h × ¬ IsDue rm h

NoStart-none : (p : String) (h : History) → NoStart h → ¬ IsThere p h
NoStart-none p [] n s = s
NoStart-none p ((start_app q b, ok) ∷ h) n s = n
NoStart-none p ((uninstall q, ok) ∷ h) n s = NoStart-none p h n s.1
NoStart-none p ((_, ok) ∷ h) n s = NoStart-none p h n s

OnlyStarts-one : (p q : String) (h : History) → OnlyStarts p h → IsThere q h → p ≡ q
OnlyStarts-one p q [] n s = absurd s
OnlyStarts-one p q ((start_app r b, ok) ∷ h) n (inl e) = sym n.0 ∙ e
OnlyStarts-one p q ((start_app r b, ok) ∷ h) n (inr s) = OnlyStarts-one p q h n.1 s
OnlyStarts-one p q ((uninstall r, ok) ∷ h) n s = OnlyStarts-one p q h n s.1
OnlyStarts-one p q ((_, ok) ∷ h) n s = OnlyStarts-one p q h n s

NoTest-none : (c : String) (h : History) → NoTest h → ¬ IsDue c h
NoTest-none c [] n t = t
NoTest-none c ((run_container i m k b e, ok) ∷ h) n t = n
NoTest-none c ((shell d, ok) ∷ h) n t = NoTest-none c h n t.1
NoTest-none c ((_, ok) ∷ h) n t = NoTest-none c h n t

-- Nothing was begun, so nothing is left.
fresh : (rm : String) (h : History) → NoStart h → NoTest h → AppDone h × TestDone rm h
fresh rm h n t = (λ p. NoStart-none p h n, (NoTest-none kill_command h t, NoTest-none rm h t))

-- What is known after a state, where `rm` is the command that removes the trace.
abbrev pub Post : String → State → Bool → Bool → Option ApkInfos → History → Type 0
Post rm start_emulator f a i h = ⊥
Post rm delete_emulator f a i h = ⊥
Post rm start_apk f a i h = AppOwed a i h × NoTest h × (f ≡ false → a ≡ true)
Post rm start_perfetto f a i h = AppOwed a i h × NoTest h × (f ≡ false → a ≡ true)
Post rm run_ui_test f a i h = AppOwed a i h × (a ≡ true)
Post rm take_screenshot f a i h = AppOwed a i h × (a ≡ true)
Post rm stop_perfetto f a i h = AppOwed a i h × TestKilled a h
Post rm stop_apk f a i h = AppOwed a i h × TestKilled a h
Post rm uninstall_apk f a i h = AppDone h × TestKilled a h
Post rm pull_trace_file f a i h = AppDone h × TestKilled a h
Post rm delete_trace_file f a i h = AppDone h × TestDone rm h
Post rm create_analyzer_job f a i h = AppDone h × TestDone rm h
Post rm delete_ui_test_image f a i h = AppDone h × TestDone rm h
Post rm failed f a i h = AppDone h × TestDone rm h
Post rm close_log_file f a i h = AppDone h × TestDone rm h
Post rm ended f a i h = AppDone h × TestDone rm h
Post rm _ f a i h = NoStart h × NoTest h

-- And before it.
abbrev pub Pre : String → State → Bool → Bool → Option ApkInfos → History → Type 0
Pre rm start_apk f a i h = NoStart h × NoTest h
Pre rm stop_perfetto f a i h = AppOwed a i h × (a ≡ true)
Pre rm uninstall_apk f a i h = AppOwed a i h × TestKilled a h
Pre rm delete_trace_file f a i h = AppDone h × TestKilled a h
Pre rm s f a i h = Post rm s f a i h

pub edge-Post :
    (rm : String) (f a : Bool) (s : State) (i : Option ApkInfos) (h : History)
    → IsLive f s
    → Post rm s f a i h
    → Pre rm (successor false f s) f a i h
edge-Post rm true a build_ui_test_image i h live k = fresh rm h k.0 k.1
edge-Post rm true a check_device_booted i h live k = fresh rm h k.0 k.1
edge-Post rm true a analyze_apk i h live k = fresh rm h k.0 k.1
edge-Post rm true a install_apk i h live k = fresh rm h k.0 k.1
edge-Post rm true a start_apk i h live k = (k.0, inl k.1)
edge-Post rm true a start_perfetto i h live k = (k.0, inl k.1)
edge-Post rm false a start_perfetto i h live k = (k.0, k.2 refl)
edge-Post rm true a _ i h live k = ground arith
edge-Post rm false a _ i h live k = ground arith

pub NoStart-OnlyStarts : (p : String) (h : History) → NoStart h → OnlyStarts p h
NoStart-OnlyStarts p [] n = tt
NoStart-OnlyStarts p ((start_app q b, ok) ∷ h) n = absurd n
NoStart-OnlyStarts p ((_, ok) ∷ h) n = NoStart-OnlyStarts p h n

-- Without a connection or a package nothing was started; with them the app is uninstalled.
pub AppOwed-no_adb : (i : Option ApkInfos) (h : History) → AppOwed false i h → AppDone h
AppOwed-no_adb i h (inl n) = λ p. NoStart-none p h n
AppOwed-no_adb i h (inr (e, j)) = cc

pub AppOwed-no_apk : (a : Bool) (h : History) → AppOwed a none h → AppDone h
AppOwed-no_apk a h (inl n) = λ p. NoStart-none p h n
AppOwed-no_apk a h (inr (e, (j, same, only))) = cc

pub AppOwed-uninstalled :
    (a ok : Bool) (j : ApkInfos) (h : History)
    → AppOwed a (some j) h
    → AppDone ((uninstall j.apk_package, ok) ∷ h)
AppOwed-uninstalled a ok j h (inl n) = λ p there. NoStart-none p h n there.1
AppOwed-uninstalled a ok j h (inr (e, (k, same, only))) =
    λ p there. there.0 (ap package_of same ∙ OnlyStarts-one k.apk_package p h only there.1)
  where
    package_of : Option ApkInfos → String
    package_of none = ""
    package_of (some i) = i.apk_package

pub killed : (ok : Bool) (h : History) → ¬ IsDue kill_command ((shell kill_command, ok) ∷ h)
killed ok h due = due.0 refl

pub TestKilled-no_adb : (rm : String) (h : History) → TestKilled false h → TestDone rm h
TestKilled-no_adb rm h (inl n) = (NoTest-none kill_command h n, NoTest-none rm h n)
TestKilled-no_adb rm h (inr (e, k)) = cc

pub TestKilled-removed :
    (rm : String) (a ok : Bool) (h : History) → TestKilled a h → TestDone rm ((shell rm, ok) ∷ h)
TestKilled-removed rm a ok h (inl n) =
    (λ due. NoTest-none kill_command h n due.1, λ due. due.0 refl)
TestKilled-removed rm a ok h (inr (e, k)) = (λ due. k due.1, λ due. due.0 refl)

-- No app that was started is there, no recording runs, and the file of none is there.
abbrev pub IsRestored : String → History → Type 0
IsRestored rm h = ((p : String) → ¬ IsThere p h) × (¬ IsDue kill_command h × ¬ IsDue rm h)
