-- ===== src/Tester/Heard.antt =====
-- The runs of MobilePhoneTesterJob.ts in which docker grants the calls that the job does not wait for:
-- the process does not end under them.
use mathlib.Core.Bool.{false≢true}
use mathlib.Core.Path.{subst}
use testbench.Common.{
  ◌≡◌, refl, Bool, true, false, some, String, ◌⊎◌, inl, inr, sym, ◌∙◌, ap, get_or_else,
}
use testbench.Tester.Table.{
  State, initial, start, build_ui_test_image, start_emulator, run_ui_test, close_log_file, ended,
  StateMachine,
}
use testbench.Tester.Machine.{
  JobData, Settings, World, Machine, Call, History, Outcome, resolved, rejected, crashed,
  run_emulator, remove_container, close_log, detach,
}
use testbench.Tester.Tasks.{
  log, fsm_task, test_container, emulator_container, on_start_emulator, on_abort_ui_test,
}
use testbench.Tester.Loop.{task, abort_task, handler, run_job}
use testbench.Tester.Rules.{View, Of, Triple, Triple-then, Triple-pass, perform_rule, quiet}
use testbench.Tester.Guarded.{keeping_task}
use testbench.Tester.Frame.{Ignores, keeps_rules, LogWorks, log_works, Triple-detach, Anything}
use testbench.Tester.Runs.{IsInvariant}
use testbench.Tester.Ends.{Final, Closes, Unheard, run_job_rule}
use testbench.Tester.Cleanup.{IsSettled, emulator-removed}
use testbench.Tester.Status.{FailureAsked, Queued, IsSilent, report_complete}

-- Docker runs every emulator, and removes the container of the UI test when it is asked to.
pub record IsGranted (w : World) (cfg : Settings) (job : JobData) : Type 0 where
  pub runs :
      (h : History) (image name network : String)
      → w.accepts h (run_emulator image name network) ≡ true
  pub removes : (h : History) → w.accepts h (remove_container (test_container w cfg job)) ≡ true

-- The process has not ended.
abbrev Nowhere : View
Nowhere s f h = ⊥

abbrev Here : State → View
Here x s f h = (s ≡ x) × Unit

Here-any : (x : State) (c : Call) → Ignores (Here x) c
Here-any x c s f ok h v = v

-- The job has returned or thrown with the machine `m`.
abbrev pub IsOver : Machine → Outcome (Unit {0}) → Type 0
IsOver m o = (o ≡ resolved tt m) ⊎ (o ≡ rejected m)

IsOver-with :
    (Post Lost : Machine → Type 0) (A B : Bool → History → Type 0) (C D : History → Type 0)
    (o : Outcome (Unit {0}))
    → Final (Of Nowhere) Post Lost o
    → Closes A C o
    → Closes B D o
    → (m : Machine) × IsOver m o × A m.failed (quiet m.history) × B m.failed (quiet m.history)
IsOver-with Post Lost A B C D (resolved _ m) final a b = (m, inl refl, a, b)
IsOver-with Post Lost A B C D (rejected m) final a b = (m, inr refl, a, b)
IsOver-with Post Lost A B C D (crashed m) final a b = absurd final

module _ (w : World) (cfg : Settings) (job : JobData) (works : LogWorks w)
    (granted : IsGranted w cfg job) where
  granting : {P : Type 0} {b : Bool} → b ≡ true → b ≡ false → P
  granting given denied = absurd (false≢true (sym denied ∙ given))

  followed : {V : View} (text : String) → Triple Nowhere V V V (detach (log w text))
  followed text = Triple-detach _ (log_works w works text)

  task-Here : (x : State) → Triple Nowhere (Here x) (Here x) (Here x) (task w cfg job x)
  unfolding task on_start_emulator
  task-Here start = search (keeps_rules, Here-any) depth 20
  task-Here build_ui_test_image = search (keeps_rules, Here-any, followed) depth 20
  task-Here start_emulator =
      Triple-detach _
        (perform_rule w _ (λ m v e. v) (λ m v e. granting (granted.runs m.history _ _ _) e))
  task-Here _ = search (keeps_rules, Here-any) depth 20

  abort-Here : (x : State) → Triple Nowhere (Here x) (Here x) Nowhere (abort_task w cfg job x)
  unfolding abort_task on_abort_ui_test
  abort-Here run_ui_test = Triple-then (log_works w works _) (
      Triple-then {Q = Here run_ui_test}
        (perform_rule w _ (λ m v e. v) (λ m v e. granting (granted.removes m.history) e))
        (log_works w works _))
  abort-Here _ = Triple-pass

  alive :
      (x : State)
      → Triple Nowhere
          (Here x)
          (Here x)
          Anything
          (fsm_task w (task w cfg job x) (abort_task w cfg job x))
  alive x = keeping_task w (task-Here x) (abort-Here x) (λ s f h v. v) (λ m t e v. tt)

  handled : (x : State) → Triple Nowhere (Here x) (Here x) Anything (handler w cfg job x)
  unfolding handler
  handled initial = Triple-pass
  handled ended = Triple-pass
  handled close_log_file = perform_rule w close_log (λ m v e. v) (λ m v e. tt)
  handled x = alive _

  invariant : IsInvariant w cfg job Nowhere (λ s f h. Unit) (λ s f h. Unit) Anything
  invariant = record { edge = λ s f h live k. tt; handled = handled }

  -- Where the log accepts every line, docker runs the emulator and removes the test's container of an
  -- expired test, a job returns or throws. At its end it has asked for the removal of the emulator's
  -- container if it has asked for an emulator, and either a task has failed and the status queue was
  -- asked to take the failure under the job's id, or none has: then the job's analysis was queued
  -- under that id and no failure was asked to be taken.
  pub job_returns :
      (lib : StateMachine)
      → (o : Outcome (Unit {0})) × (run_job w cfg job lib ≡ some o)
        × ((m : Machine) × IsOver m o
            × IsSettled (emulator_container w cfg job) (quiet m.history)
            × ((m.failed ≡ true → FailureAsked job (quiet m.history))
                × (m.failed ≡ false → Queued job (quiet m.history) × IsSilent (quiet m.history))))
  job_returns lib =
      let (o, runs, final) = run_job_rule lib invariant tt in
      let (p, runs', settled) = emulator-removed w cfg job works lib in
      let (q, runs'', told) = report_complete w cfg job works lib in
      let Clean : Bool → History → Type 0 = λ _ h. IsSettled (emulator_container w cfg job) h in
      let Told : Bool → History → Type 0 =
        λ f h. (f ≡ true → FailureAsked job h) × (f ≡ false → Queued job h × IsSilent h) in
      let Refused : History → Type 0 = Unheard (test_container w cfg job) in
      let p-o : p ≡ o = ap (λ r. get_or_else r p) (sym runs' ∙ runs) in
      let q-o : q ≡ o = ap (λ r. get_or_else r q) (sym runs'' ∙ runs) in
      (
        o,
        runs,
        IsOver-with _ _ Clean Told Refused Refused o final
            (subst (Closes Clean Refused) p-o settled) (subst (Closes Told Refused) q-o told),
      )
