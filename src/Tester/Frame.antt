-- ===== src/Tester/Frame.antt =====
-- What every task keeps: a view that no call of the task changes.
use mathlib.Core.Bool.{false≢true}
use testbench.Common.{◌∷◌, sym, ◌∙◌, ◌≡◌, refl, ◌⊎◌, inl, String, Bool, true, false}
use testbench.Tester.Table.{
  State, start, build_ui_test_image, start_emulator, run_ui_test, close_log_file, ended, initial,
}
use testbench.Tester.Machine.{
  JobData, Settings, World, Machine, Call, History, M, Outcome, ◌>>=◌, ◌>>◌, perform, detach, pass,
  close_log, write_log, remove_container, run_emulator,
}
use testbench.Tester.Tasks.{log, fsm_task, test_container, on_abort_ui_test, on_start_emulator}
use testbench.Tester.Loop.{task, abort_task, handler}
use testbench.Tester.Guarded.{fsm_task_rule}
use testbench.Tester.Rules.{
  Ensures, good, bad, over, note, View, Of, Triple, Triple-bind, Triple-then, Triple-pass,
  Triple-observe, Triple-set_adb_config, Triple-set_adb, Triple-set_apk, Triple-adb_config,
  Triple-ensure, Triple-with_adb, Triple-with_apk, perform_rule,
}

-- The call leaves the view as it is, fulfilled or not.
abbrev pub Ignores : View → Call → Type 0
Ignores V c = (s : State) (f ok : Bool) (h : History) → V s f h → V s f (note c ok h)

module _ {K V : View} where
  pub Triple-perform : (w : World) (c : Call) → Ignores V c → Triple K V V V (perform w c)
  Triple-perform w c same =
      perform_rule w c (λ m h e. same _ _ true _ h) (λ m h e. same _ _ false _ h)

  pub Triple-log : (w : World) (text : String) → Triple K V V V (log w text)
  unfolding log
  Triple-log w text = perform_rule w _ (λ m h e. h) (λ m h e. h)

-- The log accepts every line.
abbrev pub LogWorks : World → Type 0
LogWorks w = (h : History) (t : String) → w.accepts h (write_log t) ≡ true

pub log_works :
    {K V R : View} (w : World) → LogWorks w → (text : String) → Triple K V V R (log w text)
unfolding log
log_works w works text =
    perform_rule w _ (λ m v e. v) (λ m v e. absurd (false≢true (sym e ∙ works m.history text)))

-- A promise that nobody waits for: where it rejects, the process ends.
module _ {K V : View} where
  pub log_left :
      (w : World)
      → ((s : State) (f : Bool) (h : History) → V s f h → K s f h)
      → (text : String) → Triple K V V K (log w text)
  unfolding log
  log_left w left text = perform_rule w _ (λ m v e. v) (λ m v e. left _ _ _ v)

  pub Triple-detach : {R : View} (m : M (Unit {0})) → Triple K V V K m → Triple K V V R (detach m)
  unfolding detach
  Triple-detach {R} m t = record { at = λ s h. unheard s (m s) (t.at s h) }
    where
      unheard :
          (s : Machine) (o : Outcome (Unit {0}))
          → Ensures (Of K) (Of V) (Of K) o
          → Ensures (Of K) (Of V) (Of R) (detach (λ _. o) s)
      unheard s _ (good h) = good h
      unheard s _ (bad h) = over h
      unheard s _ (over h) = over h

  pub detach_perform :
      {R : View} (w : World) (c : Call)
      → ((s : State) (f : Bool) (h : History) → V s f h → V s f (note c true h))
      → ((s : State) (f : Bool) (h : History) → V s f h → K s f (note c false h))
      → Triple K V V R (detach (perform w c))
  detach_perform w c fulfilled refused =
      Triple-detach _ (perform_rule w c (λ m v e. fulfilled _ _ _ v) (λ m v e. refused _ _ _ v))

  -- The emulator's container, for which nobody waits.
  pub start_rule :
      {R : View} (w : World) (cfg : Settings) (job : JobData)
      → ((i n k : String) (s : State) (f : Bool) (h : History)
          → V s f h
          → V s f ((run_emulator i n k, true) ∷ h))
      → ((i n k : String) (s : State) (f : Bool) (h : History)
          → V s f h
          → K s f ((run_emulator i n k, false) ∷ h))
      → Triple K V V R (on_start_emulator w cfg job)
  unfolding on_start_emulator
  start_rule w cfg job fulfilled refused =
      detach_perform w _ (λ s f h v. fulfilled _ _ _ s f h v) (λ s f h v. refused _ _ _ s f h v)

  -- The listener of the UI test's timeout.
  pub abort_rule :
      (w : World) (cfg : Settings) (job : JobData)
      → ((text : String) → Triple K V V K (log w text))
      → ((s : State) (f : Bool) (h : History)
          → V s f h
          → V s f ((remove_container (test_container w cfg job), true) ∷ h))
      → ((s : State) (f : Bool) (h : History)
          → V s f h
          → K s f ((remove_container (test_container w cfg job), false) ∷ h))
      → Triple K V V K (on_abort_ui_test w cfg job)
  unfolding on_abort_ui_test
  abort_rule w cfg job tell fulfilled refused = Triple-then (tell _) (
      Triple-then (perform_rule {Q = V} w _ (λ m v e. fulfilled _ _ _ v) (λ m v e. refused _ _ _ v))
        (tell _))

module _ {K V : View} where
  pub Keeps-bind :
      {A B : Type 0} {m : M A} {k : A → M B}
      → Triple K V V V m
      → ((a : A) → Triple K V V V (k a))
      → Triple K V V V (m >>= k)
  Keeps-bind = Triple-bind

  pub Keeps-then :
      {m k : M (Unit {0})} → Triple K V V V m → Triple K V V V k → Triple K V V V (m >> k)
  Keeps-then = Triple-then

pub ruleset keeps_rules = (
  Keeps-bind, Keeps-then, Triple-pass, Triple-observe, Triple-set_adb_config, Triple-set_adb,
  Triple-set_apk, Triple-adb_config, Triple-ensure, Triple-with_adb, Triple-with_apk,
  Triple-perform, Triple-log,
)

-- What is left where nothing is asked.
abbrev pub Anything : View
Anything s f h = Unit

detached_log : {V : View} (w : World) (text : String) → Triple Anything V V V (detach (log w text))
detached_log w text = Triple-detach _ (log_left w (λ s f h v. tt) text)

-- A view that looks at no call.
module _ (w : World) (cfg : Settings) (job : JobData) (V : View)
    (deaf : (c : Call) → Ignores V c) where
  pub task-keeps : (s : State) → Triple Anything V V V (task w cfg job s)
  unfolding task
  task-keeps start = search (keeps_rules, deaf) depth 20
  task-keeps build_ui_test_image = search (keeps_rules, deaf, detached_log) depth 20
  task-keeps start_emulator =
      start_rule w cfg job (λ i n k s f h v. deaf (run_emulator i n k) s f true h v)
        (λ i n k s f h v. tt)
  task-keeps _ = search (keeps_rules, deaf) depth 20

  pub abort_task-keeps : (s : State) → Triple Anything V V Anything (abort_task w cfg job s)
  unfolding abort_task
  abort_task-keeps run_ui_test =
      abort_rule w cfg job (log_left w (λ s f h v. tt))
        (λ s f h v. deaf (remove_container (test_container w cfg job)) s f true h v) (λ s f h v. tt)
  abort_task-keeps _ = Triple-pass

-- The machine is in the state `x`, with `failed` at `g`.
abbrev pub At : State → Bool → View
At x g s f h = (s ≡ x) × (f ≡ g)

-- It stays in the state, and `failed` is as before or set.
abbrev pub Stays : State → Bool → View
Stays x g s f h = (s ≡ x) × (f ≡ g) ⊎ (s ≡ x) × (f ≡ true)

module _ (w : World) (cfg : Settings) (job : JobData) (x : State) (g : Bool) where
  task-At :
      (y : State)
      → Triple Anything
          (At x g)
          (Stays x g)
          (At x g)
          (fsm_task w (task w cfg job y) (abort_task w cfg job y))
  task-At y = fsm_task_rule {Done = At x g} {Fails = At x true} {Gone = At x g} (record {
    skip = λ m t e h. h;
    body = task-keeps w cfg job (At x g) (λ c s f ok h v. v) y;
    weaken = λ s f h v. v;
    aborted = abort_task-keeps w cfg job (At x g) (λ c s f ok h v. v) y;
    gone = λ m t e h. h;
    fails = λ s f h v. (v.0, refl);
  })

  pass-At : Triple Anything (At x g) (Stays x g) (At x g) pass
  unfolding pass
  pass-At = record { at = λ s h. good (inl h) }

  -- Whatever a state's handler does, the machine is still in that state, and `failed` is not cleared.
  pub handler-Stays :
      (y : State) → Triple Anything (At x g) (Stays x g) (At x g) (handler w cfg job y)
  unfolding handler
  handler-Stays initial = pass-At
  handler-Stays ended = pass-At
  handler-Stays close_log_file = perform_rule w close_log (λ m h e. inl h) (λ m h e. h)
  handler-Stays _ = task-At _
