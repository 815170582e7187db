-- ===== src/Tester/Guarded.antt =====
-- The rule of `fsmTask`: a task that is logged, put under a timeout, and whose failure is caught.
use testbench.Common.{◌≡◌, Bool, true, false, String, inl, inr, ◌⊎◌}
use testbench.Tester.Table.{State}
use testbench.Tester.Machine.{
  write_log, World, Machine, History, Outcome, resolved, rejected, crashed, M, catch, set_failed,
}
use testbench.Tester.Tasks.{log, with_timeout, attempt, give_up, fsm_task}
use testbench.Tester.Rules.{
  Ensures, good, bad, over, View, Of, Triple, Triple-bind, Triple-then, Triple-observe,
  Triple-when_throw, perform_rule,
}

-- A view of what a task has done, or of what it left when it failed.
abbrev pub Either : View → View → View
Either P Q s f h = P s f h ⊎ Q s f h

pub record IsTask (w : World) (fn on_abort : M (Unit {0})) (K Before Done Lost Fails Gone : View)
    : Type 0 where
  -- The first line of the log was refused, and the task was not begun.
  pub skip :
      (m : Machine) (t : String)
      → w.accepts m.history (write_log t) ≡ false
      → Of Before m
      → Of Lost m
  pub body : Triple K Before Done Lost fn
  pub weaken : (s : State) (f : Bool) (h : History) → Done s f h → Lost s f h
  pub aborted : Triple K Done Lost K on_abort
  -- The line that tells of the failure was refused too.
  pub gone :
      (m : Machine) (t : String) → w.accepts m.history (write_log t) ≡ false → Of Lost m → Of Gone m
  pub fails : (s : State) (f : Bool) (h : History) → Lost s f h → Fails s true h

module _ {w : World} {fn on_abort : M (Unit {0})} {K Before Done Lost Fails Gone : View}
    (is_task : IsTask w fn on_abort K Before Done Lost Fails Gone) where
  timeout_rule : Triple K Before Done Lost (with_timeout w fn on_abort)
  unfolding with_timeout
  timeout_rule = Triple-then is_task.body (
      Triple-bind (Triple-observe w.timed_out)
        (λ late. Triple-when_throw late on_abort is_task.weaken is_task.aborted))

  attempt_rule : (name : String) → Triple K Before Done Lost (attempt w name fn on_abort)
  unfolding attempt log
  attempt_rule name =
      Triple-then (perform_rule {Q = Before} w _ (λ m h e. h) (λ m h e. is_task.skip m _ e h))
        (Triple-then timeout_rule (perform_rule w _ (λ m h e. h) (λ m h e. is_task.weaken _ _ _ h)))

  marked_rule : Triple K Lost (Either Done Fails) Gone set_failed
  unfolding set_failed
  marked_rule = record { at = λ s h. good (inr (is_task.fails _ _ _ h)) }

  give_up_rule : (name : String) → Triple K Lost (Either Done Fails) Gone (give_up w name)
  unfolding give_up log
  give_up_rule name = Triple-bind (Triple-observe w.reason) (λ error.
      Triple-then (perform_rule {Q = Lost} w _ (λ m h e. h) (λ m h e. is_task.gone m _ e h))
        marked_rule)

  caught_rule :
      (m : Machine) (o : Outcome (Unit {0})) (handler : M (Unit {0}))
      → Triple K Lost (Either Done Fails) Gone handler
      → Ensures (Of K) (Of Done) (Of Lost) o
      → Ensures (Of K) (Of (Either Done Fails)) (Of Gone) (catch (λ _. o) handler m)
  unfolding catch
  caught_rule m (resolved _ t) handler recover (good h) = good (inl h)
  caught_rule m (rejected t) handler recover (bad h) = recover.at t h
  caught_rule m (crashed t) handler recover (over h) = over h

  -- A task that resolves is done, or it has failed and the machine knows.
  pub fsm_task_rule : Triple K Before (Either Done Fails) Gone (fsm_task w fn on_abort)
  unfolding fsm_task catch
  fsm_task_rule = record {
    at = λ m h.
        caught_rule m (attempt w _ fn on_abort m) _ (give_up_rule _) ((attempt_rule _).at m h);
  }

merged :
    (K V Gone : View) (o : Outcome (Unit {0}))
    → Ensures (Of K) (Of (Either V V)) (Of Gone) o
    → Ensures (Of K) (Of V) (Of Gone) o
merged K V Gone _ (good (inl h)) = good h
merged K V Gone _ (good (inr h)) = good h
merged K V Gone _ (bad h) = bad h
merged K V Gone _ (over h) = over h

pub merged_task :
    {K B V G : View} {m : M (Unit {0})} → Triple K B (Either V V) G m → Triple K B V G m
merged_task {K} {V} {G} t = record { at = λ s h. merged K V G _ (t.at s h) }

-- A task whose calls all keep a view, which a failure keeps too.
pub keeping_task :
    (w : World) {fn on_abort : M (Unit {0})} {K V Gone : View}
    → Triple K V V V fn
    → Triple K V V K on_abort
    → ((s : State) (f : Bool) (h : History) → V s f h → V s true h)
    → ((m : Machine) (t : String) → w.accepts m.history (write_log t) ≡ false → Of V m → Of Gone m)
    → Triple K V V Gone (fsm_task w fn on_abort)
keeping_task w {V} body aborted fails gone = merged_task (
    fsm_task_rule {Done = V} {Lost = V} (record {
      skip = λ m t e h. h;
      body = body;
      weaken = λ s f h v. v;
      aborted = aborted;
      gone = gone;
      fails = fails;
    }))
