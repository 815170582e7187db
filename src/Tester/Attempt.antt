-- ===== src/Tester/Attempt.antt =====
-- What the checks of `adb` and `apkInfos` tell, and the rule of a task whose log lines are accepted.
use testbench.Common.{
  ◌≡◌, refl, Bool, true, false, Option, none, some, String, ◌⊎◌, inl, inr, sym, Bool-cases,
}
use mathlib.Core.Path.{subst}
use testbench.Tester.Machine.{
  Call, World, Machine, History, ApkInfos, Outcome, resolved, rejected, crashed, M, ◌>>=◌, ◌>>◌,
  throw, ensure, detach, catch, set_failed, perform, pass,
}
use testbench.Tester.Tasks.{with_adb, with_apk, when, log, with_timeout, attempt, give_up, fsm_task}
use testbench.Tester.Rules.{Ensures, good, bad, over, quiet, note}
use testbench.Tester.Frame.{LogWorks}
use testbench.Tester.Track.{Sight, Sees, Track, Gives, Track-bind, Track-then, Track-observe}

connected :
    (K V Q R : Sight) (b : Bool) (s : Machine)
    → ((f : Bool) (i : Option ApkInfos) (h : History) → V f true i h → Q f true i h)
    → ((f : Bool) (i : Option ApkInfos) (h : History) → V f false i h → R f false i h)
    → s.adb ≡ b
    → Sees V s
    → Ensures (Sees K) (Sees Q) (Sees R) (ensure b s)
unfolding ensure
connected K V Q R true s there gone e h =
    let now = there _ _ _ (subst (λ a. V s.failed a s.apk_infos (quiet s.history)) e h) in
    good (subst (λ a. Q s.failed a s.apk_infos (quiet s.history)) (sym e) now)
connected K V Q R false s there gone e h =
    let now = gone _ _ _ (subst (λ a. V s.failed a s.apk_infos (quiet s.history)) e h) in
    bad (subst (λ a. R s.failed a s.apk_infos (quiet s.history)) (sym e) now)

known :
    {B : Type 0} (K V Q R : Sight) (k : ApkInfos → M B) (o : Option ApkInfos) (s : Machine)
    → ((j : ApkInfos) → Track K (λ f a i h. V f a i h × (i ≡ some j)) Q R (k j))
    → ((f a : Bool) (h : History) → V f a none h → R f a none h)
    → s.apk_infos ≡ o
    → Sees V s
    → Ensures
        (Sees K)
        (Sees Q)
        (Sees R)
        (elim (elim o as (λ _. Outcome ApkInfos) [ none ↦ rejected s | some i ↦ resolved i s ])
          as (λ _. Outcome B) [
            | resolved i t ↦ k i t
            | rejected t ↦ rejected t
            | crashed t ↦ crashed t
          ])
known K V Q R k none s there gone e h =
    let now = gone _ _ _ (subst (λ i. V s.failed s.adb i (quiet s.history)) e h) in
    bad (subst (λ i. R s.failed s.adb i (quiet s.history)) (sym e) now)
known K V Q R k (some j) s there gone e h = (there j).from s (h, e)

module _ {K V Q R : Sight} where
  -- `adb` is there, or the call of its method throws.
  pub connect_rule :
      ((f : Bool) (i : Option ApkInfos) (h : History) → V f true i h → Q f true i h)
      → ((f : Bool) (i : Option ApkInfos) (h : History) → V f false i h → R f false i h)
      → Track K V Q R with_adb
  unfolding with_adb
  connect_rule there gone = record { from = λ s h. connected K V Q R s.adb s there gone refl h }

  -- `apkInfos` is there, or reading it throws.
  pub known_rule :
      {B : Type 0} {k : ApkInfos → M B}
      → ((j : ApkInfos) → Track K (λ f a i h. V f a i h × (i ≡ some j)) Q R (k j))
      → ((f a : Bool) (h : History) → V f a none h → R f a none h)
      → Track K V Q R (with_apk >>= k)
  unfolding with_apk ◌>>=◌
  known_rule {B} {k} there gone = record {
    from = λ s h. known K V Q R k s.apk_infos s there gone refl h;
  }

  -- A call that may be refused.
  pub perform-Track :
      (w : World) (c : Call)
      → ((f a : Bool) (i : Option ApkInfos) (h : History) → V f a i h → Q f a i (note c true h))
      → ((f a : Bool) (i : Option ApkInfos) (h : History) → V f a i h → R f a i (note c false h))
      → Track K V Q R (perform w c)
  unfolding perform
  perform-Track w c fulfilled refused = record {
    from = λ s h. elim (Bool-cases (w.accepts s.history c)) [
      | inl e ↦ rw e (good (fulfilled _ _ _ _ h))
      | inr e ↦ rw e (bad (refused _ _ _ _ h))
    ];
  }

  -- A call after which the same holds whether it was fulfilled or not.
  pub asked_rule :
      (w : World) (c : Call)
      → ((f a ok : Bool) (i : Option ApkInfos) (h : History) → V f a i h → Q f a i (note c ok h))
      → ((f a ok : Bool) (i : Option ApkInfos) (h : History) → V f a i h → R f a i (note c ok h))
      → Track K V Q R (perform w c)
  asked_rule w c fulfilled refused =
      perform-Track w c (λ f a i h v. fulfilled f a true i h v)
        (λ f a i h v. refused f a false i h v)

-- A line that is accepted.
pub logged : {K V R : Sight} (w : World) → LogWorks w → (t : String) → Track K V V R (log w t)
unfolding log perform
logged w works t = record { from = λ s h. rw (works s.history t) (good h) }

-- The predicate of what was done, or of what was left with the machine's failure.
abbrev pub DoneOr : Sight → Sight → Sight
DoneOr Done Lost f a i h = Done f a i h ⊎ (Lost f a i h × (f ≡ true))

abbrev pub Never : Sight
Never f a i h = ⊥

late :
    (K Done Lost : Sight) (m0 : Machine) (o : Outcome (Unit {0}))
    → Ensures (Sees K) (Sees Lost) (Sees K) o
    → Ensures {A = Unit {0}} (Sees K) (Sees Done) (Sees Lost) ((detach (λ _. o) >> throw) m0)
unfolding detach ◌>>◌ throw
late K Done Lost m0 (resolved _ t) (good h) = bad h
late K Done Lost m0 (rejected t) (bad h) = over h
late K Done Lost m0 (crashed t) (over h) = over h

timed :
    {K Done Lost : Sight} (b : Bool) (m : M (Unit {0}))
    → Gives Done Lost
    → Track K Done Lost K m
    → Track K Done Done Lost (when b (detach m >> throw))
unfolding when detach ◌>>◌ throw pass
timed {K} {Done} {Lost} true m weaken aborted = record {
  from = λ s h. late K Done Lost s (m s) (aborted.from s h);
}
timed false m weaken aborted = record { from = λ s h. good h }

pub record IsGuarded (fn on_abort : M (Unit {0})) (K Before Done Lost : Sight) : Type 0 where
  pub body : Track K Before Done Lost fn
  pub weaken : Gives Done Lost
  pub aborted : Track K Done Lost K on_abort
  -- Setting `failed` keeps what is left.
  pub marked : (f a : Bool) (i : Option ApkInfos) (h : History) → Lost f a i h → Lost true a i h

module _ (w : World) (works : LogWorks w) {fn on_abort : M (Unit {0})} {K Before Done Lost : Sight}
    (g : IsGuarded fn on_abort K Before Done Lost) where
  timeout_rule : Track K Before Done Lost (with_timeout w fn on_abort)
  unfolding with_timeout
  timeout_rule =
      Track-then g.body
        (Track-bind (Track-observe w.timed_out) (λ b. timed b on_abort g.weaken g.aborted))

  attempt_rule : (name : String) → Track K Before Done Lost (attempt w name fn on_abort)
  unfolding attempt
  attempt_rule name = Track-then (logged w works _) (Track-then timeout_rule (logged w works _))

  marked_rule : Track K Lost (DoneOr Done Lost) Never set_failed
  unfolding set_failed
  marked_rule = record { from = λ s h. good (inr (g.marked _ _ _ _ h, refl)) }

  give_up_rule : (name : String) → Track K Lost (DoneOr Done Lost) Never (give_up w name)
  unfolding give_up
  give_up_rule name =
      Track-bind (Track-observe w.reason) (λ error. Track-then (logged w works _) marked_rule)

  caught_rule :
      (m : Machine) (o : Outcome (Unit {0})) (handler : M (Unit {0}))
      → Track K Lost (DoneOr Done Lost) Never handler
      → Ensures (Sees K) (Sees Done) (Sees Lost) o
      → Ensures (Sees K) (Sees (DoneOr Done Lost)) (Sees Never) (catch (λ _. o) handler m)
  unfolding catch
  caught_rule m (resolved _ t) handler recover (good h) = good (inl h)
  caught_rule m (rejected t) handler recover (bad h) = recover.from t h
  caught_rule m (crashed t) handler recover (over h) = over h

  -- The task is done, or it has failed and the machine knows; it never rejects.
  pub guarded_rule : Track K Before (DoneOr Done Lost) Never (fsm_task w fn on_abort)
  unfolding fsm_task catch
  guarded_rule = record {
    from = λ m h.
        caught_rule m (attempt w _ fn on_abort m) _ (give_up_rule _) ((attempt_rule _).from m h);
  }
