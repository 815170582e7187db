-- ===== src/Tester/Rules.antt =====
-- Rules for asynchronous functions: what holds of the machine before one, after it and when it
-- rejects. The predicates look at the state, at `failed` and at the calls that are not log lines.
use testbench.Common.{
  ◌≡◌, Bool, true, false, Option, none, some, [], ◌∷◌, String, if◌then◌else◌, Bool-cases, inl, inr,
}
use testbench.Tester.Table.{State}
use testbench.Tester.Machine.{
  Call, write_log, World, Machine, History, ApkInfos, Outcome, resolved, rejected, crashed, M,
  ◌>>=◌, ◌>>◌, pass, throw, ensure, observe, detach, record_call, perform,
}
use testbench.Tester.Tasks.{with_adb, with_apk, set_adb_config, set_adb, set_apk, adb_config, when}

-- What holds of the machine when an asynchronous function resolves (`P`), when it rejects (`Q`), and
-- when the process has ended (`K`).
pub data Ensures {A : Type 0} (K P Q : Machine → Type 0) : Outcome A → Type 0 where
  good : {a : A} {t : Machine} → P t → Ensures K P Q (resolved a t)
  bad : {t : Machine} → Q t → Ensures K P Q (rejected t)
  over : {t : Machine} → K t → Ensures K P Q (crashed t)

abbrev pub is_log : Call → Bool
is_log (write_log t) = true
is_log c = false

abbrev pub note : Call → Bool → History → History
note c ok h = if is_log c then h else (c, ok) ∷ h

-- The history without the lines of the log.
abbrev pub quiet : History → History
quiet [] = []
quiet ((c, ok) ∷ h) = note c ok (quiet h)

abbrev pub View : Type 1
View = State → Bool → History → Type 0

abbrev pub Of : View → Machine → Type 0
Of V m = V m.state m.failed (quiet m.history)

-- `m` leads from `P` to `Q` where it resolves, to `R` where it rejects, and to `K` where it ends the
-- process.
pub record Triple {A : Type 0} (K P Q R : View) (m : M A) : Type 0 where
  pub at : (s : Machine) → Of P s → Ensures (Of K) (Of Q) (Of R) (m s)

pub run_bind :
    {A B : Type 0} (K P Q R : Machine → Type 0) (o : Outcome A) (k : A → M B)
    → Ensures K P Q o
    → ((a : A) (t : Machine) → P t → Ensures K R Q (k a t))
    → Ensures K R Q
        (elim o [ resolved a t ↦ k a t | rejected t ↦ rejected t | crashed t ↦ crashed t ])
run_bind K P Q R o k (good {a} {t} h) next = next a t h
run_bind K P Q R o k (bad h) next = bad h
run_bind K P Q R o k (over h) next = over h

module _ {K P Q R S : View} where
  pub Triple-bind :
      {A B : Type 0} {m : M A} {k : A → M B}
      → Triple K P Q R m
      → ((a : A) → Triple K Q S R (k a))
      → Triple K P S R (m >>= k)
  unfolding ◌>>=◌
  Triple-bind {m} {k} first next = record {
    at = λ s h. run_bind (Of K) (Of Q) (Of R) (Of S) (m s) k (first.at s h) (λ a t. (next a).at t);
  }

  pub Triple-then :
      {B : Type 0} {m : M (Unit {0})} {k : M B}
      → Triple K P Q R m
      → Triple K Q S R k
      → Triple K P S R (m >> k)
  unfolding ◌>>◌
  Triple-then {m} {k} first next = record {
    at = λ s h. run_bind (Of K) (Of Q) (Of R) (Of S) (m s) _ (first.at s h) (λ a t. next.at t);
  }

-- A stronger start and a weaker failure.
pub Triple-adapt :
    {A : Type 0} {K P P' Q R R' : View} {m : M A}
    → Triple K P Q R m
    → ((s : State) (f : Bool) (h : History) → P' s f h → P s f h)
    → ((s : State) (f : Bool) (h : History) → R s f h → R' s f h)
    → Triple K P' Q R' m
Triple-adapt {A} {K} {P} {P'} {Q} {R} {R'} t start end = record {
  at = λ s h. ending _ (t.at s (start _ _ _ h));
}
  where
    ending : (o : Outcome A) → Ensures (Of K) (Of Q) (Of R) o → Ensures (Of K) (Of Q) (Of R') o
    ending _ (good h) = good h
    ending _ (bad h) = bad (end _ _ _ h)
    ending _ (over h) = over h

-- The functions that make no call keep every view.
module _ {K P R : View} where
  pub Triple-pass : Triple K P P R pass
  unfolding pass
  Triple-pass = record { at = λ s h. good h }

  pub Triple-observe : {A : Type 0} (f : History → A) → Triple K P P R (observe f)
  unfolding observe
  Triple-observe f = record { at = λ s h. good h }

  pub Triple-set_adb_config : (text : String) → Triple K P P R (set_adb_config text)
  unfolding set_adb_config
  Triple-set_adb_config text = record { at = λ s h. good h }

  pub Triple-set_adb : Triple K P P R set_adb
  unfolding set_adb
  Triple-set_adb = record { at = λ s h. good h }

  pub Triple-set_apk : (i : Option ApkInfos) → Triple K P P R (set_apk i)
  unfolding set_apk
  Triple-set_apk i = record { at = λ s h. good h }

  pub Triple-adb_config : Triple K P P R adb_config
  unfolding adb_config
  Triple-adb_config = record { at = λ s h. good h }

pub Triple-throw :
    {K P Q R : View}
    → ((s : State) (f : Bool) (h : History) → P s f h → R s f h)
    → Triple K P Q R throw
unfolding throw
Triple-throw weaken = record { at = λ s h. bad (weaken _ _ _ h) }

ensure-adb :
    (K P : View) (b : Bool) (s : Machine) → Of P s → Ensures (Of K) (Of P) (Of P) (ensure b s)
unfolding ensure
ensure-adb K P true s h = good h
ensure-adb K P false s h = bad h

apk_given :
    (K P : View) (i : Option ApkInfos) (s : Machine)
    → Of P s
    → Ensures {A = ApkInfos}
        (Of K)
        (Of P)
        (Of P)
        (elim i [ none ↦ rejected s | some j ↦ resolved j s ])
apk_given K P none s h = bad h
apk_given K P (some j) s h = good h

module _ {K P : View} where
  pub Triple-ensure : (b : Bool) → Triple K P P P (ensure b)
  unfolding ensure
  Triple-ensure true = record { at = λ s h. good h }
  Triple-ensure false = record { at = λ s h. bad h }

  pub Triple-with_adb : Triple K P P P with_adb
  unfolding with_adb
  Triple-with_adb = record { at = λ s h. ensure-adb K P s.adb s h }

  pub Triple-with_apk : Triple K P P P with_apk
  unfolding with_apk
  Triple-with_apk = record { at = λ s h. apk_given K P s.apk_infos s h }

-- A call is made and recorded, whether it is fulfilled or refused.
module _ {K P Q R : View} (w : World) (c : Call) where
  pub perform_rule :
      ((m : Machine) → Of P m → w.accepts m.history c ≡ true → Of Q (record_call c true m))
      → ((m : Machine) → Of P m → w.accepts m.history c ≡ false → Of R (record_call c false m))
      → Triple K P Q R (perform w c)
  unfolding perform
  perform_rule fulfilled refused = record {
    at = λ s h. elim (Bool-cases (w.accepts s.history c)) [
      | inl e ↦ rw e (good (fulfilled s h e))
      | inr e ↦ rw e (bad (refused s h e))
    ];
  }

-- What holds once a task has been tried: the log and the timeout play no part. A listener that rejects
-- ends the process.
module _ {K Done Lost : View} where
  pub Triple-when_throw :
      (b : Bool) (m : M (Unit {0}))
      → ((s : State) (f : Bool) (h : History) → Done s f h → Lost s f h)
      → Triple K Done Lost K m
      → Triple K Done Done Lost (when b (detach m >> throw))
  unfolding when detach ◌>>◌ throw pass
  Triple-when_throw true m weaken aborted = record { at = λ s h. late s (m s) (aborted.at s h) }
    where
      late :
          (m0 : Machine) (o : Outcome (Unit {0}))
          → Ensures (Of K) (Of Lost) (Of K) o
          → Ensures {A = Unit {0}} (Of K) (Of Done) (Of Lost) ((detach (λ _. o) >> throw) m0)
      late m0 (resolved _ t) (good h) = bad h
      late m0 (rejected t) (bad h) = over h
      late m0 (crashed t) (over h) = over h
  Triple-when_throw false m weaken aborted = record { at = λ s h. good h }
