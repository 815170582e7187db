-- ===== src/Tester/Track.antt =====
-- Rules for asynchronous functions whose predicates also look at the variables `adb` and `apkInfos`
-- of the job, in MobilePhoneTesterJob.ts.
use testbench.Common.{Bool, true, false, Option, none, some, String, inl, inr, Bool-cases}
use testbench.Tester.Machine.{
  Call, World, Machine, History, ApkInfos, Outcome, resolved, rejected, M, ◌>>=◌, ◌>>◌, pass,
  ensure, observe, detach, perform,
}
use testbench.Tester.Tasks.{with_adb, with_apk, set_adb_config, set_adb, set_apk, adb_config, log}
use testbench.Tester.Rules.{Ensures, good, bad, over, note, quiet, run_bind}

-- A predicate on `failed`, on whether there is a connection, on what is known of the APK and on the
-- calls that are not log lines.
abbrev pub Sight : Type 1
Sight = Bool → Bool → Option ApkInfos → History → Type 0

abbrev pub Sees : Sight → Machine → Type 0
Sees V m = V m.failed m.adb m.apk_infos (quiet m.history)

-- `m` leads from `P` to `Q` where it resolves, to `R` where it rejects, and to `K` where it ends the
-- process.
pub record Track {A : Type 0} (K P Q R : Sight) (m : M A) : Type 0 where
  pub from : (s : Machine) → Sees P s → Ensures (Sees K) (Sees Q) (Sees R) (m s)

-- What `P` has, `Q` has.
abbrev pub Gives : Sight → Sight → Type 0
Gives P Q = (f a : Bool) (i : Option ApkInfos) (h : History) → P f a i h → Q f a i h

-- The call leaves the predicate as it is, fulfilled or not.
abbrev pub Overlooks : Sight → Call → Type 0
Overlooks V c =
    (f a ok : Bool) (i : Option ApkInfos) (h : History) → V f a i h → V f a i (note c ok h)

module _ {K P Q R S : Sight} where
  pub Track-bind :
      {A B : Type 0} {m : M A} {k : A → M B}
      → Track K P Q R m
      → ((a : A) → Track K Q S R (k a))
      → Track K P S R (m >>= k)
  unfolding ◌>>=◌
  Track-bind {m} {k} first next = record {
    from = λ s h.
        run_bind (Sees K) (Sees Q) (Sees R) (Sees S) (m s) k (first.from s h)
          (λ a t. (next a).from t);
  }

  pub Track-then :
      {B : Type 0} {m : M (Unit {0})} {k : M B}
      → Track K P Q R m
      → Track K Q S R k
      → Track K P S R (m >> k)
  unfolding ◌>>◌
  Track-then {m} {k} first next = record {
    from = λ s h.
        run_bind (Sees K) (Sees Q) (Sees R) (Sees S) (m s) _ (first.from s h) (λ a t. next.from t);
  }

-- The functions that make no call.
module _ {K V R : Sight} where
  pub Track-pass : Track K V V R pass
  unfolding pass
  Track-pass = record { from = λ s h. good h }

  pub Track-observe : {A : Type 0} (f : History → A) → Track K V V R (observe f)
  unfolding observe
  Track-observe f = record { from = λ s h. good h }

  pub Track-adb_config : Track K V V R adb_config
  unfolding adb_config
  Track-adb_config = record { from = λ s h. good h }

  pub Track-set_adb_config : (text : String) → Track K V V R (set_adb_config text)
  unfolding set_adb_config
  Track-set_adb_config text = record { from = λ s h. good h }

  -- A predicate that does not look at the connection, or at the APK.
  pub Track-set_adb :
      ((f a : Bool) (i : Option ApkInfos) (h : History) → V f a i h → V f true i h)
      → Track K V V R set_adb
  unfolding set_adb
  Track-set_adb kept = record { from = λ s h. good (kept _ _ _ _ h) }

  pub Track-set_apk :
      (j : Option ApkInfos)
      → ((f a : Bool) (i : Option ApkInfos) (h : History) → V f a i h → V f a j h)
      → Track K V V R (set_apk j)
  unfolding set_apk
  Track-set_apk j kept = record { from = λ s h. good (kept _ _ _ _ h) }

kept_apk :
    (K V : Sight) (o : Option ApkInfos) (s : Machine)
    → Sees V s
    → Ensures
        (Sees K)
        (Sees V)
        (Sees V)
        (elim o as (λ _. Outcome ApkInfos) [ none ↦ rejected s | some i ↦ resolved i s ])
kept_apk K V none s h = bad h
kept_apk K V (some i) s h = good h

waited :
    (K V R : Sight) (s : Machine) (o : Outcome (Unit {0}))
    → Ensures (Sees K) (Sees V) (Sees K) o
    → Ensures (Sees K) (Sees V) (Sees R) (detach (λ _. o) s)
unfolding detach
waited K V R s _ (good h) = good h
waited K V R s _ (bad h) = over h
waited K V R s _ (over h) = over h

module _ {K V : Sight} where
  pub Track-ensure : (b : Bool) → Track K V V V (ensure b)
  unfolding ensure
  Track-ensure true = record { from = λ s h. good h }
  Track-ensure false = record { from = λ s h. bad h }

  pub Track-with_adb : Track K V V V with_adb
  unfolding with_adb
  Track-with_adb = record { from = λ s h. (Track-ensure s.adb).from s h }

  pub Track-with_apk : Track K V V V with_apk
  unfolding with_apk
  Track-with_apk = record { from = λ s h. kept_apk K V s.apk_infos s h }

  pub Track-perform : (w : World) (c : Call) → Overlooks V c → Track K V V V (perform w c)
  unfolding perform
  Track-perform w c same = record {
    from = λ s h. elim (Bool-cases (w.accepts s.history c)) [
      | inl e ↦ rw e (good (same _ _ _ _ _ h))
      | inr e ↦ rw e (bad (same _ _ _ _ _ h))
    ];
  }

  pub Track-log : (w : World) (text : String) → Track K V V V (log w text)
  unfolding log
  Track-log w text = Track-perform w _ (λ f a ok i h v. v)

  pub Track-detach : {R : Sight} (m : M (Unit {0})) → Track K V V K m → Track K V V R (detach m)
  unfolding detach
  Track-detach {R} m t = record { from = λ s h. waited K V R s (m s) (t.from s h) }

module _ {K V : Sight} where
  pub Track-keep_bind :
      {A B : Type 0} {m : M A} {k : A → M B}
      → Track K V V V m
      → ((a : A) → Track K V V V (k a))
      → Track K V V V (m >>= k)
  Track-keep_bind = Track-bind

  pub Track-keep_then :
      {m k : M (Unit {0})} → Track K V V V m → Track K V V V k → Track K V V V (m >> k)
  Track-keep_then = Track-then

pub ruleset track_rules = (
  Track-keep_bind, Track-keep_then, Track-pass, Track-observe, Track-adb_config,
  Track-set_adb_config, Track-set_adb, Track-set_apk, Track-ensure, Track-with_adb, Track-with_apk,
  Track-perform, Track-log,
)
