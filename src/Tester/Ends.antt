-- ===== src/Tester/Ends.antt =====
-- How the job's function of MobilePhoneTesterJob.ts ends, and what holds at its end.
use testbench.Common.{◌∷◌, String, ◌≡◌, refl, Bool, true, false, some, [], ◌⊎◌, inl, inr, arith}
use testbench.Tester.Table.{State, initial, ended, StateMachine}
use testbench.Tester.Machine.{
  run_emulator, remove_container, JobData, Settings, World, Machine, History, Outcome, resolved,
  rejected, crashed,
}
use testbench.Tester.Loop.{new_machine, throw_if, verdict, run_job}
use testbench.Tester.Rules.{Ensures, good, bad, over, View, Of, quiet}
use testbench.Tester.Runs.{IsInvariant, IsKept, IsInvariant-IsKept, loop_rule}

abbrev pub machine_of : Outcome (Unit {0}) → Machine
machine_of (resolved _ m) = m
machine_of (rejected m) = m
machine_of (crashed m) = m

-- The calls that the job has made, the log's lines left out.
abbrev pub calls_of : Outcome (Unit {0}) → History
calls_of o = quiet (machine_of o).history

-- How the job's function ends: it returns after the last state with nothing failed, throws there
-- after a failure, a handler has rejected, or the process has ended.
abbrev pub Final :
    (Machine → Type 0) → (Machine → Type 0) → (Machine → Type 0) → Outcome (Unit {0}) → Type 0
Final K Post Lost (resolved _ m) = (m.failed ≡ false) × Post m
Final K Post Lost (rejected m) = ((m.failed ≡ true) × Post m) ⊎ Lost m
Final K Post Lost (crashed m) = K m

-- The promise of a call that the job does not wait for was rejected: docker did not run the emulator,
-- or did not remove the container `test` of a UI test whose time was over.
abbrev pub Unheard : String → History → Type 0
Unheard test [] = ⊥
Unheard test ((run_emulator i n k, false) ∷ h) = Unit
Unheard test ((remove_container n, false) ∷ h) = (n ≡ test) ⊎ Unheard test h
Unheard test ((_, ok) ∷ h) = Unheard test h

-- `Over` of the calls where the process has ended, `G` where the function has returned or thrown.
abbrev pub Closes : (Bool → History → Type 0) → (History → Type 0) → Outcome (Unit {0}) → Type 0
Closes G Over (resolved _ m) = G m.failed (quiet m.history)
Closes G Over (rejected m) = G m.failed (quiet m.history)
Closes G Over (crashed m) = Over (quiet m.history)

module _ (K Post Lost : Machine → Type 0) where
  throw_if_rule :
      (b : Bool) (m : Machine) → m.failed ≡ b → Post m → Final K Post Lost (throw_if b m)
  unfolding throw_if
  throw_if_rule true m e post = inl (e, post)
  throw_if_rule false m e post = (e, post)

  verdict_rule :
      (o : Outcome (Unit {0}))
      → Ensures K (λ t. (t.state ≡ ended) × Post t) Lost o
      → Final K Post Lost (verdict o)
  unfolding verdict
  verdict_rule _ (good {t} (at, post)) = throw_if_rule t.failed t refl post
  verdict_rule _ (bad lost) = inr lost
  verdict_rule _ (over k) = k

-- The job's function ends, and what its handlers keep holds of its end.
pub run_machine_rule :
    {w : World} {cfg : Settings} {job : JobData} {Pre Post : State → Machine → Type 0}
    {K Lost : Machine → Type 0} (lib : StateMachine)
    → IsKept w cfg job Pre Post K Lost
    → Post initial new_machine
    → (o : Outcome (Unit {0})) × (run_job w cfg job lib ≡ some o) × Final K (Post ended) Lost o
unfolding run_job
run_machine_rule lib inv begin =
    let (o, runs, ends) = loop_rule lib inv 24 new_machine (omega arith) (begin, λ e. cc) in
    (verdict o, rw runs, verdict_rule _ _ _ o ends)

-- The machine's view at the end.
abbrev pub Seen : View → State → Machine → Type 0
Seen V x m = V x m.failed (quiet m.history)

pub run_job_rule :
    {w : World} {cfg : Settings} {job : JobData} {K Pre Post Lost : View} (lib : StateMachine)
    → IsInvariant w cfg job K Pre Post Lost
    → Post initial false []
    → (o : Outcome (Unit {0})) × (run_job w cfg job lib ≡ some o)
      × Final (Of K) (Seen Post ended) (Of Lost) o
run_job_rule {w} {cfg} {job} {K} {Pre} {Post} {Lost} lib inv begin =
    run_machine_rule {Pre = Seen Pre} {Post = Seen Post} {K = Of K} {Lost = Of Lost} lib
      (IsInvariant-IsKept w cfg job inv) begin

-- What the invariant says of the failure and of the calls at the end.
pub Final-Closes :
    (G : Bool → History → Type 0) (Over : History → Type 0) {K Post Lost : Machine → Type 0}
    → ((m : Machine) → Post m → G m.failed (quiet m.history))
    → ((m : Machine) → Lost m → G m.failed (quiet m.history))
    → ((m : Machine) → K m → Over (quiet m.history))
    → (o : Outcome (Unit {0})) → Final K Post Lost o
    → Closes G Over o
Final-Closes G Over post lost stopped (resolved _ m) (ok, k) = post m k
Final-Closes G Over post lost stopped (rejected m) (inl (ko, k)) = post m k
Final-Closes G Over post lost stopped (rejected m) (inr k) = lost m k
Final-Closes G Over post lost stopped (crashed m) k = stopped m k

-- What holds at every end.
pub Closes-always :
    (G : Bool → History → Type 0) (o : Outcome (Unit {0}))
    → Closes G (λ h. (f : Bool) → G f h) o
    → G (machine_of o).failed (calls_of o)
Closes-always G (resolved _ m) k = k
Closes-always G (rejected m) k = k
Closes-always G (crashed m) k = k m.failed

pub Closes-weaken :
    (G : Bool → History → Type 0) (A B : History → Type 0) (o : Outcome (Unit {0}))
    → ((h : History) → A h → B h)
    → Closes G A o
    → Closes G B o
Closes-weaken G A B (resolved _ m) weaken k = k
Closes-weaken G A B (rejected m) weaken k = k
Closes-weaken G A B (crashed m) weaken k = weaken (quiet m.history) k
