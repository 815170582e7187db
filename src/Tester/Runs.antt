-- ===== src/Tester/Runs.antt =====
-- The main loop ends, whatever the other systems answer, and keeps what its handlers keep.
use testbench.Common.{
  ℕ, zero, suc, ◌<◌, ◌≡◌, refl, Bool, true, false, Option, some, ◌⊎◌, inl, inr, arith, sym, ◌∙◌,
}
use mathlib.Core.Path.{subst}
use testbench.Tester.Table.{State, ended, take_screenshot, initial, state_eq, StateMachine}
use testbench.Tester.Successor.{next-successor, successor, IsLive, distance, distance-successor}
use testbench.Tester.Machine.{
  JobData, Settings, World, Machine, History, Outcome, resolved, rejected, crashed,
}
use testbench.Tester.Tasks.{is_headless}
use testbench.Tester.Loop.{handler, enter, advance, loop}
use testbench.Tester.Rules.{Ensures, good, bad, over, View, Of, Triple, quiet}
use testbench.Tester.Frame.{At, Stays, handler-Stays}

-- A screenshot is taken only after a failure.
abbrev pub IsShot : View
IsShot s f h = s ≡ take_screenshot → f ≡ true

-- The loop stops at the final state, and goes on from every other.
running :
    (s : State)
    → ((state_eq s ended ≡ true) × (s ≡ ended))
      ⊎ ((state_eq s ended ≡ false) × ((f : Bool) → (s ≡ take_screenshot → f ≡ true) → IsLive f s))
running ended = inl (refl, refl)
running take_screenshot = inr (refl, λ f h. h refl)
running initial = inr (refl, λ f h. tt)
running _ = inr (refl, λ f h. tt)

successor-shot :
    (h f : Bool) (s : State) → IsLive f s → successor h f s ≡ take_screenshot → f ≡ true
successor-shot true true s live e = refl
successor-shot false true s live e = refl
successor-shot true false initial live e = cc
successor-shot true false _ live e = ground arith
successor-shot false false initial live e = cc
successor-shot false false _ live e = ground arith

both :
    {A : Type 0} {K L P Q R S : Machine → Type 0} {o : Outcome A}
    → Ensures K P Q o
    → Ensures L R S o
    → Ensures K (λ m. P m × R m) (λ m. Q m × S m) o
both (good h) (good k) = good (h, k)
both (bad h) (bad k) = bad (h, k)
both (over h) (over k) = over h

module _ (w : World) (cfg : Settings) (job : JobData) where
  -- `Pre` holds when a state is entered, `Post` when its handler has resolved, `Lost` when it has
  -- rejected.
  pub record IsInvariant (K Pre Post Lost : View) : Type 0 where
    pub edge :
        (s : State) (f : Bool) (h : History)
        → IsLive f s
        → Post s f h
        → Pre (successor (is_headless job) f s) f h
    pub handled :
        (x : State)
        → Triple K
            (λ s f h. (s ≡ x) × Pre x f h)
            (λ s f h. (s ≡ x) × Post x f h)
            Lost
            (handler w cfg job x)

  -- The same of predicates on the machine.
  pub record IsKept (Pre Post : State → Machine → Type 0) (K Lost : Machine → Type 0) : Type 0 where
    pub leads :
        (m : Machine)
        → IsLive m.failed m.state
        → Post m.state m
        → let x = successor (is_headless job) m.failed m.state in Pre x (record m { state = x })
    pub kept :
        (x : State) (m : Machine)
        → m.state ≡ x
        → Pre x m
        → Ensures K (Post x) Lost (handler w cfg job x m)

  pub IsInvariant-IsKept :
      {K Pre Post Lost : View}
      → IsInvariant K Pre Post Lost
      → IsKept
          (λ x m. Pre x m.failed (quiet m.history))
          (λ x m. Post x m.failed (quiet m.history))
          (Of K)
          (Of Lost)
  IsInvariant-IsKept {K} {Post} {Lost} inv = record {
    leads = λ m live k. inv.edge m.state m.failed (quiet m.history) live k;
    kept = λ x m at k. forget ((inv.handled x).at m (at, k));
  }
    where
      forget :
          {P : Machine → Type 0} {Q R : Machine → Type 0} {o : Outcome (Unit {0})}
          → Ensures (Of K) (λ t. P t × Q t) R o
          → Ensures (Of K) Q R o
      forget (good h) = good h.1
      forget (bad h) = bad h
      forget (over h) = over h

module _ {w : World} {cfg : Settings} {job : JobData} {Pre Post : State → Machine → Type 0}
    {K Lost : Machine → Type 0} (lib : StateMachine) (inv : IsKept w cfg job Pre Post K Lost) where
  -- What holds of the machine between two rounds.
  abbrev Between : Machine → Type 0
  Between m = Post m.state m × Of IsShot m

  entered :
      {x : State} {g : Bool} (t : Machine)
      → (x ≡ take_screenshot → g ≡ true)
      → Of (Stays x g) t
      → Of IsShot t
  entered t shot (inl (same, kept)) = λ e. kept ∙ shot (sym same ∙ e)
  entered t shot (inr (same, set)) = λ e. set

  stays_in : {x : State} {g : Bool} (t : Machine) → Of (Stays x g) t → t.state ≡ x
  stays_in t (inl (same, kept)) = same
  stays_in t (inr (same, set)) = same

  closed :
      {x : State} {g : Bool} {o : Outcome (Unit {0})}
      → (x ≡ take_screenshot → g ≡ true)
      → Ensures K (λ t. Post x t × Of (Stays x g) t) (λ t. Lost t × Of (At x g) t) o
      → Ensures K (λ t. Between t × (t.state ≡ x)) Lost o
  closed shot (good {t} (post, stays)) =
      let same = stays_in t stays in
      good ((subst (λ y. Post y t) (sym same) post, entered t shot stays), same)
  closed shot (bad (lost, at)) = bad lost
  closed shot (over k) = over k

  enter_rule :
      (x : State) (m : Machine)
      → Pre x (record m { state = x })
      → (x ≡ take_screenshot → m.failed ≡ true)
      → Ensures K (λ t. Between t × (t.state ≡ x)) Lost (enter w cfg job x m)
  unfolding enter
  enter_rule x m pre shot = closed shot (
      both (inv.kept x (record m { state = x }) refl pre)
        ((handler-Stays w cfg job x m.failed x).at (record m { state = x }) (refl, refl)))

  advance_rule :
      (m : Machine)
      → IsLive m.failed m.state
      → Between m
      → Ensures K
          (λ t. Between t × (distance t.state < distance m.state))
          Lost
          (advance w cfg job lib m)
  unfolding advance
  advance_rule m live (post, shot) =
      let s = successor (is_headless job) m.failed m.state in
      rw (next-successor lib (is_headless job) m.failed m.state live, advance)
        (nearer (
          enter_rule s m (inv.leads m live post)
            (successor-shot (is_headless job) m.failed m.state live)))
    where
      nearer :
          {o : Outcome (Unit {0})}
          → Ensures K
              (λ t. Between t × (t.state ≡ successor (is_headless job) m.failed m.state))
              Lost
              o
          → Ensures K (λ t. Between t × (distance t.state < distance m.state)) Lost o
      nearer (good (b, e)) =
          good (b, rw (e) (distance-successor (is_headless job) m.failed m.state live))
      nearer (bad lost) = bad lost
      nearer (over k) = over k

  abbrev pub Ends : Outcome (Unit {0}) → Type 0
  Ends = Ensures K (λ t. (t.state ≡ ended) × Post ended t) Lost

  round_rule :
      (fuel : ℕ) (m : Machine) (o : Outcome (Unit {0}))
      → Ensures K (λ t. Between t × (distance t.state < distance m.state)) Lost o
      → distance m.state < suc fuel
      → ((t : Machine)
          → distance t.state < fuel
          → Between t
          → (p : Outcome (Unit {0})) × (loop w cfg job lib fuel t ≡ some p) × Ends p)
      → (p : Outcome (Unit {0})) × ((elim o as (λ _. Option (Outcome (Unit {0}))) [
        | resolved _ t ↦ loop w cfg job lib fuel t
        | rejected t ↦ some (rejected t)
        | crashed t ↦ some (crashed t)
      ])
          ≡ some p)
        × Ends p
  round_rule fuel m (resolved _ t) (good (b, nearer)) h ih = ih t (omega arith) b
  round_rule fuel m (rejected t) (bad lost) h ih = (rejected t, refl, bad lost)
  round_rule fuel m (crashed t) (over k) h ih = (crashed t, refl, over k)

  -- The loop ends, and its invariant holds at the end.
  pub loop_rule :
      (fuel : ℕ) (m : Machine)
      → distance m.state < fuel
      → Between m
      → (o : Outcome (Unit {0})) × (loop w cfg job lib fuel m ≡ some o) × Ends o
  unfolding loop
  loop_rule zero m h b = absurd (omega arith)
  loop_rule (suc fuel) m h b = elim (running m.state) [
    | inl (test, at) ↦
        (resolved tt m, rw (test, loop) refl, good (at, subst (λ y. Post y m) at b.0))
    | inr (test, live) ↦
        rw (test, loop)
          (round_rule fuel m (advance w cfg job lib m) (advance_rule m (live m.failed b.1) b) h
            (λ t near bt. loop_rule fuel t near bt))
  ]
