-- ===== src/Tester/Fuel.antt =====
-- The fuel of the job's loop in MobilePhoneTesterJob.ts.
use testbench.Common.{
  ℕ, zero, suc, ◌+◌, ◌-◌, ◌≤◌, ◌≡◌, refl, Bool, true, false, Option, none, some, arith, ap,
}
use mathlib.Core.Path.{subst}
use mathlib.Core.Option
use testbench.Tester.Table.{StateMachine, state_eq, ended}
use testbench.Tester.Machine.{
  JobData, Settings, World, Machine, Outcome, resolved, rejected, crashed,
}
use testbench.Tester.Loop.{loop, advance, new_machine, verdict, run_job}
use testbench.Tester.Analysis.{analysis-IsJustified}

-- One round of two loops, where the rounds after it end alike.
round :
    {o : Outcome (Unit {0})} {f g : Machine → Option (Outcome (Unit {0}))} (m : Machine)
    (stop : Bool) (a : Outcome (Unit {0}))
    → ((t : Machine) → f t ≡ some o → g t ≡ some o)
    → (elim stop as (λ _. Option (Outcome (Unit {0}))) [
      | true ↦ some (resolved tt m)
      | false ↦ elim a as (λ _. Option (Outcome (Unit {0}))) [
        | resolved _ t ↦ f t
        | rejected t ↦ some (rejected t)
        | crashed t ↦ some (crashed t)
      ]
    ])
      ≡ some o
    → (elim stop as (λ _. Option (Outcome (Unit {0}))) [
      | true ↦ some (resolved tt m)
      | false ↦ elim a as (λ _. Option (Outcome (Unit {0}))) [
        | resolved _ t ↦ g t
        | rejected t ↦ some (rejected t)
        | crashed t ↦ some (crashed t)
      ]
    ])
      ≡ some o
round m true a alike h = h
round m false (resolved _ t) alike h = alike t h
round m false (rejected t) alike h = h
round m false (crashed t) alike h = h

module _ (w : World) (cfg : Settings) (job : JobData) (lib : StateMachine) where
  -- More fuel keeps the end.
  loop-add :
      (fuel k : ℕ) (m : Machine) (o : Outcome (Unit {0}))
      → loop w cfg job lib fuel m ≡ some o
      → loop w cfg job lib (fuel + k) m ≡ some o
  unfolding loop
  loop-add zero k m o e = cc
  loop-add (suc fuel) k m o e =
      let more : suc fuel + k ≡ suc (fuel + k) = omega arith in
      rw more (
        round m (state_eq m.state ended) (advance w cfg job lib m) (λ t h. loop-add fuel k t o h) e)

  map-some :
      (x : Option (Outcome (Unit {0}))) (p : Outcome (Unit {0}))
      → Option.map verdict x ≡ some p
      → (o : Outcome (Unit {0})) × (x ≡ some o)
  map-some none p e = cc
  map-some (some o) p e = (o, refl)

  -- The loop ends, whatever the other systems answer: with any fuel of at least 24 it gives one and
  -- the same end, which the job's function then returns or throws.
  pub loop-enough_fuel :
      (o : Outcome (Unit {0})) × (run_job w cfg job lib ≡ some (verdict o))
      × ((fuel : ℕ) → 24 ≤ fuel → loop w cfg job lib fuel new_machine ≡ some o)
  unfolding run_job
  loop-enough_fuel =
      let (p, runs, kept) = analysis-IsJustified w cfg job lib in
      let (o, ends) = map-some (loop w cfg job lib 24 new_machine) p runs in
      (
        o,
        ap (Option.map verdict) ends,
        λ fuel enough.
            let split : 24 + (fuel - 24) ≡ fuel = omega arith in
            subst (λ n. loop w cfg job lib n new_machine ≡ some o) split
              (loop-add 24 (fuel - 24) new_machine o ends),
      )
