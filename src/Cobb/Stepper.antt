-- ===== src/Cobb/Stepper.antt =====
-- shared/components/custom-stepper/custom-stepper.component.ts
use mathlib.Core.Path.{subst}
use testbench.Common.{
  ℕ, zero, suc, ◌≡◌, refl, Bool, true, false, ◌||◌, Option, none, some, List, [], ◌∷◌, String,
  ◌===◌, any, ltb, ◌==◌, if◌then◌else◌, get_or_else, is_truthy, Bool-cases, inl, inr, eq_iff,
  get_elem?, ◌∙◌,
}

-- `xs.indexOf(s)`; -1 is `none`.
abbrev next_index : Option ℕ → Option ℕ
next_index none = none
next_index (some i) = some (suc i)

index_of : List String → String → Option ℕ
index_of [] s = none
index_of (x ∷ xs) s = let rest = index_of xs s in if x === s then some 0 else next_index rest

abbrev pub steps : List String
steps = "QUEUED" ∷ "STARTED" ∷ "PREPARE" ∷ "INSTALL" ∷ "WORK" ∷ "COLLECT" ∷ "CLEANUP" ∷ []

abbrev failure_states : List String
failure_states = "FAILED_SUT" ∷ "FAILED_ARTHUR" ∷ "ABORTED" ∷ []

-- The fields of the component; the step -1 is `none`.
pub record Stepper : Type 0 where
  pub current_step : Option ℕ
  pub state : String

abbrev pub new_stepper : Stepper
new_stepper = record { current_step = some 0; state = "Unknown" }

-- The key that is shown for a new one.
abbrev shown_key : String → String
shown_key new_state = if new_state === "CREATED" then "QUEUED" else new_state

abbrev pub is_failure_state : String → Bool
is_failure_state s = any (λ (f : String). f === s) failure_states

-- `ngOnChanges` with the current and the previous value of `currentState`.
changed : String → Option String → Stepper
changed new_state previous_state =
    let state = shown_key new_state in
    let fallback_state = get_or_else previous_state "QUEUED" in
    record {
      state = state;
      current_step =
          if is_failure_state state then index_of steps fallback_state else index_of steps state;
    }

unfoldable pub on_changes : Stepper → Option String → Option String → Stepper
unfolding changed index_of
on_changes s none previous_state = s
on_changes s (some new_state) previous_state =
    if is_truthy new_state then changed new_state previous_state else s

below : ℕ → Option ℕ → Bool
below i none = false
below i (some step) = ltb i step

unfoldable pub is_completed : Stepper → ℕ → Bool
unfolding below
is_completed s i = below i s.current_step

at_step : ℕ → Option ℕ → Bool
at_step i none = false
at_step i (some step) = i == step

unfoldable pub is_current : Stepper → ℕ → Bool
unfolding at_step
is_current s i = at_step i s.current_step

unfoldable pub is_failure : Stepper → Bool
is_failure s = s.state === "FAILED_SUT" || s.state === "FAILED_ARTHUR"

unfoldable pub is_abort : Stepper → Bool
is_abort s = s.state === "ABORTED"

-- The stepper after all the values that were bound to it, each with the one before.
unfoldable pub after : Stepper → Option String → List String → Stepper
after s previous [] = s
after s previous (v ∷ vs) = after (on_changes s (some v) previous) (some v) vs

-- What a failure does to the stepper, for its key.
IsFailing : String → Type 0
IsFailing f =
    (s : Stepper) (p : String)
    → ((on_changes s (some f) (some p)).current_step ≡ index_of steps p)
      × ((is_failure (on_changes s (some f) (some p)) || is_abort (on_changes s (some f) (some p)))
          ≡ true)

failing : (f : String) → is_failure_state f ≡ true → IsFailing f
unfolding IsFailing on_changes changed is_failure is_abort
failing f e = elim (Bool-cases ("FAILED_SUT" === f)) [
  | inl hit ↦ subst IsFailing ((eq_iff "FAILED_SUT" f).0 hit) (λ s p. (refl, refl))
  | inr miss ↦ elim (Bool-cases ("FAILED_ARTHUR" === f)) [
    | inl hit ↦ subst IsFailing ((eq_iff "FAILED_ARTHUR" f).0 hit) (λ s p. (refl, refl))
    | inr miss2 ↦ elim (Bool-cases ("ABORTED" === f)) [
      | inl hit ↦ subst IsFailing ((eq_iff "ABORTED" f).0 hit) (λ s p. (refl, refl))
      | inr miss3 ↦ let none_left : false ≡ true = rw (miss, miss2, miss3) at e in cc
    ]
  ]
]

-- What a step does to the stepper, for its key.
IsStep : ℕ → String → Type 0
IsStep i p =
    (index_of steps p ≡ some i)
    × ((s : Stepper) → (on_changes s (some p) none).current_step ≡ some i)

literal : (i : ℕ) (key p : String) → IsStep i key → some key ≡ some p → IsStep i p
literal i key p h e = let same : key ≡ p = cc in subst (IsStep i) same h

stepping : (i : ℕ) (p : String) → get_elem? steps i ≡ some p → IsStep i p
unfolding IsStep on_changes changed index_of
stepping zero p e = literal 0 "QUEUED" p (refl, λ s. refl) e
stepping (suc zero) p e = literal 1 "STARTED" p (refl, λ s. refl) e
stepping (suc (suc zero)) p e = literal 2 "PREPARE" p (refl, λ s. refl) e
stepping (suc (suc (suc zero))) p e = literal 3 "INSTALL" p (refl, λ s. refl) e
stepping (suc (suc (suc (suc zero)))) p e = literal 4 "WORK" p (refl, λ s. refl) e
stepping (suc (suc (suc (suc (suc zero))))) p e = literal 5 "COLLECT" p (refl, λ s. refl) e
stepping (suc (suc (suc (suc (suc (suc zero)))))) p e = literal 6 "CLEANUP" p (refl, λ s. refl) e
stepping (suc (suc (suc (suc (suc (suc (suc i))))))) p e = cc

-- A measurement that fails or is aborted stays at the step that it was shown at, and is shown as
-- failed or aborted: where the previous value is the i-th step, the current step is i before and
-- after.
pub failure-keeps_step :
    (s : Stepper) (f previous : String) (i : ℕ)
    → is_failure_state f ≡ true
    → get_elem? steps i ≡ some previous
    → let before = on_changes s (some previous) none in
      let after_failure = on_changes before (some f) (some previous) in
      (after_failure.current_step ≡ some i)
      × (before.current_step ≡ some i)
      × ((is_failure after_failure || is_abort after_failure) ≡ true)
unfolding IsFailing IsStep
failure-keeps_step s f previous i bad_state at =
    let reached = stepping i previous at in
    let failed = failing f bad_state (on_changes s (some previous) none) previous in
    (failed.0 ∙ reached.0, reached.1 s, failed.1)

-- The key CREATED is shown at the first step, but a measurement that fails or is aborted right after it
-- is at no step: none is current, and none is completed.
pub failure-after_created :
    (s : Stepper) (f : String)
    → is_failure_state f ≡ true
    → let before = on_changes s (some "CREATED") none in
      let after_failure = on_changes before (some f) (some "CREATED") in
      (before.current_step ≡ some 0)
      × ((i : ℕ) → (is_current after_failure i ≡ false) × (is_completed after_failure i ≡ false))
unfolding IsFailing is_current is_completed below at_step
failure-after_created s f bad_state =
    let failed = failing f bad_state (on_changes s (some "CREATED") none) "CREATED" in
    let lost : index_of steps "CREATED" ≡ none = unfold index_of in refl in
    let gone = failed.0 ∙ lost in
    (unfold on_changes changed index_of in refl, λ i. (rw gone refl, rw gone refl))
