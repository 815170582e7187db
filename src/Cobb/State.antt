-- ===== src/Cobb/State.antt =====
-- shared/enums/measurement-state.enum.ts and shared/utils/status-file.util.ts. A state is the text
-- that the backend sends; names of `Object.prototype`, such as "toString", are not modelled.
use testbench.Common.{
  ◌≡◌, refl, ◌≢◌, Bool, true, false, Option, none, some, List, [], ◌∷◌, String, ◌===◌, any, All,
  is_truthy, if◌then◌else◌, eq_iff, get_or_else, arith, Bool-cases, inl, inr, ◌⊎◌, ap,
}

-- The enum: its keys with their values.
abbrev pub measurement_state : List (String × String)
measurement_state =
    ("CREATED", "QUEUED")
    ∷ ("CONFIGURED", "CONFIGURED")
    ∷ ("FAILED", "FAILED")
    ∷ ("FAILED_ARTHUR", "FAILED")
    ∷ ("FAILED_SUT", "FAILED")
    ∷ ("COMPLETED", "COMPLETED")
    ∷ ("QUEUED", "QUEUED")
    ∷ ("RUNNING", "RUNNING")
    ∷ ("PREPARE", "RUNNING")
    ∷ ("INSTALL", "RUNNING")
    ∷ ("COLLECT", "RUNNING")
    ∷ ("CLEANUP", "RUNNING")
    ∷ ("STARTED", "RUNNING")
    ∷ ("WORK", "RUNNING")
    ∷ ("ABORTED", "ABORTED")
    ∷ ("Unknown", "Unknown")
    ∷ []

-- `MeasurementState[s]`
abbrev look_up : List (String × String) → String → Option String
look_up [] s = none
look_up ((key, value) ∷ rest) s = if key === s then some value else look_up rest s

unfoldable pub state_at : String → Option String
state_at s = look_up measurement_state s

-- `Object.values(MeasurementState).includes(s)`
unfoldable pub is_state : String → Bool
is_state s = any (λ (entry : String × String). entry.1 === s) measurement_state

-- `resolveMeasurementState`: a text that is missing or no key has no state.
unfoldable pub resolve_measurement_state : Option String → Option String
resolve_measurement_state none = none
resolve_measurement_state (some s) = if is_truthy s then state_at s else none

-- `isValue ? s : MeasurementState[s] || s`, which the pages keep.
truthy_or : Option String → String → String
truthy_or none s = s
truthy_or (some value) s = if is_truthy value then value else s

unfoldable pub value_of : String → String
unfolding truthy_or
value_of s = if is_state s then s else truthy_or (state_at s) s

-- `resolveState` of measurement-results.component.ts
unfoldable pub resolve_state : String → String
resolve_state s = if is_state s then s else get_or_else (state_at s) "Unknown"

pub record StatusInfo : Type 0 where
  pub status : String
  pub icon : String
  pub tooltip : String

abbrev info : String → String → String → StatusInfo
info s i t = record { status = s; icon = i; tooltip = t }

abbrev unknown_status : StatusInfo
unknown_status = info "" "help" "Unknown status"

-- The cases of `getStatusInfo` in their order; the first compares with the value of `CREATED`.
abbrev other_cases : List (String × StatusInfo)
other_cases =
    (
      "CONFIGURED",
      info "status-configured" "clock_loader_40" "configured and ready for measurement",
    )
    ∷ ("RUNNING", info "status-running" "pending" "measurement is running")
    ∷ ("FAILED", info "status-failed" "error" "has encountered an error and could not complete")
    ∷ (
      "COMPLETED",
      info "status-completed" "check_circle"
          "finished measurement successfully or with results available",
    )
    ∷ []

abbrev aborted_case : String × StatusInfo
aborted_case = ("ABORTED", info "status-aborted" "cancel" "has been aborted by the user")

abbrev status_cases : List (String × StatusInfo)
status_cases =
    ("QUEUED", info "status-created" "clock_loader_20" "created but not yet configured")
    ∷ aborted_case
    ∷ (
      "QUEUED",
      info "status-triggered" "clock_loader_90" "initiated and is waiting to be measured",
    )
    ∷ other_cases

-- `switch`: the first case that is equal.
abbrev switch_on : String → List (String × StatusInfo) → StatusInfo
switch_on s [] = unknown_status
switch_on s ((case, answer) ∷ cases) =
    let rest = switch_on s cases in if s === case then answer else rest

unfoldable pub get_status_info : Option String → StatusInfo
get_status_info none = unknown_status
get_status_info (some s) = switch_on s status_cases

pub differs : (s t : String) → (s === t) ≡ false → s ≢ t
differs s t e same = let hit : (s === t) ≡ true = (eq_iff s t).1 same in cc

NotTriggered : StatusInfo → Type 0
NotTriggered i = i.status ≢ "status-triggered"

switch_on-NotTriggered :
    (s : String) (cases : List (String × StatusInfo))
    → All (λ (c : String × StatusInfo). NotTriggered c.1) cases
    → NotTriggered (switch_on s cases)
switch_on-NotTriggered s [] h = unfold NotTriggered in differs _ _ refl
switch_on-NotTriggered s ((case, answer) ∷ cases) (h, hs) = elim (Bool-cases (s === case)) [
  | inl hit ↦ rw hit h
  | inr miss ↦ rw miss (switch_on-NotTriggered s cases hs)
]

-- No state is ever shown as triggered, since a queued one is shown as created.
pub never_triggered : (s : Option String) → (get_status_info s).status ≢ "status-triggered"
unfolding get_status_info NotTriggered
never_triggered none = differs _ _ refl
never_triggered (some s) = elim (Bool-cases (s === "QUEUED")) [
  | inl hit ↦ rw hit (differs _ _ refl)
  | inr miss ↦
      let same : switch_on s status_cases ≡ switch_on s (aborted_case ∷ other_cases) =
        rw miss refl in
      rw same (
        switch_on-NotTriggered s (aborted_case ∷ other_cases) (
          differs _ _ refl,
          (differs _ _ refl, (differs _ _ refl, (differs _ _ refl, (differs _ _ refl, tt)))),
        ))
]

look_up-any :
    (table : List (String × String)) (s v : String)
    → look_up table s ≡ some v
    → any (λ (entry : String × String). entry.1 === v) table ≡ true
look_up-any [] s v e = cc
look_up-any ((key, value) ∷ rest) s v e = elim (Bool-cases (key === s)) [
  | inl hit ↦
      let here : some value ≡ some v = rw hit at e in
      let same : value ≡ v = cc in
      let equal : (value === v) ≡ true = (eq_iff value v).1 same in ground (arith, equal)
  | inr miss ↦
      let later : look_up rest s ≡ some v = rw miss at e in
      ground (arith, look_up-any rest s v later)
]

-- A value that a key leads to is a value of the enum.
state_at-is_state : (s v : String) → state_at s ≡ some v → is_state v ≡ true
unfolding state_at is_state
state_at-is_state s v e = look_up-any measurement_state s v e

value_of-is_state : (s : String) → is_state s ≡ true → value_of s ≡ s
unfolding value_of
value_of-is_state s e = rw e refl

truthy_or-cases :
    (s : String) (o : Option String)
    → state_at s ≡ o
    → (truthy_or o s ≡ s) ⊎ (is_state (truthy_or o s) ≡ true)
unfolding truthy_or
truthy_or-cases s none e = inl refl
truthy_or-cases s (some v) e = elim (Bool-cases (is_truthy v)) [
  | inl hit ↦ inr (rw hit (state_at-is_state s v e))
  | inr miss ↦ inl (rw miss refl)
]

-- A resolved text is the text itself or a state.
value_of-cases : (s : String) → (value_of s ≡ s) ⊎ (is_state (value_of s) ≡ true)
unfolding value_of
value_of-cases s = elim (Bool-cases (is_state s)) [
  | inl hit ↦ inr (rw hit hit)
  | inr miss ↦ rw miss (truthy_or-cases s (state_at s) refl)
]

-- Resolving a text a second time changes nothing.
pub value_of-value_of : (s : String) → value_of (value_of s) ≡ value_of s
value_of-value_of s = elim (value_of-cases s) [
  | inl same ↦ ap value_of same
  | inr known ↦ value_of-is_state (value_of s) known
]
