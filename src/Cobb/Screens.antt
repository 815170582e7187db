-- ===== src/Cobb/Screens.antt =====
-- The page of a context (application-context-details.component.ts) with the screen that it shows
-- (shared/components/eco-insights-screen): the page's `normalizedMeasurements` are the screen's input.
use testbench.Common.{
  ℕ, zero, suc, ◌≤◌, ◌≡◌, refl, Option, some, List, [], ◌∷◌, String, map, take, length, ap, sym,
  ◌∙◌, arith,
}
use testbench.Cobb.Recent.{
  Measurement, Details, measurements_loaded, completed_measurements, normalized,
}
use testbench.Cobb.Latest.{completed-latest}
use testbench.Cobb.Categories.{
  Values, Screen, Event, measured, chosen, barred, handle, handle_all, start, names_of, values_of,
}
use testbench.Cobb.Settled.{IsSettled, screen-IsSettled, handle-normalized, start-normalized}
use testbench.Cobb.Recent as Recent
use testbench.Cobb.Categories as Categories

module _ {N : Type 0} (values : Measurement → Values N) where
  -- What the screen reads of the page's measurements; `values` are the numbers of a measurement.
  abbrev pub item : Recent.Normalized → Categories.Normalized N
  item n = record { name = n.name; last_measurement = values n.last_measurement }

  abbrev pub input : List Measurement → Details → List (Categories.Normalized N)
  input ms d = map item (measurements_loaded ms d).normalized_measurements

-- What happens on the page: the context's measurements are loaded, a category is clicked, a bar is
-- chosen or left.
pub data PageEvent : Type 0 where
  loaded : List Measurement → PageEvent
  clicked : ℕ → PageEvent
  hovered : Option ℕ → PageEvent

length-map_any : {A : Type 0} {B : Type 0} (f : A → B) (xs : List A) → length (map f xs) ≡ length xs
length-map_any f [] = refl
length-map_any f (x ∷ xs) = ap suc (length-map_any f xs)

take-short : {A : Type 0} (n : ℕ) (xs : List A) → length xs ≤ n → take n xs ≡ xs
take-short zero [] short = refl
take-short zero (x ∷ xs) short = absurd (omega arith)
take-short (suc n) [] short = refl
take-short (suc n) (x ∷ xs) short = ap (λ ys. x ∷ ys) (take-short n xs (omega arith))

module _ {N : Type 0} (values : Measurement → Values N) (d : Details) where
  abbrev pub to_event : PageEvent → Event N
  to_event (loaded ms) = measured (input values ms d)
  to_event (clicked n) = chosen n
  to_event (hovered index) = barred index

  -- The screen of the page after the events; no measurements are there at the start.
  abbrev pub screen : List PageEvent → Screen N
  screen es = handle_all (map to_event es) (start [])

  input-short : (ms : List Measurement) → length (input values ms d) ≤ 10
  unfolding measurements_loaded
  input-short ms =
      let shown = completed_measurements ms in
      let same =
        length-map_any (item values) (map (normalized d.context_id) shown)
        ∙ length-map_any (normalized d.context_id) shown in
      omega (arith, same, (completed-latest ms).0)

  IsShort : Screen N → Type 0
  IsShort s = length s.normalized_measurements ≤ 10

  step-IsShort : (e : PageEvent) (s : Screen N) → IsShort s → IsShort (handle (to_event e) s)
  unfolding IsShort
  step-IsShort (loaded ms) s h =
      let same = handle-normalized (measured (input values ms d)) s in rw same (input-short ms)
  step-IsShort (clicked n) s h = rw (handle-normalized (chosen n) s) h
  step-IsShort (hovered index) s h = rw (handle-normalized (barred index) s) h

  run-IsShort :
      (es : List PageEvent) (s : Screen N) → IsShort s → IsShort (handle_all (map to_event es) s)
  unfolding handle_all
  run-IsShort [] s h = h
  run-IsShort (e ∷ es) s h = run-IsShort es (handle (to_event e) s) (step-IsShort e s h)

  screen-IsShort : (es : List PageEvent) → IsShort (screen es)
  unfolding IsShort
  screen-IsShort es = run-IsShort es (start []) (rw (start-normalized []) (omega arith))

  -- On the page of a context each name at the axis has its bar: after any events the screen has as
  -- many values of the chosen category as names of measurements.
  pub bars-names :
      (es : List PageEvent) (vs : List N) (names : List String)
      → (screen es).category_values ≡ some vs
      → (screen es).all_last_measurements ≡ some names
      → length vs ≡ length names
  unfolding IsShort
  bars-names es vs names bars axis =
      let s : Screen N = screen es in
      let h : IsSettled s = screen-IsSettled [] (map to_event es) in
      let all : List N = values_of h.shown.key s.normalized_measurements in
      let shown : some (take 10 all) ≡ some vs = sym h.values_lem ∙ bars in
      let named : some (names_of s.normalized_measurements) ≡ some names = sym h.names_lem ∙ axis in
      let same_vs : take 10 all ≡ vs = cc in
      let same_names : names_of s.normalized_measurements ≡ names = cc in
      let counted =
        length-map_any
          (λ (n : Categories.Normalized N). Categories.value_of_key h.shown.key n.last_measurement)
          s.normalized_measurements in
      let whole = take-short 10 all (omega (arith, counted, screen-IsShort es)) in
      ap length (sym same_vs)
      ∙ ap length whole
      ∙ counted
      ∙ sym (length-map_any (λ (n : Categories.Normalized N). n.name) s.normalized_measurements)
      ∙ ap length same_names
