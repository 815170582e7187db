-- ===== src/Cobb/Overview.antt =====
-- features/applications/pages/application-details/application-details.component.ts: the page of an
-- application, with the last measurements of its contexts.
use testbench.Common.{
  ℕ, ◌≡◌, refl, Bool, false, Option, none, some, List, [], ◌∷◌, String, any, ◌===◌, ◌||◌,
  get_or_else, ap, sym, ◌∙◌,
}
use testbench.Cobb.Recent.{Measurement, Normalized, is_completed}

-- `ContextOverviewDto`, as far as the page reads it.
pub record ContextOverview : Type 0 where
  pub context_id : String
  pub name : String
  pub description : Option String
  pub last_measurement : Option Measurement

-- `InfoBoxMetrics` and `DashboardStatistics`
pub record InfoBoxMetric : Type 0 where
  pub title : String
  pub subtitle : String
  pub value : ℕ

pub record Statistics : Type 0 where
  pub applications : ℕ
  pub measurements : ℕ
  pub critical_applications : ℕ
  pub disrupted_applications : ℕ

-- The fields of the component that its answers write.
pub record Application : Type 0 where
  pub application_name : Option String
  pub description : Option String
  pub selected_tab_index : ℕ
  pub metrics : List InfoBoxMetric
  pub overview_data : Option Statistics
  pub normalized_measurements : List Normalized
  pub at_least_one_measurement_is_completed : Bool

abbrev or_of : Option String → Option String → Option String
or_of none other = other
or_of (some s) other = some s

abbrev put : ContextOverview → Option Measurement → List Normalized → List Normalized
put c none rest = rest
put c (some m) rest =
    record {
      context_id = c.context_id;
      name = c.name;
      description = or_of m.description c.description;
      last_measurement = m;
    }
    ∷ rest

-- `filter` and `map` of `loadEcoInsightsData`.
unfoldable pub normalized_of : List ContextOverview → List Normalized
normalized_of [] = []
normalized_of (c ∷ cs) = put c c.last_measurement (normalized_of cs)

abbrev completed : Option Measurement → Bool
completed none = false
completed (some m) = is_completed m

-- `c.lastMeasurement?.measurementState === MeasurementState.COMPLETED`
unfoldable pub has_completed : ContextOverview → Bool
has_completed c = completed c.last_measurement

-- The answer to `loadEcoInsightsData`.
unfoldable pub contexts_loaded : List ContextOverview → Application → Application
unfolding normalized_of has_completed
contexts_loaded contexts a = record a {
  normalized_measurements = normalized_of contexts;
  at_least_one_measurement_is_completed = any has_completed contexts;
}

abbrev metric : String → String → ℕ → InfoBoxMetric
metric title subtitle value = record { title = title; subtitle = subtitle; value = value }

-- The answer to `retrieveAllMeasurements`.
unfoldable pub counts_loaded : Statistics → Application → Application
counts_loaded response a = record a {
  overview_data = some response;
  metrics =
      metric "Application Context" "amount" response.applications
      ∷ metric "Measurements" "amount" response.measurements
      ∷ metric "Critical Measurements" "amount" response.critical_applications
      ∷ metric "Disrupted Measurements" "amount" response.disrupted_applications
      ∷ [];
}

-- `ngOnInit`, on the answer of `getApplicationById`.
unfoldable pub application_loaded : String → Option String → Application → Application
application_loaded name description a = record a {
  application_name = some name;
  description = description;
}

-- `editApplicationDialog`, on the answer of `updateApplication`.
unfoldable pub application_edited : String → Option String → Application → Application
application_edited name description a = record a {
  application_name = some name;
  description = some (get_or_else description "");
}

unfoldable pub on_tab_change : ℕ → Application → Application
on_tab_change index a = record a { selected_tab_index = index }

-- `getMetricClasses`: critical, disrupted.
unfoldable pub get_metric_classes : String → Bool × Bool
get_metric_classes title = (title === "Critical Measurements", title === "Disrupted Measurements")

abbrev any_completed : List Normalized → Bool
any_completed ns = any (λ (n : Normalized). is_completed n.last_measurement) ns

put-any_completed :
    (c : ContextOverview) (m : Option Measurement) (rest : List Normalized)
    → any_completed (put c m rest) ≡ completed m || any_completed rest
put-any_completed c none rest = refl
put-any_completed c (some m) rest = refl

normalized-any_completed :
    (contexts : List ContextOverview)
    → any has_completed contexts ≡ any_completed (normalized_of contexts)
unfolding normalized_of has_completed
normalized-any_completed [] = refl
normalized-any_completed (c ∷ cs) =
    ap (λ b. completed c.last_measurement || b) (normalized-any_completed cs)
    ∙ sym (put-any_completed c c.last_measurement (normalized_of cs))

-- The page tells of a completed measurement exactly when one of those that it shows is completed.
pub loaded-any_completed :
    (contexts : List ContextOverview) (a : Application)
    → let loaded = contexts_loaded contexts a in
      loaded.at_least_one_measurement_is_completed
      ≡ any (λ (n : Normalized). is_completed n.last_measurement) loaded.normalized_measurements
unfolding contexts_loaded
loaded-any_completed contexts a = normalized-any_completed contexts
