-- ===== src/Cobb/Categories.antt =====
-- shared/components/eco-insights-screen/eco-insights-screen.component.ts: the values of the category
-- that is chosen. `N` is the type of a measurement's values.
use testbench.Common.{
  ℕ, Bool, true, false, Option, none, some, List, [], ◌∷◌, ◌++◌, String, map, find, get_elem?, take,
  ◌===◌, ◌||◌, not, is_given, if◌then◌else◌,
}

-- `NumericMeasurementKey`
pub data Key : Type 0 where
  ecodigit_score : Key
  adp : Key
  ced : Key
  gwp : Key
  water : Key
  weee : Key
  tox : Key

-- The numbers of `MeasurementOverviewData`.
pub record Values (N : Type 0) : Type 0 where
  pub ecodigit_score : N
  pub adp : N
  pub ced : N
  pub gwp : N
  pub water : N
  pub weee : N
  pub tox : N

-- `NormalizedMeasurement`
pub record Normalized (N : Type 0) : Type 0 where
  pub name : String
  pub last_measurement : Values N

-- A category, without its image.
pub record Category : Type 0 where
  pub label : String
  pub key : Key
  pub unit : String

abbrev pub category : String → Key → String → Category
category label key unit = record { label = label; key = key; unit = unit }

abbrev pub categories : List Category
categories =
    category "ECO:DIGIT Score" ecodigit_score "score"
    ∷ category "Abiotic Depletion" adp "kg Sb–eq"
    ∷ category "Cumulative Energy Demand" ced "kWh"
    ∷ category "Global Warming Potential" gwp "kg CO2–eq"
    ∷ category "Water Consumption" water "m3"
    ∷ category "Waste Electrical and Electronic Equipment" weee "kg"
    ∷ category "Toxicity" tox "CTUe"
    ∷ []

-- `this.categories.find((c) => c.label === label)`
abbrev pub category_named : String → Option Category
category_named label = find (λ (c : Category). c.label === label) categories

-- The fields of the component, and the labels that `categoryChanged` has told.
pub record Screen (N : Type 0) : Type 0 where
  pub normalized_measurements : List (Normalized N)
  pub selected_index_from_bar_chart : Option ℕ
  pub selected_category : Option String
  pub selected_category_key : Option Key
  pub category_values : Option (List N)
  pub all_last_measurements : Option (List String)
  pub told : List String

abbrev pub lacks_key : Option Key → Bool
lacks_key none = true
lacks_key (some key) = false

module _ {N : Type 0} where
  -- `lastMeasurement[key]`
  abbrev pub value_of_key : Key → Values N → N
  value_of_key ecodigit_score v = v.ecodigit_score
  value_of_key adp v = v.adp
  value_of_key ced v = v.ced
  value_of_key gwp v = v.gwp
  value_of_key water v = v.water
  value_of_key weee v = v.weee
  value_of_key tox v = v.tox

  abbrev pub names_of : List (Normalized N) → List String
  names_of items = map (λ (v : Normalized N). v.name) items

  abbrev pub values_of : Key → List (Normalized N) → List N
  values_of key items = map (λ (item : Normalized N). value_of_key key item.last_measurement) items

  abbrev pub new_screen : Screen N
  new_screen = record {
    normalized_measurements = [];
    selected_index_from_bar_chart = none;
    selected_category = none;
    selected_category_key = none;
    category_values = none;
    all_last_measurements = none;
    told = [];
  }

  unfoldable pub update_category_values : Key → String → Screen N → Screen N
  update_category_values category_key category_label s = record s {
    selected_category = some category_label;
    selected_category_key = some category_key;
    category_values = some (take 10 (values_of category_key s.normalized_measurements));
    all_last_measurements = some (names_of s.normalized_measurements);
    told = s.told ++ (category_label ∷ []);
  }

  -- `const def = this.categories.find(...); if (def) this.updateCategoryValues(def.key, def.label)`
  unfoldable pub update_with : Option Category → Screen N → Screen N
  unfolding update_category_values
  update_with none s = s
  update_with (some c) s = update_category_values c.key c.label s

  abbrev pub keyed : Option Key → Screen N → Screen N
  keyed none s = s
  keyed (some key) s = record s {
    category_values = some (take 10 (values_of key s.normalized_measurements));
  }

  unfoldable pub recompute_derived : Screen N → Screen N
  recompute_derived s =
      keyed s.selected_category_key
        (record s { all_last_measurements = some (names_of s.normalized_measurements) })

  unfoldable pub on_init : Screen N → Screen N
  unfolding update_with recompute_derived
  on_init s = recompute_derived (update_with (category_named "ECO:DIGIT Score") s)

  -- `ngOnChanges`, when the input that changed is `normalizedMeasurements`.
  unfoldable pub on_changes : Screen N → Screen N
  unfolding update_with recompute_derived
  on_changes s =
      let t : Screen N = recompute_derived s in
      if not (is_given t.selected_category) || lacks_key t.selected_category_key
      then update_with (category_named "ECO:DIGIT Score") t
      else t

  unfoldable pub get_index : Option ℕ → Screen N → Screen N
  get_index index s = record s { selected_index_from_bar_chart = index }

  abbrev pub item_value : Key → Option (Normalized N) → Option N
  item_value key none = none
  item_value key (some item) = some (value_of_key key item.last_measurement)

  -- `selectedCategoryValue`; an index that is not there gives null.
  unfoldable pub selected_category_value : Screen N → Option N
  selected_category_value s =
      of s.selected_index_from_bar_chart s.selected_category_key s.normalized_measurements
    where
      of : Option ℕ → Option Key → List (Normalized N) → Option N
      of none key items = none
      of (some i) none items = none
      of (some i) (some key) items = item_value key (get_elem? items i)

  unfoldable pub selected_category_data : Screen N → Option Category
  selected_category_data s = of s.selected_category
    where
      of : Option String → Option Category
      of none = none
      of (some label) = category_named label

-- What happens to the component: new measurements, a click on a category of the list, and a bar that
-- is chosen or left.
pub data Event (N : Type 0) : Type 0 where
  measured : List (Normalized N) → Event N
  chosen : ℕ → Event N
  barred : Option ℕ → Event N

module _ {N : Type 0} where
  unfoldable pub handle : Event N → Screen N → Screen N
  unfolding on_changes get_index update_with
  handle (measured items) s = on_changes (record s { normalized_measurements = items })
  handle (chosen n) s = update_with (get_elem? categories n) s
  handle (barred index) s = get_index index s

  unfoldable pub handle_all : List (Event N) → Screen N → Screen N
  unfolding handle
  handle_all [] s = s
  handle_all (e ∷ es) s = handle_all es (handle e s)

  -- The component as Angular starts it: the inputs first, then `ngOnInit`.
  unfoldable pub start : List (Normalized N) → Screen N
  unfolding handle on_init
  start items = on_init (handle (measured items) new_screen)
