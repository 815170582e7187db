-- ===== src/Frontend/Modal.antt =====
-- components/NewJobModal.vue: the form of a new job.
use testbench.Common.{
  ℕ, zero, suc, Bool, true, false, Option, none, some, List, [], ◌∷◌, ◌++◌, String, map, set,
}

-- `File`
pub record File : Type 0 where
  pub name : String
  pub content : String

-- A value of a FormData.
pub data FormValue : Type 0 where
  text : String → FormValue
  file : File → FormValue

-- The variables of the component, the file that is chosen, and how often `newJobSaved` was told.
pub record Modal : Type 0 where
  pub is_visible : Bool
  pub name : String
  pub devices : List String
  pub selected_device : String
  pub env_strings : List String
  pub chosen : Option File
  pub saved : ℕ

abbrev pub new_modal : Modal
new_modal = record {
  is_visible = false;
  name = "";
  devices = [];
  selected_device = "";
  env_strings = [];
  chosen = none;
  saved = 0;
}

-- The only device of a list.
abbrev only_device : List String → String
only_device (d ∷ []) = d
only_device _ = ""

-- `showModal`; `parses` tells whether what the local storage holds is JSON, and if it is not the
-- function throws before it changes anything.
unfoldable pub show_modal : Bool → List String → Modal → Modal
show_modal false available_devices m = m
show_modal true available_devices m = record m {
  devices = available_devices;
  selected_device = only_device available_devices;
  is_visible = true;
}

unfoldable pub close : Modal → Modal
close m = record m { is_visible = false; name = ""; env_strings = [] }

-- `envStrings.splice(index, 1)`
unfoldable pub remove_at : ℕ → List String → List String
remove_at n [] = []
remove_at zero (x ∷ xs) = xs
remove_at (suc n) (x ∷ xs) = x ∷ remove_at n xs

-- The inputs of the form that change its variables.
pub data Input : Type 0 where
  typed_name : String → Input
  picked_device : String → Input
  picked_file : File → Input
  added_env : Input
  typed_env : ℕ → String → Input
  removed_env : ℕ → Input

unfoldable pub input : Input → Modal → Modal
unfolding remove_at
input (typed_name s) m = record m { name = s }
input (picked_device d) m = record m { selected_device = d }
input (picked_file f) m = record m { chosen = some f }
input added_env m = record m { env_strings = m.env_strings ++ ("" ∷ []) }
input (typed_env i s) m = record m { env_strings = set m.env_strings i s }
input (removed_env i) m = record m { env_strings = remove_at i m.env_strings }

-- `files![0]`, which a FormData takes as the word if there is none.
abbrev file_value : Option File → FormValue
file_value none = text "undefined"
file_value (some f) = file f

-- The variables that are sent: one empty text if there is none.
abbrev pub sent_env : List String → List String
sent_env [] = "" ∷ []
sent_env (e ∷ es) = e ∷ es

-- The body of the request of `save`.
unfoldable pub form_data : Modal → List (String × FormValue)
form_data m =
    ("name", text m.name)
      ∷ ("device", text m.selected_device)
      ∷ map (λ (e : String). ("config[env][]", text e)) (sent_env m.env_strings)
    ++ ("measurement_data", file_value m.chosen) ∷ []

-- The end of `save`, on `resp.ok`.
unfoldable pub answered : Bool → Modal → Modal
unfolding close
answered true m = close (record m { saved = suc m.saved })
answered false m = m
