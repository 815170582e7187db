-- ===== src/Cobb/Forms.antt =====
-- features/applications/pages/application-context-details/pages: upload-artifacts.component.ts and
-- add-git-repository.component.ts. Texts are of characters below 2 ^ 16, which JavaScript and this
-- model count alike.
use testbench.Common.{
  ℕ, suc, ◌≡◌, refl, Bool, true, false, Option, none, some, List, [], ◌∷◌, ◌++◌, String, ◌+++◌,
  ◌===◌, ◌||◌, not, All, if◌then◌else◌, Bool-cases, inl, inr, is_truthy,
}
use testbench.Common.{All-append}
use testbench.Cobb.Letters.{to_lower_case}

-- `File`
pub record File : Type 0 where
  pub name : String
  pub content : String

-- The form data of an upload: the file and its `meta`.
pub record UploadRequest : Type 0 where
  pub artefact : File
  pub context_id : String
  pub artefact_type : String
  pub default_file : Bool
  pub custom_file_name : Option String
  pub description : String

-- `SnackbarTypeEnum`
pub data SnackbarType : Type 0 where
  success : SnackbarType
  failure : SnackbarType

-- The fields of the component, the two values of its form, and what it has done: the requests, the
-- messages of the snackbar, and how often `fileUploaded` was told.
pub record Upload : Type 0 where
  pub context_id : String
  pub artifact_name : String
  pub description : String
  pub is_drag_over : Bool
  pub file_name : Option String
  pub selected_file : Option File
  pub file_type_error : Bool
  pub requests : List UploadRequest
  pub messages : List (String × SnackbarType)
  pub uploaded : ℕ

-- The component as it is constructed.
abbrev pub new_upload : String → Upload
new_upload context_id = record {
  context_id = context_id;
  artifact_name = "";
  description = "";
  is_drag_over = false;
  file_name = none;
  selected_file = none;
  file_type_error = false;
  requests = [];
  messages = [];
  uploaded = 0;
}

ends_with : String → String → Bool
ends_with String.[] t = "" === t
ends_with (String.◌∷◌ c s) t = let rest = ends_with s t in (String.◌∷◌ c s === t) || rest

unfoldable pub is_zip : File → Bool
unfolding ends_with
is_zip file = ends_with (to_lower_case file.name) ".zip"

unfoldable pub process_file : Option File → Upload → Upload
process_file none u = record u { file_type_error = true; selected_file = none; file_name = none }
process_file (some file) u = record u {
  file_type_error = not (is_zip file);
  selected_file = if is_zip file then some file else none;
  file_name = if is_zip file then some file.name else none;
}

unfoldable pub on_drag : Bool → Upload → Upload
on_drag is_over u = record u { is_drag_over = is_over }

unfoldable pub on_file_drop : Option File → Upload → Upload
unfolding process_file
on_file_drop file u = process_file file (record u { is_drag_over = false })

unfoldable pub on_file_selected : Option File → Upload → Upload
unfolding process_file
on_file_selected none u = u
on_file_selected (some file) u = process_file (some file) u

unfoldable pub remove_file : Upload → Upload
remove_file u = record u { selected_file = none; file_name = none; file_type_error = false }

abbrev sent : Upload → Option File → Upload
sent u none = u
sent u (some file) = record u {
  requests =
      u.requests
      ++ (record {
        artefact = file;
        context_id = u.context_id;
        artefact_type = "APPLICATION_VARIANT";
        default_file = false;
        custom_file_name = if is_truthy u.artifact_name then some u.artifact_name else none;
        description = u.description;
      }
          ∷ []);
}

-- `onSubmit` up to the request.
unfoldable pub on_submit : Upload → Upload
on_submit u = sent u u.selected_file

-- A template literal prints null as a word.
abbrev printed : Option String → String
printed none = "null"
printed (some s) = s

-- The answers to a request, which read the component's fields as they are by then.
unfoldable pub upload_answered : Upload → Upload
unfolding remove_file
upload_answered u =
    let file_name : String =
      if is_truthy u.artifact_name then u.artifact_name else printed u.file_name in
    let t : Upload = remove_file (record u {
      messages =
          u.messages
          ++ ((file_name +++ " uploaded successfully. It is now available for use.", success) ∷ []);
    }) in
    record t { uploaded = suc t.uploaded }

unfoldable pub upload_refused : Upload → Upload
upload_refused u = record u { messages = u.messages ++ (("Failed to upload file.", failure) ∷ []) }

-- What the user and the server do, in any order.
pub data UploadEvent : Type 0 where
  typed : String → String → UploadEvent
  dragged : Bool → UploadEvent
  dropped : Option File → UploadEvent
  selected : Option File → UploadEvent
  removed : UploadEvent
  submitted : UploadEvent
  answered : UploadEvent
  refused : UploadEvent

unfoldable pub handle : UploadEvent → Upload → Upload
unfolding on_drag on_file_drop on_file_selected remove_file on_submit upload_answered upload_refused
handle (typed name text) u = record u { artifact_name = name; description = text }
handle (dragged is_over) u = on_drag is_over u
handle (dropped file) u = on_file_drop file u
handle (selected file) u = on_file_selected file u
handle removed u = remove_file u
handle submitted u = on_submit u
handle answered u = upload_answered u
handle refused u = upload_refused u

unfoldable pub handle_all : List UploadEvent → Upload → Upload
unfolding handle
handle_all [] u = u
handle_all (e ∷ es) u = handle_all es (handle e u)

-- A file that is selected is a zip file, its name is shown, and no error is; without one no name is.
abbrev pub Matches : Option File → Option String → Bool → Type 0
Matches none (some name) bad = ⊥
Matches none none bad = Unit
Matches (some file) name bad = (is_zip file ≡ true) × (name ≡ some file.name) × (bad ≡ false)

pub record IsChecked (u : Upload) : Type 0 where
  pub selected_lem : Matches u.selected_file u.file_name u.file_type_error
  pub requests_lem :
      All
        (λ (r : UploadRequest). (is_zip r.artefact ≡ true) × (r.context_id ≡ u.context_id))
        u.requests

process-IsChecked : (f : Option File) (u : Upload) → IsChecked u → IsChecked (process_file f u)
unfolding process_file
process-IsChecked none u h = record { selected_lem = tt; requests_lem = h.requests_lem }
process-IsChecked (some file) u h = elim (Bool-cases (is_zip file)) [
  | inl zip ↦ record { selected_lem = rw zip (zip, refl, refl); requests_lem = h.requests_lem }
  | inr other ↦ record { selected_lem = rw other tt; requests_lem = h.requests_lem }
]

submit-IsChecked : (u : Upload) → IsChecked u → IsChecked (on_submit u)
unfolding on_submit
submit-IsChecked u h = go u.selected_file refl h.selected_lem
  where
    go :
        (f : Option File)
        → u.selected_file ≡ f
        → Matches f u.file_name u.file_type_error
        → IsChecked (sent u f)
    go none e m = h
    go (some file) e m = record {
      selected_lem = h.selected_lem;
      requests_lem = All-append _ u.requests _ h.requests_lem (m.0, refl);
    }

handle-IsChecked : (e : UploadEvent) (u : Upload) → IsChecked u → IsChecked (handle e u)
unfolding handle on_drag on_file_drop on_file_selected remove_file upload_answered upload_refused
handle-IsChecked (typed name text) u h = record {
  selected_lem = h.selected_lem;
  requests_lem = h.requests_lem;
}
handle-IsChecked (dragged is_over) u h = record {
  selected_lem = h.selected_lem;
  requests_lem = h.requests_lem;
}
handle-IsChecked (dropped file) u h =
    process-IsChecked file (record u { is_drag_over = false })
      (record { selected_lem = h.selected_lem; requests_lem = h.requests_lem })
handle-IsChecked (selected none) u h = h
handle-IsChecked (selected (some file)) u h = process-IsChecked (some file) u h
handle-IsChecked removed u h = record { selected_lem = tt; requests_lem = h.requests_lem }
handle-IsChecked submitted u h = submit-IsChecked u h
handle-IsChecked answered u h = record { selected_lem = tt; requests_lem = h.requests_lem }
handle-IsChecked refused u h = record {
  selected_lem = h.selected_lem;
  requests_lem = h.requests_lem;
}

handle_all-IsChecked :
    (es : List UploadEvent) (u : Upload) → IsChecked u → IsChecked (handle_all es u)
unfolding handle_all
handle_all-IsChecked [] u h = h
handle_all-IsChecked (e ∷ es) u h = handle_all-IsChecked es (handle e u) (handle-IsChecked e u h)

-- Whatever the user and the server do: a selected file is a zip file whose name is shown without an
-- error, and every request carries a zip file and the id of the context.
pub upload-IsChecked :
    (context_id : String) (es : List UploadEvent)
    → IsChecked (handle_all es (new_upload context_id))
upload-IsChecked context_id es =
    handle_all-IsChecked es (new_upload context_id)
      (record { selected_lem = tt; requests_lem = tt })
