-- ===== src/Cobb/Naming.antt =====
-- The dialogs that name an application or a context: edit-application, edit-application-context,
-- create-application and create-application-context of features/applications/pages, with the pages
-- that open the dialogs to edit (application-details and application-context-details). The values of
-- a dialog's form are an argument.
use testbench.Common.{All-append}
use testbench.Common.{
  ◌≡◌, refl, Bool, true, false, Option, none, some, List, [], ◌∷◌, ◌++◌, String, is_given, All,
  if◌then◌else◌, Bool-cases, inl, inr,
}
use testbench.Cobb.Overview.{Application, application_edited}
use testbench.Cobb.Recent.{Details, context_edited}

-- The values of a form: a name, which is required, and a description.
pub record NameForm : Type 0 where
  pub name : Option String
  pub description : String

-- The form of a dialog as it opens, of the data that the page gives.
unfoldable pub edit_form : Option String → Option String → NameForm
edit_form name none = record { name = name; description = "" }
edit_form name (some description) = record { name = name; description = description }

-- `Validators.required`
abbrev pub is_valid : NameForm → Bool
is_valid f = is_given f.name

-- `hasAppNameRequiredError`
unfoldable pub has_app_name_required_error : NameForm → Bool
has_app_name_required_error f = if is_valid f then false else true

-- `onSubmit` of the two dialogs to edit: what it closes the dialog with, if it does.
unfoldable pub edit_submitted : NameForm → Option NameForm
edit_submitted f = if is_valid f then some f else none

-- The body of a request to update an application or a context, with its id.
pub record UpdateBody : Type 0 where
  pub id : String
  pub name : Option String
  pub description : String

-- A page with the requests and the messages that it has sent.
pub record Editing (P : Type 0) : Type 0 where
  pub page : P
  pub requests : List UpdateBody
  pub messages : List String

-- What happens: a dialog is submitted with some values or left, and the server answers an update with
-- the name and the description that it keeps, or refuses it.
pub data EditEvent : Type 0 where
  saved : NameForm → EditEvent
  left : EditEvent
  kept : String → Option String → EditEvent
  refused : EditEvent

module _ {P : Type 0} where
  -- `dialogRef.afterClosed()`: a dialog that was left has no result.
  unfoldable pub after_closed : String → Option NameForm → Editing P → Editing P
  after_closed id none e = e
  after_closed id (some result) e = record e {
    requests =
        e.requests
        ++ (record { id = id; name = result.name; description = result.description } ∷ []);
  }

-- `editApplicationDialog`
unfoldable pub edit_application : String → EditEvent → Editing Application → Editing Application
unfolding after_closed edit_submitted application_edited
edit_application id (saved f) e = after_closed id (edit_submitted f) e
edit_application id left e = after_closed id none e
edit_application id (kept name description) e = record e {
  page = application_edited name description e.page;
  messages = e.messages ++ ("Application updated successfully." ∷ []);
}
edit_application id refused e = e

-- `editContextDialog`
unfoldable pub edit_context : String → EditEvent → Editing Details → Editing Details
unfolding after_closed edit_submitted context_edited
edit_context id (saved f) e = after_closed id (edit_submitted f) e
edit_context id left e = after_closed id none e
edit_context id (kept name description) e = record e {
  page = context_edited name description e.page;
  messages = e.messages ++ ("Context updated successfully." ∷ []);
}
edit_context id refused e = e

abbrev pub run : {S : Type 0} {X : Type 0} → (X → S → S) → List X → S → S
run step [] s = s
run step (x ∷ xs) s = run step xs (step x s)

-- A request of the page's application or context that gives it a name.
abbrev pub IsNamed : String → UpdateBody → Type 0
IsNamed id r = (is_given r.name ≡ true) × (r.id ≡ id)

abbrev pub opened : {P : Type 0} → P → Editing P
opened page = record { page = page; requests = []; messages = [] }

-- The dialogs to create: what they have asked for, told, gone to and been closed with.
pub record Creating : Type 0 where
  pub requests : List NameForm
  pub messages : List String
  pub visited : List (List String)
  pub closed : Option Bool

pub data CreateEvent : Type 0 where
  pressed : NameForm → CreateEvent
  created : String → CreateEvent

abbrev asked : NameForm → Creating → Creating
asked f c = record c { requests = c.requests ++ (f ∷ []) }

-- `createAppInfo`, which sends whatever the form holds; the dialog is closed without a value.
unfoldable pub create_application : CreateEvent → Creating → Creating
create_application (pressed f) c = asked f c
create_application (created response) c = record c {
  messages = c.messages ++ ("Application created successfully!" ∷ []);
  visited = c.visited ++ (("/applications" ∷ response ∷ []) ∷ []);
  closed = some false;
}

-- `onSubmit` of create-application-context.component.ts, which sends whatever the form holds.
unfoldable pub create_context : CreateEvent → Creating → Creating
create_context (pressed f) c = asked f c
create_context (created response) c = record c {
  messages = c.messages ++ ("Application Context created successfully." ∷ []);
  closed = some true;
}

run-All :
    {S : Type 0} {X : Type 0} {R : Type 0} (requests : S → List R) (Q : R → Type 0)
    (step : X → S → S) (keeps : (x : X) (s : S) → All Q (requests s) → All Q (requests (step x s)))
    (xs : List X) (s : S)
    → All Q (requests s)
    → All Q (requests (run step xs s))
run-All requests Q step keeps [] s h = h
run-All requests Q step keeps (x ∷ xs) s h =
    run-All requests Q step keeps xs (step x s) (keeps x s h)

submitted-All :
    {P : Type 0} (id : String) (f : NameForm) (e : Editing P)
    → All (IsNamed id) e.requests
    → All (IsNamed id) (after_closed id (edit_submitted f) e).requests
unfolding after_closed edit_submitted
submitted-All id f e h = elim (Bool-cases (is_valid f)) [
  | inl valid ↦ rw valid (All-append (IsNamed id) e.requests _ h (valid, refl))
  | inr invalid ↦ rw invalid h
]

application-All :
    (id : String) (x : EditEvent) (e : Editing Application)
    → All (IsNamed id) e.requests
    → All (IsNamed id) (edit_application id x e).requests
unfolding edit_application after_closed
application-All id (saved f) e h = submitted-All id f e h
application-All id left e h = h
application-All id (kept name description) e h = h
application-All id refused e h = h

context-All :
    (id : String) (x : EditEvent) (e : Editing Details)
    → All (IsNamed id) e.requests
    → All (IsNamed id) (edit_context id x e).requests
unfolding edit_context after_closed
context-All id (saved f) e h = submitted-All id f e h
context-All id left e h = h
context-All id (kept name description) e h = h
context-All id refused e h = h

abbrev pub new_creating : Creating
new_creating = record { requests = []; messages = []; visited = []; closed = none }

-- Whatever is typed into the dialogs to edit and whatever the server answers: the pages of an
-- application and of a context only ask to update the application or context that they show, and give
-- it a name.
pub requests-IsNamed :
    (id : String) (xs : List EditEvent) (a : Application) (d : Details)
    → All (IsNamed id) (run (edit_application id) xs (opened a)).requests
      × All (IsNamed id) (run (edit_context id) xs (opened d)).requests
requests-IsNamed id xs a d = (
  run-All (λ e. e.requests) (IsNamed id) (edit_application id) (application-All id) xs (opened a)
      tt,
  run-All (λ e. e.requests) (IsNamed id) (edit_context id) (context-All id) xs (opened d) tt,
)
