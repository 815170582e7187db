-- ===== src/Frontend/Save.antt =====
-- `save` of components/NewJobModal.vue, answered by POST /api/add of the management service.
use testbench.Common.{
  suc, ◌≡◌, refl, Bool, true, ◌&&◌, Option, some, List, [], ◌∷◌, ◌++◌, String, map, filter, leb, ap,
  sym, ◌∙◌, ◌⊎◌, inl, inr, is_truthy, Bool-cases, is_given, ◌+++◌,
}
use package.text.Mathlib.TextLemmas.{cons-append}
use testbench.Tester.Machine.{JobData}
use testbench.Management.Intake.{
  Body, array, EnvField, Result, job_of, trim, Ending, queued, refused, create-Ending, IsComplete,
  complete_queued,
}
use testbench.Management.Api.{Answer, code, Upload, add_job, add_body, reply, unpacked_body}
use testbench.Frontend.Modal.{FormValue, text, Modal, form_data, sent_env, answered, close}

-- The fields of a form that multer puts into the body, as the form of this component gives them.
pub record Parsed (name device : String) (env : List String) (b : Body) : Type 0 where
  pub name_lem : b.name ≡ some name
  pub device_lem : b.device ≡ some device
  pub config_lem : b.config ≡ some (array env)

-- What multer documents: a text field is a field of the body, and fields `config[env][]` are the
-- members of the list `config.env`, in their order.
pub record FormParser : Type 0 where
  pub parse : List (String × FormValue) → Body
  pub parse_lem :
      (name device e : String) (es : List String) (data_file : FormValue)
      → Parsed name device (e ∷ es) (
          parse (
            ("name", text name)
              ∷ ("device", text device)
              ∷ map (λ (e : String). ("config[env][]", text e)) (e ∷ es)
            ++ ("measurement_data", data_file) ∷ []))

-- `resp.ok`
abbrev pub is_ok : Answer → Bool
is_ok a = leb 200 (code a) && leb (code a) 299

abbrev after_answer : Modal → Answer × List JobData → Modal × List JobData
after_answer m (a, queue) = (answered (is_ok a) m, queue)

-- `save`, and what the service does with its request: the modal and the queue afterwards.
unfoldable pub save :
    FormParser → Upload → String → Bool → List JobData → Modal → Modal × List JobData
save parser up job_id accepts queue m =
    after_answer m (add_job up job_id accepts queue (some (parser.parse (form_data m))))

-- The job is what the form says.
pub record IsAsked (m : Modal) (job_id : String) (job : JobData) : Type 0 where
  pub uuid_lem : job.uuid ≡ job_id
  pub name_lem : job.name ≡ m.name
  pub device_lem : job.device ≡ trim m.selected_device
  pub env_lem : job.env ≡ filter is_truthy m.env_strings
  pub name_given : is_truthy m.name ≡ true
  pub device_given : is_truthy m.selected_device ≡ true

-- The job was queued and the modal is closed.
abbrev pub Saved : (JobData → Type 0) → List JobData → Modal → Modal × List JobData → Type 0
Saved P queue m (m', queue') =
    (job : JobData) × (queue' ≡ queue ++ job ∷ [])
    × (m' ≡ close (record m { saved = suc m.saved }))
    × P job

-- Or nothing has changed.
abbrev pub Unless : (JobData → Type 0) → List JobData → Modal → Modal × List JobData → Type 0
Unless P queue m r = (r ≡ (m, queue)) ⊎ Saved P queue m r

sent_env-given : (es : List String) → filter is_truthy (sent_env es) ≡ filter is_truthy es
sent_env-given [] = refl
sent_env-given (e ∷ es) = refl

sent_env-Parsed :
    (parser : FormParser) (m : Modal) (es : List String)
    → Parsed m.name m.selected_device
        (sent_env es)
        (parser.parse (form_data (record m { env_strings = es })))
unfolding form_data
sent_env-Parsed parser m [] = parser.parse_lem m.name m.selected_device "" [] _
sent_env-Parsed parser m (e ∷ es) = parser.parse_lem m.name m.selected_device e es _

reply-Unless :
    (P : JobData → Type 0) (m : Modal) (queue : List JobData) (b : Body)
    (r : Result String × List JobData)
    → ((env : List String) → IsComplete b env → P (job_of b (array env)))
    → Ending queue b r
    → Unless P queue m (after_answer m (reply r))
unfolding answered
reply-Unless P m queue b _ holds (queued env c) =
    inr (job_of b (array env), refl, refl, holds env c)
reply-Unless P m queue b _ holds (refused f) = inl refl

same_env : {a b : List String} → some (array a) ≡ some (array b) → a ≡ b
same_env e = ap env_of e
  where
    env_of : Option EnvField → List String
    env_of (some (array xs)) = xs
    env_of _ = []

job_of-IsAsked :
    (m : Modal) (job_id : String) (b : Body) (env : List String)
    → Parsed m.name m.selected_device (sent_env m.env_strings) b
    → IsComplete (unpacked_body job_id b) env
    → IsAsked m job_id (job_of (unpacked_body job_id b) (array env))
unfolding job_of
job_of-IsAsked m job_id b env p c = record {
  uuid_lem = refl;
  name_lem = rw p.name_lem refl;
  device_lem = rw p.device_lem refl;
  env_lem =
      ap (filter is_truthy) (same_env (sym c.6 ∙ p.config_lem)) ∙ sent_env-given m.env_strings;
  name_given = ap is_given (sym p.name_lem) ∙ c.1;
  device_given = ap is_given (sym p.device_lem) ∙ c.3;
}

-- A path is not empty.
path-given : (s : String) → is_truthy ("/" +++ s) ≡ true
unfolding ◌+++◌
path-given s = ap is_truthy (cons-append _ String.[] s)

-- `save` changes nothing, or one job is queued as the last one and the modal is closed: the job has
-- the new id, the form's name, its device without white space around it, and those of its variables
-- that are not empty, in their order; the form's name and device were not empty.
pub save-IsAsked :
    (parser : FormParser) (up : Upload) (job_id : String) (accepts : Bool) (queue : List JobData)
    (m : Modal)
    → Unless (IsAsked m job_id) queue m (save parser up job_id accepts queue m)
unfolding save add_job add_body answered
save-IsAsked parser up job_id accepts queue m = elim (Bool-cases up.folder_made) [
  | inr e ↦ rw e (inl refl)
  | inl e1 ↦ elim (Bool-cases up.stored) [
    | inr e ↦ rw (e1, e) (inl refl)
    | inl e2 ↦ elim (Bool-cases up.unpacked) [
      | inr e ↦ rw (e1, e2, e) (inl refl)
      | inl e3 ↦
          let b = parser.parse (form_data m) in
          rw (e1, e2, e3)
            (reply-Unless (IsAsked m job_id) m queue (unpacked_body job_id b) _
              (λ env c. job_of-IsAsked m job_id b env (sent_env-Parsed parser m m.env_strings) c)
              (create-Ending accepts queue (unpacked_body job_id b)))
    ]
  ]
]

-- Where the folder is made, the upload is stored and unpacked, the queue takes the job and the new id
-- is not empty, a form with a name and a device is saved: its job, which is what the form says, is
-- queued as the last one, and the modal is closed.
pub save_complete :
    (parser : FormParser) (up : Upload) (job_id : String) (queue : List JobData) (m : Modal)
    → (up.folder_made ≡ true) × (up.stored ≡ true) × (up.unpacked ≡ true)
    → (is_truthy job_id ≡ true) × (is_truthy m.name ≡ true) × (is_truthy m.selected_device ≡ true)
    → Saved (IsAsked m job_id) queue m (save parser up job_id true queue m)
unfolding save add_job add_body answered
save_complete parser up job_id queue m (e1, e2, e3) (id_given, name_given, device_given) =
    let b = parser.parse (form_data m) in
    let p = sent_env-Parsed parser m m.env_strings in
    let c : IsComplete (unpacked_body job_id b) (sent_env m.env_strings) = (
      id_given,
      ap is_given p.name_lem ∙ name_given,
      path-given _,
      ap is_given p.device_lem ∙ device_given,
      path-given _,
      path-given _,
      p.config_lem,
    ) in
    rw (e1, e2, e3, complete_queued queue (unpacked_body job_id b) (sent_env m.env_strings) c)
      (job_of _ _, refl, refl, job_of-IsAsked m job_id b (sent_env m.env_strings) p c)
