-- ===== src/Management/Api.antt =====
-- The handlers of index.ts: /api/job/new, /api/add, /api/job/:jobId/result and /status.
use testbench.Common.{
  ◌≡◌, refl, Bool, true, false, Option, none, some, List, [], ◌∷◌, ◌++◌, String, ◌===◌, ◌+++◌, find,
  any, arith, if◌then◌else◌, eq_iff, get_or_else, ℕ, ◌≢◌, ap, inl, inr, ◌⊎◌,
}
use testbench.Tester.Machine.{JobData}
use testbench.Tester.Tasks.{is_headless}
use testbench.Management.Intake.{
  EnvField, array, Body, Failure, type_error, queue_error, archive_error, Result, ok, err, trim,
  job_of, create_measurement_job, Ending, queued, refused, create-Ending,
}

-- An HTTP answer: its status and its text; `error_text` is the message of what was caught.
pub data Answer : Type 0 where
  text : ℕ → String → Answer
  error_text : ℕ → Failure → Answer
  status : ℕ → Answer

-- The status of an answer.
abbrev pub code : Answer → ℕ
code (text n s) = n
code (error_text n f) = n
code (status n) = n

-- `res.status(200).send(await createMeasurementJob(data))`, in a `try`.
abbrev pub reply : Result String × List JobData → Answer × List JobData
reply (ok id, queue) = (text 200 id, queue)
reply (err f, queue) = (error_text 400 f, queue)

-- A `config` with a list is kept, any other is replaced by one with no variables.
config_or_empty : Option EnvField → Option EnvField
config_or_empty (some (array xs)) = some (array xs)
config_or_empty _ = some (array [])

abbrev prepared : Body → Body
prepared b = record b {
  name = some "name";
  device = some "HEADLESS_EMULATOR";
  config = config_or_empty b.config;
}

-- POST /api/job/new. Writing to a missing body is a TypeError, which is caught.
unfoldable pub new_job : Bool → List JobData → Option Body → Answer × List JobData
unfolding config_or_empty
new_job accepts queue none = (error_text 400 type_error, queue)
new_job accepts queue (some b) = reply (create_measurement_job accepts queue (some (prepared b)))

-- The steps of /api/add that other packages do: the folder is made, the upload is stored, the archive
-- is unpacked.
pub record Upload : Type 0 where
  pub folder_made : Bool
  pub stored : Bool
  pub unpacked : Bool

abbrev pub unpacked_body : String → Body → Body
unpacked_body job_id b = record b {
  id = some job_id;
  test_image_path = some ("/" +++ job_id +++ "/us/0");
  app_path = some ("/" +++ job_id +++ "/sut/0/app.apk");
  result_folder_path = some ("/" +++ job_id +++ "/results");
}

-- The end of /api/add, in its `try`.
unfoldable pub add_body : String → Bool → List JobData → Option Body → Answer × List JobData
add_body job_id accepts queue none = (error_text 400 type_error, queue)
add_body job_id accepts queue (some b) =
    reply (create_measurement_job accepts queue (some (unpacked_body job_id b)))

-- POST /api/add for the new id `job_id`; the folder is made outside every `try`, and Express 5 answers a
-- handler that rejects with 500.
unfoldable pub add_job : Upload → String → Bool → List JobData → Option Body → Answer × List JobData
unfolding add_body
add_job up job_id accepts queue body =
    if up.folder_made
    then (if up.stored
        then (if up.unpacked
            then add_body job_id accepts queue body
            else (error_text 400 archive_error, queue))
        else (status 400, queue))
    else (status 500, queue)

-- A job of the status queue: whose it is, and the status.
pub record StatusJob : Type 0 where
  pub id : String
  pub status : String

-- GET /api/job/:jobId/status, for the jobs as `getJobs` lists them; `none`: `getJobs` has thrown.
unfoldable pub job_status : Option (List StatusJob) → String → Answer
job_status none job_id = error_text 400 queue_error
job_status (some jobs) job_id = elim (find (λ (j : StatusJob). j.id === job_id) jobs) [
  | none ↦ text 404 ("Kein Status für einen Job mit der Id " +++ job_id +++ " gefunden.")
  | some j ↦ text 200 j.status
]

-- What `getJob` gives for an id: it throws, there is none, or a job with its return value.
pub data Lookup : Type 0 where
  lookup_error : Lookup
  missing : Lookup
  present : (returnvalue : String) → Lookup

-- GET /api/job/:jobId/result; `parse` is JSON.parse and printing its result, `none` where it throws.
unfoldable pub job_result : (String → Option String) → Lookup → String → Answer
job_result parse lookup_error job_id = error_text 400 queue_error
job_result parse missing job_id = text 404 ("Kein Job mit der Id " +++ job_id +++ " gefunden.")
job_result parse (present value) job_id = elim (parse value) [
  | none ↦ error_text 400 type_error
  | some json ↦ text 200 json
]

-- What a handler did: nothing to the queue, or a job was added and its id answered.
abbrev pub Added : (JobData → Type 0) → List JobData → Answer × List JobData → Type 0
Added P queue (a, queue') =
    ((queue' ≡ queue) × ((id : String) → a ≢ text 200 id))
    ⊎ ((job : JobData) × (queue' ≡ queue ++ job ∷ []) × (a ≡ text 200 job.uuid) × P job)

reply-Added :
    (P : JobData → Type 0) (queue : List JobData) (b : Body) (r : Result String × List JobData)
    → ((env : List String) → b.config ≡ some (array env) → P (job_of b (array env)))
    → Ending queue b r
    → Added P queue (reply r)
unfolding job_of
reply-Added P queue b _ holds (queued env c) = inr (job_of b (array env), refl, refl, holds env c.6)
reply-Added P queue b _ holds (refused f) = inl (refl, λ id e. cc)

-- A job that /api/job/new adds runs on the headless emulator of the worker, under the request's id.
pub new_job-headless :
    (accepts : Bool) (queue : List JobData) (b : Body)
    → Added
        (λ job. (is_headless job ≡ true) × (job.uuid ≡ get_or_else b.id ""))
        queue
        (new_job accepts queue (some b))
unfolding new_job
new_job-headless accepts queue b =
    reply-Added _ queue (prepared b) _
      (λ env at. (unfold job_of trim in refl, unfold job_of in refl))
      (create-Ending accepts queue (prepared b))

find-none :
    (jobs : List StatusJob) (id : String)
    → any (λ (j : StatusJob). j.id === id) jobs ≡ false
    → find (λ (j : StatusJob). j.id === id) jobs ≡ none
find-none [] id e = refl
find-none (j ∷ jobs) id e = ground (arith, find-none jobs id)

find-append :
    (before after : List StatusJob) (j : StatusJob) (id : String)
    → any (λ (k : StatusJob). k.id === id) before ≡ false
    → j.id ≡ id
    → find (λ (k : StatusJob). k.id === id) (before ++ j ∷ after) ≡ some j
find-append [] after j id e same = ground (arith, eq_iff j.id id)
find-append (k ∷ before) after j id e same = ground (arith, find-append before after j id)

-- The status that is answered is that of the first listed job of the id, and a job that is not
-- listed has no status.
pub job_status-first :
    (before after : List StatusJob) (j : StatusJob)
    → any (λ (k : StatusJob). k.id === j.id) before ≡ false
    → (job_status (some (before ++ j ∷ after)) j.id ≡ text 200 j.status)
      × ((s : String) → job_status (some before) j.id ≢ text 200 s)
unfolding job_status
job_status-first before after j fresh = (
  rw (find-append before after j j.id fresh refl, job_status) refl,
  λ s.
      rw (find-none before j.id fresh, job_status)
        (λ e.
          let same : code (text 404 "") ≡ code (text 200 "") = ap code e in absurd (omega arith)),
)
