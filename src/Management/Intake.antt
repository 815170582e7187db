-- ===== src/Management/Intake.antt =====
-- `createMeasurementJob` of index.ts: a request is checked and queued for the UI-test worker.
use Prim.Native.Char.{code}
use testbench.Common.{
  ℕ, ◌≡◌, refl, Bool, true, false, not, ◌&&◌, ◌||◌, Option, none, some, List, [], ◌∷◌, ◌++◌, String,
  ◌+++◌, if◌then◌else◌, leb, ◌==◌, is_truthy, is_given, get_or_else, filter, join, ap, ◌∙◌,
}
use testbench.Tester.Machine.{JobData}

-- `config` of a request that has one: it is falsy (an empty text, 0, false), or its `env` is absent (or
-- falsy), something that is no array, or texts.
pub data EnvField : Type 0 where
  falsy_config : EnvField
  absent : EnvField
  scalar : EnvField
  array : List String → EnvField

-- The request's body, whose fields may be missing; a field that is there is a text.
pub record Body : Type 0 where
  pub id : Option String
  pub name : Option String
  pub device : Option String
  pub app_path : Option String
  pub test_image_path : Option String
  pub result_folder_path : Option String
  pub config : Option EnvField

-- What `createMeasurementJob` throws: a TypeError of the language, its own error with the joined
-- list, what the queue threw, or what unpacking an upload threw.
pub data Failure : Type 0 where
  type_error : Failure
  incomplete : String → Failure
  queue_error : Failure
  archive_error : Failure

pub data Result (A : Type 0) : Type 0 where
  ok : A → Result A
  err : Failure → Result A

-- JavaScript's white space, of `trim`.
abbrev is_space : ℕ → Bool
is_space c =
    leb 9 c && leb c 13
    || c == 32
    || c == 160
    || c == 5760
    || leb 8192 c && leb c 8202
    || c == 8232
    || c == 8233
    || c == 8239
    || c == 8287
    || c == 12288
    || c == 65279

trim_start : String → String
trim_start String.[] = String.[]
trim_start (String.◌∷◌ c s) =
    let rest = trim_start s in if is_space (code c) then rest else String.◌∷◌ c s

trim_end : String → String
trim_end String.[] = String.[]
trim_end (String.◌∷◌ c s) =
    let rest = trim_end s in
    if is_space (code c) && not (is_truthy rest) then String.[] else String.◌∷◌ c rest

unfoldable pub trim : String → String
unfolding trim_start trim_end
trim s = trim_start (trim_end s)

abbrev unless : Bool → String → List String → List String
unless true text rest = rest
unless false text rest = text ∷ rest

abbrev env_given : EnvField → Bool
env_given falsy_config = false
env_given absent = false
env_given _ = true

abbrev config_given : EnvField → Bool
config_given falsy_config = false
config_given _ = true

abbrev env_array : EnvField → Bool
env_array (array xs) = true
env_array _ = false

-- The complaints about a body whose `config` can be read, in the order of the checks.
missing_with : Body → EnvField → List String
missing_with b env = unless (is_given b.id) "Keine ID" (
    unless (is_given b.name) "Keine Name" (
      unless (is_given b.test_image_path) "Kein testImagePath" (
        unless (is_given b.device) "Kein devive" (
          unless (is_given b.app_path) "Kein appPath" (
            unless (config_given env) "Keine config" (
              unless (config_given env) "Keine config" (
                unless (env_given env) "Keine config.env" (
                  unless (env_array env) "config.env ist kein Array"
                    (unless (is_given b.result_folder_path) "Kein resultFolderPath" [])))))))))

abbrev pub env_list : EnvField → List String
env_list (array xs) = xs
env_list _ = []

abbrev text : Option String → String
text o = get_or_else o ""

-- The job that is added to the queue.
unfoldable pub job_of : Body → EnvField → JobData
job_of b env = record {
  name = text b.name;
  uuid = text b.id;
  device = trim (text b.device);
  app_path = text b.app_path;
  test_image_path = text b.test_image_path;
  result_folder_path = text b.result_folder_path;
  env = filter is_truthy (env_list env);
}

-- The two ends of the function: the job is added and the id returned, or the error is thrown.
-- `accepts` is the queue's answer.
abbrev finish : Bool → List JobData → Body → EnvField → List String → Result String × List JobData
finish true queue b env [] = (ok (text b.id), queue ++ job_of b env ∷ [])
finish false queue b env [] = (err queue_error, queue)
finish accepts queue b env (m ∷ ms) =
    (err (incomplete ("Unvollständige Daten: " +++ join "; " (m ∷ ms))), queue)

-- Where `config` is missing or null, reading `data.config.env` is a TypeError.
create_with : Bool → List JobData → Body → Option EnvField → Result String × List JobData
unfolding missing_with
create_with accepts queue b none = (err type_error, queue)
create_with accepts queue b (some env) = finish accepts queue b env (missing_with b env)

-- Without a body reading `data.id` is a TypeError.
unfoldable pub create_measurement_job :
    Bool → List JobData → Option Body → Result String × List JobData
unfolding create_with
create_measurement_job accepts queue none = (err type_error, queue)
create_measurement_job accepts queue (some b) = create_with accepts queue b b.config

-- All that a job needs.
abbrev pub IsComplete : Body → List String → Type 0
IsComplete b env =
    (is_given b.id ≡ true)
    × (is_given b.name ≡ true)
    × (is_given b.test_image_path ≡ true)
    × (is_given b.device ≡ true)
    × (is_given b.app_path ≡ true)
    × (is_given b.result_folder_path ≡ true)
    × (b.config ≡ some (array env))

-- The texts that a job needs.
abbrev HasTexts : Body → Type 0
HasTexts b =
    (is_given b.id ≡ true)
    × (is_given b.name ≡ true)
    × (is_given b.test_image_path ≡ true)
    × (is_given b.device ≡ true)
    × (is_given b.app_path ≡ true)
    × (is_given b.result_folder_path ≡ true)

missing_none : (b : Body) (env : List String) → HasTexts b → missing_with b (array env) ≡ []
unfolding missing_with
missing_none b env (h1, h2, h3, h4, h5, h6) = rw (h1, h2, h3, h4, h5, h6)

unless-cons :
    (p : Bool) (t : String) (rest : List String) → unless p t rest ≡ [] → (p ≡ true) × (rest ≡ [])
unless-cons true t rest e = (refl, e)
unless-cons false t rest e = cc

none_missing :
    (b : Body) (env : EnvField) → missing_with b env ≡ [] → HasTexts b × (env_array env ≡ true)
unfolding missing_with
none_missing b env e =
    let (h1, e1) = unless-cons _ _ _ e in
    let (h2, e2) = unless-cons _ _ _ e1 in
    let (h3, e3) = unless-cons _ _ _ e2 in
    let (h4, e4) = unless-cons _ _ _ e3 in
    let (h5, e5) = unless-cons _ _ _ e4 in
    let (h6, e6) = unless-cons (config_given env) _ _ e5 in
    let (h7, e7) = unless-cons (config_given env) _ _ e6 in
    let (h8, e8) = unless-cons (env_given env) _ _ e7 in
    let (h9, e9) = unless-cons (env_array env) _ _ e8 in
    let (h10, e10) = unless-cons _ _ _ e9 in ((h1, h2, h3, h4, h5, h10), h9)

array_of : (env : EnvField) → env_array env ≡ true → (xs : List String) × (env ≡ array xs)
array_of falsy_config e = cc
array_of absent e = cc
array_of scalar e = cc
array_of (array xs) e = (xs, refl)

complete_with :
    (queue : List JobData) (b : Body) (env : List String)
    → HasTexts b
    → create_with true queue b (some (array env))
      ≡ (ok (text b.id), queue ++ job_of b (array env) ∷ [])
unfolding create_with
complete_with queue b env h = rw (missing_none b env h)

-- A complete request is queued as the last job, and its id returned, where the queue takes it.
pub complete_queued :
    (queue : List JobData) (b : Body) (env : List String)
    → IsComplete b env
    → create_measurement_job true queue (some b)
      ≡ (ok (text b.id), queue ++ job_of b (array env) ∷ [])
unfolding create_measurement_job
complete_queued queue b env (h1, h2, h3, h4, h5, h6, h7) =
    ap (create_with true queue b) h7 ∙ complete_with queue b env (h1, h2, h3, h4, h5, h6)

-- How a run of the function ends: the job is queued, or the queue is as it was.
pub data Ending (queue : List JobData) (b : Body) : Result String × List JobData → Type 0 where
  queued :
      (env : List String)
      → IsComplete b env
      → Ending queue b (ok (text b.id), queue ++ job_of b (array env) ∷ [])
  refused : (f : Failure) → Ending queue b (err f, queue)

finish-Ending :
    (accepts : Bool) (queue : List JobData) (b : Body) (env : EnvField) (ms : List String)
    → b.config ≡ some env
    → missing_with b env ≡ ms
    → Ending queue b (finish accepts queue b env ms)
finish-Ending accepts queue b env (m ∷ ms) at e = refused _
finish-Ending false queue b env [] at e = refused _
finish-Ending true queue b env [] at e =
    let ((h1, h2, h3, h4, h5, h6), is_array) = none_missing b env e in
    let (xs, given) = array_of env is_array in
    rw given (queued xs (h1, h2, h3, h4, h5, h6, at ∙ ap some given))

create_with-Ending :
    (accepts : Bool) (queue : List JobData) (b : Body) (config : Option EnvField)
    → b.config ≡ config
    → Ending queue b (create_with accepts queue b config)
unfolding create_with
create_with-Ending accepts queue b none at = refused _
create_with-Ending accepts queue b (some env) at = finish-Ending accepts queue b env _ at refl

-- Either the request was complete, its job is the last of the queue and its id is the answer, or an
-- error is thrown and the queue is as it was.
pub create-Ending :
    (accepts : Bool) (queue : List JobData) (b : Body)
    → Ending queue b (create_measurement_job accepts queue (some b))
unfolding create_measurement_job
create-Ending accepts queue b = create_with-Ending accepts queue b b.config refl
