-- ===== src/Management/Listing.antt =====
-- `getQueueInfos` of queueInfos.ts: what the information page shows of one queue, page by page.
use testbench.Common.{
  ℕ, zero, suc, ◌+◌, ◌-◌, ◌*◌, ◌/◌, ◌≤◌, ◌<◌, ◌≡◌, refl, Option, none, some, List, [], ◌∷◌, ◌++◌,
  String, length, take, map, ◌===◌, arith, is_truthy, ap, sym, ◌∙◌, true, false,
}
use native.Mathlib.Nat.{lt-div-mul-add}
use testbench.Management.Pages.{
  Pagination, get_pagination, Query, statuses_of, pagination_of, or_default, ceil_div,
}
use testbench.Management.Queues.{JobJson, FormattedJob, format_job}

abbrev pub drop {ℓ} : {A : Type ℓ} → ℕ → List A → List A
drop zero xs = xs
drop (suc n) [] = []
drop (suc n) (x ∷ xs) = drop n xs

-- `jobs.filter(Boolean)`: a job that was removed meanwhile is missing.
abbrev pub present_jobs : List (Option JobJson) → List JobJson
present_jobs [] = []
present_jobs (none ∷ jobs) = present_jobs jobs
present_jobs (some j ∷ jobs) = j ∷ present_jobs jobs

-- The queue of bullmq: its name, its counts and its jobs of some statuses from an index to another.
pub record Queue : Type 0 where
  pub name : String
  pub counts : String → Option ℕ
  pub get_jobs : List String → ℕ → ℕ → List (Option JobJson)

pub record QueueInfos : Type 0 where
  pub name : String
  pub counts : String → Option ℕ
  pub jobs : List FormattedJob
  pub pagination : Pagination

unfoldable pub get_queue_infos : Queue → Query → QueueInfos
get_queue_infos queue query =
    let pagination = pagination_of query queue.counts in
    let jobs = queue.get_jobs (statuses_of query.status) pagination.start pagination.end in
    record {
      name = queue.name;
      counts = queue.counts;
      jobs = map format_job (present_jobs jobs);
      pagination = pagination;
    }

-- What bullmq documents of one status: its count, and the jobs of a range of indices, both included.
pub record Holds (queue : Queue) (status : String) (jobs : List (Option JobJson)) : Type 0 where
  pub count_lem : queue.counts status ≡ some (length jobs)
  pub range_lem :
      (start end : ℕ)
      → queue.get_jobs (status ∷ []) start end ≡ take (end + 1 - start) (drop start jobs)

-- The query of a page.
abbrev pub page_query : String → ℕ → ℕ → Query
page_query status per page = record {
  jobs_per_page = some per;
  page = some page;
  status = some status;
}

-- The jobs of the next `n` pages after the first `k`.
abbrev pub pages_from : Queue → String → ℕ → ℕ → ℕ → List FormattedJob
pages_from queue status per k zero = []
pages_from queue status per k (suc n) =
    (get_queue_infos queue (page_query status per (suc k))).jobs
    ++ pages_from queue status per (suc k) n

take-drop {ℓ} : {A : Type ℓ} (n : ℕ) (xs : List A) → take n xs ++ drop n xs ≡ xs
take-drop zero xs = refl
take-drop (suc n) [] = refl
take-drop (suc n) (x ∷ xs) = ap (λ r. x ∷ r) (take-drop n xs)

drop-nil {ℓ} : (A : Type ℓ) (n : ℕ) → ◌≡◌ {A = List A} (drop n []) []
drop-nil A zero = refl
drop-nil A (suc n) = refl

drop-drop {ℓ} : {A : Type ℓ} (m n : ℕ) (xs : List A) → drop n (drop m xs) ≡ drop (m + n) xs
drop-drop zero n xs = let e : zero + n ≡ n = omega arith in rw e refl
drop-drop (suc m) n [] = drop-nil _ n ∙ sym (drop-nil _ (suc m + n))
drop-drop (suc m) n (x ∷ xs) =
    let e : suc m + n ≡ suc (m + n) = omega arith in rw e (drop-drop m n xs)

drop-all {ℓ} : {A : Type ℓ} (n : ℕ) (xs : List A) → length xs ≤ n → drop n xs ≡ []
drop-all zero [] h = refl
drop-all zero (x ∷ xs) h = absurd (omega (arith, h))
drop-all (suc n) [] h = refl
drop-all (suc n) (x ∷ xs) h = drop-all n xs (omega (arith, h))

present_jobs-append :
    (xs ys : List (Option JobJson)) → present_jobs (xs ++ ys) ≡ present_jobs xs ++ present_jobs ys
present_jobs-append [] ys = refl
present_jobs-append (none ∷ xs) ys = present_jobs-append xs ys
present_jobs-append (some j ∷ xs) ys = ap (λ r. j ∷ r) (present_jobs-append xs ys)

map-append : {A B : Type 0} (f : A → B) (xs ys : List A) → map f (xs ++ ys) ≡ map f xs ++ map f ys
map-append f [] ys = refl
map-append f (x ∷ xs) ys = ap (λ r. f x ∷ r) (map-append f xs ys)

-- What the page shows of some jobs.
abbrev shown : List (Option JobJson) → List FormattedJob
shown jobs = map format_job (present_jobs jobs)

shown-append : (xs ys : List (Option JobJson)) → shown (xs ++ ys) ≡ shown xs ++ shown ys
shown-append xs ys =
    ap (map format_job) (present_jobs-append xs ys)
    ∙ map-append format_job (present_jobs xs) (present_jobs ys)

module _ (queue : Queue) (status : String) (jobs : List (Option JobJson))
    (holds : Holds queue status jobs) (per : ℕ) (pos : 0 < per) (named : is_truthy status ≡ true)
    (one : (status === "latest") ≡ false) where
  only : statuses_of (some status) ≡ status ∷ []
  only = rw (named, one) refl

  -- The query of a page asks for the one status and that page.
  paginated :
      (k : ℕ)
      → pagination_of (page_query status per (suc k)) queue.counts
        ≡ get_pagination (status ∷ []) queue.counts (suc k) per
  unfolding pagination_of
  paginated k =
      let page : or_default (some (suc k)) 1 ≡ suc k = ground arith in
      let size : or_default (some per) 10 ≡ per = ground (arith, pos) in
      ap
        (λ ss.
          get_pagination ss queue.counts (or_default (some (suc k)) 1) (or_default (some per) 10))
        only
      ∙ ap (λ p. get_pagination (status ∷ []) queue.counts p (or_default (some per) 10)) page
      ∙ ap (λ d. get_pagination (status ∷ []) queue.counts (suc k) d) size

  in_range :
      (k : ℕ)
      → let p = get_pagination (status ∷ []) queue.counts (suc k) per in
        shown (queue.get_jobs (status ∷ []) p.start p.end) ≡ shown (take per (drop (k * per) jobs))
  unfolding get_pagination
  in_range k =
      let first : suc k - 1 ≡ k = omega arith in
      let size : k * per + per - 1 + 1 - k * per ≡ per = omega (arith, pos) in
      ap (λ a. shown (queue.get_jobs (status ∷ []) (a * per) (a * per + per - 1))) first
      ∙ ap shown (holds.range_lem (k * per) (k * per + per - 1))
      ∙ ap (λ m. shown (take m (drop (k * per) jobs))) size

  page_jobs :
      (k : ℕ)
      → (get_queue_infos queue (page_query status per (suc k))).jobs
        ≡ shown (take per (drop (k * per) jobs))
  unfolding get_queue_infos
  page_jobs k =
      ap (λ p. shown (queue.get_jobs (statuses_of (some status)) p.start p.end)) (paginated k)
      ∙ ap
          (λ ss. shown (
            queue.get_jobs ss (get_pagination (status ∷ []) queue.counts (suc k) per).start
              (get_pagination (status ∷ []) queue.counts (suc k) per).end))
          only
      ∙ in_range k

  pages_from-rest :
      (n k : ℕ)
      → length jobs ≤ (k + n) * per
      → pages_from queue status per k n ≡ shown (drop (k * per) jobs)
  pages_from-rest zero k h =
      let all : length jobs ≤ k * per = grind (arith, h) in
      ap shown (sym (drop-all (k * per) jobs all))
  pages_from-rest (suc n) k h =
      let more : length jobs ≤ (suc k + n) * per = grind (arith, h) in
      let next : k * per + per ≡ suc k * per = grind arith in
      let rest = drop (k * per) jobs in
      ap (λ js. js ++ pages_from queue status per (suc k) n) (page_jobs k)
      ∙ ap (λ js. shown (take per rest) ++ js) (pages_from-rest n (suc k) more)
      ∙ ap (λ m. shown (take per rest) ++ shown (drop m jobs)) (sym next)
      ∙ ap (λ js. shown (take per rest) ++ shown js) (sym (drop-drop (k * per) per jobs))
      ∙ sym (shown-append (take per rest) (drop per rest))
      ∙ ap shown (take-drop per rest)

  pages_of :
      ceil_div (queue.counts status) per
      ≡ (get_pagination (status ∷ []) queue.counts 1 per).page_count
  unfolding get_pagination
  pages_of = refl

  counted_pages :
      (n : ℕ)
      → (get_queue_infos queue (page_query status per 1)).pagination.page_count ≡ some n
      → length jobs ≤ n * per
  unfolding get_queue_infos
  counted_pages n e =
      let counted : ceil_div (some (length jobs)) per ≡ some n =
        ap (λ c. ceil_div c per) (sym holds.count_lem)
        ∙ pages_of
        ∙ sym (ap (λ p. p.page_count) (paginated 0))
        ∙ e in
      let quotient : (length jobs + per - 1) / per ≡ n = cc in
      let bound = lt-div-mul-add {a = length jobs + per - 1} pos in
      let fits : length jobs + per - 1 < n * per + per = rw quotient at bound in
      omega (arith, fits, pos)

  -- The pages of one status, put together, show each of its jobs that is still there once and in
  -- the order of the queue: as many pages as the pagination of the first one counts are all of
  -- them. The queue counts and lists the same jobs meanwhile, a page has room for one job or
  -- more, and the status is neither empty nor 'latest'.
  pub pages-whole :
      (n : ℕ)
      → (get_queue_infos queue (page_query status per 1)).pagination.page_count ≡ some n
      → pages_from queue status per 0 n ≡ map format_job (present_jobs jobs)
  pages-whole n e =
      let counted = counted_pages n e in
      let enough : length jobs ≤ (0 + n) * per = grind (arith, counted) in
      let start : 0 * per ≡ 0 = omega arith in
      pages_from-rest n 0 enough ∙ ap (λ m. shown (drop m jobs)) start
