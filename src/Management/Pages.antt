-- ===== src/Management/Pages.antt =====
-- `getPagination` and `getQueueInfos` of queueInfos.ts.
use testbench.Common.{
  ℕ, ◌+◌, ◌-◌, ◌*◌, ◌/◌, ◌≤◌, ◌<◌, ◌≡◌, Option, none, some, List, [], ◌∷◌, String, length, ltb,
  ◌==◌, ◌===◌, if◌then◌else◌, arith, is_truthy, zero, suc, ap,
}
use native.Mathlib.Nat.{div-mul-le_self, lt-div-mul-add, le-div_iff_mul-le, div-eq_of_lt-le}

-- A page of a queue: the first and the last index, and how many pages there are (`none` is NaN).
pub record Pagination : Type 0 where
  pub page_count : Option ℕ
  pub start : ℕ
  pub end : ℕ

-- `Math.ceil(total / jobsPerPage)`, where a count that is missing gives NaN.
abbrev pub ceil_div : Option ℕ → ℕ → Option ℕ
ceil_div none per = none
ceil_div (some total) per = some ((total + per - 1) / per)

-- `counts[statuses[0]]`
abbrev pub count_of : (String → Option ℕ) → List String → Option ℕ
count_of counts [] = none
count_of counts (s ∷ ss) = counts s

unfoldable pub get_pagination : List String → (String → Option ℕ) → ℕ → ℕ → Pagination
get_pagination statuses counts current_page jobs_per_page =
    let is_latest_status = ltb 1 (length statuses) in
    let start = if is_latest_status then 0 else (current_page - 1) * jobs_per_page in
    record {
      page_count =
          if is_latest_status then some 1 else ceil_div (count_of counts statuses) jobs_per_page;
      start = start;
      end = start + jobs_per_page - 1;
    }

abbrev pub all_job_types : List String
all_job_types =
    "active" ∷ "waiting" ∷ "waiting-children" ∷ "prioritized" ∷ "completed" ∷ "failed" ∷ "delayed"
    ∷ "paused" ∷ "repeat" ∷ "wait" ∷ []

-- `+text || d` for a text that was parsed to a number, or not.
abbrev pub or_default : Option ℕ → ℕ → ℕ
or_default none d = d
or_default (some n) d = if n == 0 then d else n

-- The query of /api/info; numbers that are negative or not whole are not modelled.
pub record Query : Type 0 where
  pub jobs_per_page : Option ℕ
  pub page : Option ℕ
  pub status : Option String

abbrev pub statuses_of : Option String → List String
statuses_of none = all_job_types
statuses_of (some s) =
    if is_truthy s then (if s === "latest" then all_job_types else s ∷ []) else all_job_types

unfoldable pub pagination_of : Query → (String → Option ℕ) → Pagination
pagination_of q counts =
    get_pagination (statuses_of q.status) counts (or_default q.page 1)
      (or_default q.jobs_per_page 10)

-- The page of an index holds it, and is one of the pages.
on_a_page :
    (s : String) (counts : String → Option ℕ) (total per i : ℕ)
    → counts s ≡ some total
    → 0 < per
    → i < total
    → let p = get_pagination (s ∷ []) counts (i / per + 1) per in
      (p.start ≤ i)
      × (i ≤ p.end)
      × (p.page_count ≡ some ((total + per - 1) / per))
      × (i / per + 1 ≤ (total + per - 1) / per)
unfolding get_pagination
on_a_page s counts total per i at pos below =
    let whole : i / per + 1 - 1 ≡ i / per = omega arith in
    rw whole (
      div-mul-le_self i per,
      omega (arith, lt-div-mul-add {a = i} pos),
      ap (λ c. ceil_div c per) at,
      (le-div_iff_mul-le pos).1 (omega (arith, div-mul-le_self i per)),
    )

-- An index lies on one page of a status at most.
on_one_page :
    (s : String) (counts : String → Option ℕ) (per i page : ℕ)
    → 0 < per
    → 0 < page
    → (get_pagination (s ∷ []) counts page per).start ≤ i
    → i ≤ (get_pagination (s ∷ []) counts page per).end
    → page ≡ i / per + 1
unfolding get_pagination
on_one_page s counts per i zero pos first lower upper = absurd (omega arith)
on_one_page s counts per i (suc k) pos first lower upper =
    let whole : suc k - 1 ≡ k = omega arith in
    let low : k * per ≤ i = rw whole at lower in
    let high : i ≤ k * per + per - 1 = rw whole at upper in
    omega (arith, div-eq_of_lt-le {k = k} per {m = i} low (omega arith))

-- The pages of one status cover its jobs: the job at an index below the count stands on the page
-- `index / per + 1`, which is one of the pages, and on no other page from 1 on.
pub on_its_page :
    (s : String) (counts : String → Option ℕ) (total per i : ℕ)
    → counts s ≡ some total
    → 0 < per
    → i < total
    → let p = get_pagination (s ∷ []) counts (i / per + 1) per in
      (p.start ≤ i)
      × (i ≤ p.end)
      × (p.page_count ≡ some ((total + per - 1) / per))
      × (i / per + 1 ≤ (total + per - 1) / per)
      × ((page : ℕ)
          → 0 < page
          → (get_pagination (s ∷ []) counts page per).start ≤ i
          → i ≤ (get_pagination (s ∷ []) counts page per).end
          → page ≡ i / per + 1)
on_its_page s counts total per i at pos below =
    let (lower, upper, pages, last) = on_a_page s counts total per i at pos below in
    (
      lower,
      upper,
      pages,
      last,
      λ page first from_start to_end. on_one_page s counts per i page pos first from_start to_end,
    )
