-- ===== src/Cobb/Repositories.antt =====
-- add-git-repository.component.ts and git-repos-table.component.ts of
-- features/applications/pages/application-context-details/pages: a repository is connected, listed and
-- deleted.
use Prim.Native.Char.{Char, code}
use testbench.Common.{
  ℕ, Bool, true, false, Option, none, some, List, [], ◌∷◌, String, ◌==◌, ◌===◌, ◌&&◌, ◌||◌, not,
  any, leb, if◌then◌else◌, is_truthy, length, ◌++◌,
}

-- What `\s` matches.
abbrev spaces : List ℕ
spaces = 32 ∷ 160 ∷ 5760 ∷ 8232 ∷ 8233 ∷ 8239 ∷ 8287 ∷ 12288 ∷ 65279 ∷ []

is_space : Char → Bool
is_space c =
    (leb 9 (code c) && leb (code c) 13)
    || (leb 8192 (code c) && leb (code c) 8202)
    || any (λ (n : ℕ). code c == n) spaces

-- What `.` does not match.
is_line_end : Char → Bool
is_line_end c = any (λ (n : ℕ). code c == n) (10 ∷ 13 ∷ 8232 ∷ 8233 ∷ [])

-- `[\s/$.?#]`
is_no_host : Char → Bool
unfolding is_space
is_no_host c = is_space c || any (λ (d : Char). code c == code d) ("/" ∷ "$" ∷ "." ∷ "?" ∷ "#" ∷ [])

no_spaces : String → Bool
unfolding is_space
no_spaces String.[] = true
no_spaces (String.◌∷◌ c s) = not (is_space c) && no_spaces s

-- What is left of a text after a beginning.
without : String → String → Option String
without String.[] s = some s
without (String.◌∷◌ d t) String.[] = none
without (String.◌∷◌ d t) (String.◌∷◌ c s) =
    let rest = without t s in if code c == code d then rest else none

-- `[^\s/$.?#].[^\s]*$`
after_scheme : Option String → Bool
unfolding is_no_host is_line_end no_spaces
after_scheme none = false
after_scheme (some String.[]) = false
after_scheme (some (String.◌∷◌ c String.[])) = false
after_scheme (some (String.◌∷◌ c (String.◌∷◌ d s))) =
    not (is_no_host c) && not (is_line_end d) && no_spaces s

-- `/^https?:\/\/[^\s/$.?#].[^\s]*$/`, on characters below 2 ^ 16.
unfoldable pub is_url : String → Bool
unfolding after_scheme without
is_url s = after_scheme (without "http://" s) || after_scheme (without "https://" s)

-- The values of the form; that of a control is never null.
pub record GitForm : Type 0 where
  pub git_name : String
  pub repository_url : String
  pub access_type : String
  pub access_token : String
  pub username : String

-- `repositoryUrlControl.valid`: required, and of the pattern.
unfoldable pub is_url_valid : GitForm → Bool
unfolding is_url
is_url_valid f = is_truthy f.repository_url && is_url f.repository_url

unfoldable pub is_form_valid : GitForm → Bool
unfolding is_url_valid
is_form_valid f =
    if not (is_truthy f.git_name)
    then false
    else (if not (is_truthy f.access_type) || not (is_url_valid f)
        then false
        else (if f.access_type === "PUBLIC_REPOSITORY"
            then true
            else (if f.access_type === "REPOSITORY_ACCESS_TOKEN"
                then is_truthy f.access_token
                else false)))

-- `CreateGitRepoDto`, without its date.
pub record CreateGitRepo : Type 0 where
  pub context_id : Option String
  pub repository_name : String
  pub repository_link : String
  pub access_type : String
  pub access_token : String

-- The request of `connectGitRepository`.
unfoldable pub connect_git_repository : Option String → GitForm → CreateGitRepo
connect_git_repository context_id f = record {
  context_id = context_id;
  repository_name = f.git_name;
  repository_link = f.repository_url;
  access_type = f.access_type;
  access_token = f.access_token;
}

-- `onSubmit` sends whatever the form holds.
unfoldable pub on_submit : Option String → GitForm → CreateGitRepo
unfolding connect_git_repository
on_submit context_id f = connect_git_repository context_id f

-- The table of a context's repositories: its rows, and the counts that it has told.
pub record RepoTable (R : Type 0) : Type 0 where
  pub rows : List R
  pub told : List ℕ

module _ {R : Type 0} where
  -- `loadGitRepos` on an answer.
  unfoldable pub load_git_repos : List R → RepoTable R → RepoTable R
  load_git_repos rows t = record t { rows = rows; told = t.told ++ (length rows ∷ []) }

  -- `deleteGitRepo`: when the server has deleted the repository, the list of the context, which
  -- `all_repos` gives from then on, is loaded again; a failure changes nothing.
  unfoldable pub delete_git_repo : Bool → List R → RepoTable R → RepoTable R
  unfolding load_git_repos
  delete_git_repo deleted all_repos t = if deleted then load_git_repos all_repos t else t
