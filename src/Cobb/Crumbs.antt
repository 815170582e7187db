-- ===== src/Cobb/Crumbs.antt =====
-- shared/components/breadcrumb/breadcrumb.component.ts: the crumbs of the routes from the root on.
use Prim.Native.Char.{Char, code}
use testbench.Common.{
  Bool, false, Option, List, [], ◌∷◌, String, ◌+++◌, ◌==◌, map, if◌then◌else◌, join, split,
  is_given, is_truthy, get_or_else,
}

-- `ActivatedRoute`: its path, its parameters, and the label of its breadcrumb. The child of a route is
-- the next of the list.
pub record Route : Type 0 where
  pub path : Option String
  pub params : String → Option String
  pub label : Option String

-- `BreadcrumbData`
pub record Breadcrumb : Type 0 where
  pub label : String
  pub link : String

abbrev pub is_slash : Char → Bool
is_slash c = code c == code "/"

-- A segment that starts with a colon is a parameter; one that is undefined is joined as nothing.
unfoldable pub resolved : (String → Option String) → String → String
resolved params String.[] = ""
resolved params (String.◌∷◌ c s) =
    if code c == code ":" then get_or_else (params s) "" else String.◌∷◌ c s

-- `fullPath`
unfoldable pub full_path : Route → String → String
unfolding resolved
full_path route url = go (get_or_else route.path "")
  where
    go : String → String
    go path =
        if is_truthy path
        then url +++ "/" +++ join "/" (map (resolved route.params) (split "/" path))
        else url

abbrev pub starts_with_slash : String → Bool
starts_with_slash String.[] = false
starts_with_slash (String.◌∷◌ c s) = is_slash c

-- `s.replace(/\/+/g, '/')`
unfoldable pub collapse : String → String
collapse String.[] = String.[]
collapse (String.◌∷◌ c s) =
    let rest = collapse s in
    if is_slash c
    then (if starts_with_slash rest then rest else String.◌∷◌ c rest)
    else String.◌∷◌ c rest

abbrev pub pushed : Option String → String → List Breadcrumb → List Breadcrumb
pushed label full rest =
    if is_given label
    then record { label = get_or_else label ""; link = collapse full } ∷ rest
    else rest

-- `buildBreadcrumb`
unfoldable pub build_breadcrumb : List Route → String → List Breadcrumb
build_breadcrumb [] url = []
build_breadcrumb (route ∷ routes) url =
    let rest = build_breadcrumb routes (full_path route url) in
    pushed route.label (full_path route url) rest
