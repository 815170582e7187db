-- ===== src/Cobb/Pages.antt =====
-- app.routes.ts and features/applications/application.routes.ts: the routes to the pages, with their
-- guards and crumbs, and what it takes to open one.
use testbench.Common.{
  ◌≡◌, Bool, true, false, ◌&&◌, ◌||◌, Option, none, some, List, [], ◌∷◌, ◌++◌, String, map,
  if◌then◌else◌, is_some, get_or_else,
}
use testbench.Cobb.Crumbs.{Route, Breadcrumb, build_breadcrumb}
use testbench.Cobb.Access.{Location, can_activate}
use testbench.Cobb.Resolvers.{
  Named, Listed, resolve_application, resolve_context, resolve_artefact, resolve_measurement,
}

-- The breadcrumb of a route: none, one to be skipped, a text, or that of a resolver.
pub data Crumb : Type 0 where
  no_crumb : Crumb
  skipped : Crumb
  fixed : String → Crumb
  of_application : Crumb
  of_context : Crumb
  of_artefact : Crumb
  of_measurement : Crumb

-- A route without its children; `is_guarded`: `canActivate` names the guard.
pub record RouteConfig : Type 0 where
  pub path : String
  pub is_guarded : Bool
  pub crumb : Crumb

mutual
  -- A route of a page, or one with children.
  pub data RouteTree : Type 0 where
    page : RouteConfig → RouteTree
    parent : RouteConfig → RouteForest → RouteTree

  pub data RouteForest : Type 0 where
    no_routes : RouteForest
    routes : RouteTree → RouteForest → RouteForest

abbrev config : String → Crumb → RouteConfig
config path crumb = record { path = path; is_guarded = true; crumb = crumb }

-- The children of 'context/:contextId'.
abbrev pub context_routes : RouteForest
context_routes = routes (page (config "" skipped)) (
    routes (page (config "artefact/:artefactId" of_artefact)) (
      routes (page (config "measurements/measurementResults/:measurementId" of_measurement))
        no_routes))

abbrev pub application_routes : RouteForest
application_routes = routes (page (config "" skipped)) (
    routes
      (parent (config ":applicationId" of_application) (
        routes (page (config "" skipped))
          (routes (parent (config "context/:contextId" of_context) context_routes) no_routes)))
      no_routes)

-- `routes` of app.routes.ts, but the last, which shows that a page is not found.
abbrev pub app_routes : RouteForest
app_routes = routes (parent (config "applications" (fixed "Applications")) application_routes) (
    routes (page (config "eco-insights" (fixed "Eco Insights")))
      (routes (page (config "" no_crumb)) no_routes))

-- The routes down to each page, in the order of the file.
unfoldable mutual
  pub tree_chains : List RouteConfig → RouteTree → List (List RouteConfig)
  tree_chains above (page c) = (above ++ c ∷ []) ∷ []
  tree_chains above (parent c children) = forest_chains (above ++ c ∷ []) children

  pub forest_chains : List RouteConfig → RouteForest → List (List RouteConfig)
  forest_chains above no_routes = []
  forest_chains above (routes t rest) = tree_chains above t ++ forest_chains above rest

-- What the services answer to the resolvers.
pub record Answers : Type 0 where
  pub application : Option Named
  pub context : Option Named
  pub artefact : Option Named
  pub measurements : Option (List Listed)

abbrev label_of : Option Breadcrumb → Option (Option String)
label_of none = none
label_of (some b) = some (some b.label)

-- The label of a route, if it has one; `none`: its resolver has failed.
unfoldable pub crumb_label : (String → Option String) → Answers → Crumb → Option (Option String)
crumb_label params a no_crumb = some none
crumb_label params a skipped = some none
crumb_label params a (fixed text) = some (some text)
crumb_label params a of_application = label_of (resolve_application a.application)
crumb_label params a of_context = label_of (resolve_context a.context)
crumb_label params a of_artefact = label_of (resolve_artefact a.artefact)
crumb_label params a of_measurement =
    label_of (resolve_measurement (params "measurementId") (params "applicationId") a.measurements)

abbrev pub all_true : List Bool → Bool
all_true [] = true
all_true (b ∷ bs) = b && all_true bs

-- What Angular's router documents: a page is activated if all guards of its routes agree and none of
-- their resolvers has failed.
pub record Router : Type 0 where
  pub activates : (guards resolvers : List Bool) → Bool
  pub activates_lem :
      (guards resolvers : List Bool)
      → activates guards resolvers ≡ (all_true guards && all_true resolvers)

-- The answers of the guards of some routes.
abbrev pub guard_answers : Bool → List RouteConfig → List Bool
guard_answers answer [] = []
guard_answers answer (c ∷ cs) =
    if c.is_guarded then answer ∷ guard_answers answer cs else guard_answers answer cs

abbrev pub is_guarded : List RouteConfig → Bool
is_guarded [] = false
is_guarded (c ∷ cs) = c.is_guarded || is_guarded cs

module _ (params : String → Option String) (answers : Answers) where
  abbrev pub label_given : RouteConfig → Option (Option String)
  label_given c = crumb_label params answers c.crumb

  -- The routes as they are activated.
  abbrev pub activated : List RouteConfig → List Route
  activated [] = []
  activated (c ∷ cs) =
      record { path = some c.path; params = params; label = get_or_else (label_given c) none }
      ∷ activated cs

  -- Whether the resolvers of the routes have succeeded.
  abbrev pub resolutions : List RouteConfig → List Bool
  resolutions cs = map (λ (c : RouteConfig). is_some (label_given c)) cs

  -- A page is asked for: its crumbs, if it is shown, and where the browser is then.
  unfoldable pub open_page :
      Router
      → String
      → Option String
      → List RouteConfig
      → Location
      → Option (List Breadcrumb) × Location
  open_page router base_url user chain at = (
    if router.activates (guard_answers (can_activate base_url user at).0 chain) (resolutions chain)
        then some (build_breadcrumb (activated chain) "")
        else none,
    if is_guarded chain then (can_activate base_url user at).1 else at,
  )
