-- ===== src/Cobb/Opened.antt =====
-- Who sees the pages of app.routes.ts and application.routes.ts, and under which crumbs.
use testbench.Common.{
  ◌≡◌, refl, true, false, Option, none, some, List, [], ◌∷◌, String, map, All, ◌∙◌, Bool-cases, inl,
  inr, if◌then◌else◌, find, arith, ◌===◌, is_given, is_truthy, get_or_else, and_split, get_elem?,
}
use testbench.Cobb.Crumbs.{Breadcrumb, build_breadcrumb}
use testbench.Cobb.Trail.{labels, build-labels}
use testbench.Cobb.Access.{is_authenticated, can_activate, login, Location}
use testbench.Cobb.Resolvers.{
  Named, Listed, resolve_application, resolve_context, resolve_measurement,
}
use testbench.Cobb.Pages.{
  RouteConfig, forest_chains, app_routes, Answers, Router, all_true, guard_answers, is_guarded,
  activated, resolutions, open_page, crumb_label,
}

-- Whether all guards agree is what the one guard answers, if there is any.
guards-true : (chain : List RouteConfig) → all_true (guard_answers true chain) ≡ true
guards-true [] = refl
guards-true (c ∷ cs) = elim (Bool-cases c.is_guarded) [
  | inl e ↦ rw e (guards-true cs)
  | inr e ↦ rw e (guards-true cs)
]

guards-false :
    (chain : List RouteConfig)
    → is_guarded chain ≡ true
    → all_true (guard_answers false chain) ≡ false
guards-false [] h = cc
guards-false (c ∷ cs) h = elim (Bool-cases c.is_guarded) [
  | inl e ↦ rw e refl
  | inr e ↦ let rest : is_guarded cs ≡ true = rw e at h in rw e (guards-false cs rest)
]

module _ (router : Router) (base_url : String) (params : String → Option String) (answers : Answers)
    (at : Location) where
  -- What asking for a page does, for a user who is logged in and for any other.
  abbrev pub IsProtected : List RouteConfig → Type 0
  IsProtected chain =
      (user : Option String)
      → (is_authenticated user ≡ false
          → open_page params answers router base_url user chain at ≡ (none, login base_url))
        × (is_authenticated user ≡ true
            → open_page params answers router base_url user chain at ≡ (
              if all_true (resolutions params answers chain)
                  then some (build_breadcrumb (activated params answers chain) "")
                  else none,
              at,
            ))

  guarded-IsProtected : (chain : List RouteConfig) → is_guarded chain ≡ true → IsProtected chain
  unfolding open_page can_activate
  guarded-IsProtected chain h user = (
    λ out. rw (
      out,
      router.activates_lem (guard_answers false chain) (resolutions params answers chain),
      guards-false chain h,
      h,
    ),
    λ logged_in. rw (
      logged_in,
      router.activates_lem (guard_answers true chain) (resolutions params answers chain),
      guards-true chain,
      h,
    ),
  )

  chains-IsProtected :
      (chains : List (List RouteConfig))
      → all_true (map is_guarded chains) ≡ true
      → All IsProtected chains
  chains-IsProtected [] h = tt
  chains-IsProtected (chain ∷ chains) h =
      let (first, rest) = and_split (is_guarded chain) (all_true (map is_guarded chains)) h in
      (guarded-IsProtected chain first, chains-IsProtected chains rest)

  -- Every page but the one for a page that is not found is shown to a user who is logged in only, any
  -- other is sent to the login; it is shown if the resolvers of its routes succeed, and the browser
  -- then stays.
  pub pages-IsProtected : All IsProtected (forest_chains [] app_routes)
  unfolding forest_chains
  pages-IsProtected = chains-IsProtected (forest_chains [] app_routes) refl

-- The routes to the page of a measurement.
abbrev measurement_chain : List RouteConfig
measurement_chain = get_or_else (get_elem? (forest_chains [] app_routes) 4) []

-- The page of a measurement that is found, of an application and a context with names, stands under
-- the crumbs 'Applications' and the three names.
measurement-labels :
    (params : String → Option String) (answers : Answers) (p q : Named)
    (application context id application_id : String)
    → (answers.application ≡ some p) × (p.name ≡ some application) × (is_given p.id ≡ true)
    → (answers.context ≡ some q) × (q.name ≡ some context) × (is_given q.id ≡ true)
    → (is_truthy application ≡ true) × (is_truthy context ≡ true)
    → (ms : List Listed) (m : Listed) (name : String)
    → (params "measurementId" ≡ some id) × (is_truthy id ≡ true)
    → (params "applicationId" ≡ some application_id) × (is_truthy application_id ≡ true)
    → (answers.measurements ≡ some ms)
      × (find (λ (k : Listed). k.id === id) ms ≡ some m)
      × (m.name ≡ some name)
      × (is_truthy name ≡ true)
    → map
        (λ (b : Breadcrumb). b.label)
        (build_breadcrumb (activated params answers measurement_chain) "")
      ≡ "Applications" ∷ application ∷ context ∷ name ∷ []
unfolding forest_chains labels crumb_label resolve_application resolve_context resolve_measurement
measurement-labels params answers p q application context id application_id (a1, a2, a3)
      (c1, c2, c3) (t1, t2) ms m name (i1, i2) (j1, j2) (m1, m2, m3, m4) =
    build-labels (activated params answers measurement_chain) ""
    ∙ rw (a1, a2, a3, c1, c2, c3, t1, t2, i1, i2, j1, j2, m1, m2, m3, m4) (ground (arith, t1, t2))
