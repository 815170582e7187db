-- ===== src/Cobb/Leaving.antt =====
-- The dialogs that delete: delete-application, delete-application-context, delete-artefact and
-- delete-measurement of features/applications/pages, and the pages of application.routes.ts that they
-- lead to.
use text.Mathlib.TextLemmas.{append_assoc}
use testbench.Common.{
  ◌≡◌, refl, Bool, true, Option, none, some, List, [], ◌∷◌, ◌++◌, String, ◌+++◌, ◌===◌, join, split,
  map, if◌then◌else◌, ap, sym, ◌∙◌,
}
use testbench.Cobb.Crumbs.{Route, full_path, resolved}

-- What is deleted: an application, a context of an application, an artefact or a measurement of a
-- context, by their ids.
pub data Thing : Type 0 where
  application : String → Thing
  context : String → String → Thing
  artefact : String → String → String → Thing
  measurement : String → String → String → Thing

-- A route with its one parameter, which has the id.
abbrev route : String → String → String → Route
route path param id = record {
  path = some path;
  params = λ name. if name === param then some id else none;
  label = none;
}

abbrev applications_route : Route
applications_route = route "applications" "" ""

abbrev application_route : String → Route
application_route id = route ":applicationId" "applicationId" id

abbrev context_route : String → Route
context_route id = route "context/:contextId" "contextId" id

-- The routes down to the page of a thing, and to the page above it.
abbrev pub routes_of : Thing → List Route
routes_of (application a) = applications_route ∷ application_route a ∷ []
routes_of (context a c) = applications_route ∷ application_route a ∷ context_route c ∷ []
routes_of (artefact a c i) =
    applications_route
    ∷ application_route a
    ∷ context_route c
    ∷ route "artefact/:artefactId" "artefactId" i
    ∷ []
routes_of (measurement a c i) =
    applications_route
    ∷ application_route a
    ∷ context_route c
    ∷ route "measurements/measurementResults/:measurementId" "measurementId" i
    ∷ []

abbrev pub without_last : List Route → List Route
without_last [] = []
without_last (r ∷ []) = []
without_last (r ∷ s ∷ rs) = r ∷ without_last (s ∷ rs)

-- The url of the page of some routes.
abbrev pub url_from : String → List Route → String
url_from url [] = url
url_from url (r ∷ rs) = url_from (full_path r url) rs

-- What a dialog has asked to delete, told and gone to, and what it was closed with.
pub record Deleting : Type 0 where
  pub requests : List String
  pub messages : List String
  pub visited : List (List String)
  pub closed : Option Bool

abbrev id_of : Thing → String
id_of (application a) = a
id_of (context a c) = c
id_of (artefact a c i) = i
id_of (measurement a c i) = i

-- `onSubmit` of the dialogs, up to the request.
unfoldable pub on_submit : Thing → Deleting → Deleting
on_submit t s = record s { requests = s.requests ++ (id_of t ∷ []) }

abbrev left : String → List String → Deleting → Deleting
left message commands s = record s {
  messages = s.messages ++ (message ∷ []);
  visited = s.visited ++ (commands ∷ []);
  closed = some true;
}

-- The answer that something was deleted; a refusal changes nothing.
unfoldable pub deleted : Thing → Deleting → Deleting
deleted (application a) s = left "Application deleted successfully." ("/applications" ∷ []) s
deleted (context a c) s = left "Context deleted successfully." ("/applications" ∷ a ∷ []) s
deleted (artefact a c i) s =
    left "Artefact deleted successfully." ("/applications" ∷ a ∷ "context" ∷ c ∷ []) s
deleted (measurement a c i) s =
    left "Measurement deleted successfully." ("/applications" ∷ a ∷ "context" ∷ c ∷ []) s

-- The urls that the commands of `router.navigate` make.
abbrev pub urls : Deleting → List String
urls s = map (join "/") s.visited

application_url :
    (a : String)
    → url_from "" (applications_route ∷ application_route a ∷ [])
      ≡ join "/" ("/applications" ∷ a ∷ [])
unfolding full_path resolved split join ◌+++◌
application_url a = refl

context_url :
    (a c : String)
    → url_from "" (applications_route ∷ application_route a ∷ context_route c ∷ [])
      ≡ join "/" ("/applications" ∷ a ∷ "context" ∷ c ∷ [])
unfolding full_path resolved split join ◌+++◌
context_url a c =
    let rest : String = "/" +++ "context" +++ "/" +++ c in
    append_assoc "/applications" ("/" +++ a) rest
    ∙ ap (λ x. "/applications" +++ x) (append_assoc "/" a rest)

map-append_one :
    {A : Type 0} {B : Type 0} (f : A → B) (xs : List A) (x : A)
    → map f (xs ++ (x ∷ [])) ≡ map f xs ++ (f x ∷ [])
map-append_one f [] x = refl
map-append_one f (y ∷ ys) x = ap (λ zs. f y ∷ zs) (map-append_one f ys x)

-- The url of the page above a thing is where its dialog goes to.
gone :
    (t : Thing) (s : Deleting)
    → urls (deleted t s) ≡ urls s ++ (url_from "" (without_last (routes_of t)) ∷ [])
unfolding deleted full_path resolved split join ◌+++◌
gone (application a) s = map-append_one (join "/") s.visited ("/applications" ∷ [])
gone (context a c) s =
    map-append_one (join "/") s.visited ("/applications" ∷ a ∷ [])
    ∙ ap (λ x. urls s ++ (x ∷ [])) (sym (application_url a))
gone (artefact a c i) s =
    map-append_one (join "/") s.visited ("/applications" ∷ a ∷ "context" ∷ c ∷ [])
    ∙ ap (λ x. urls s ++ (x ∷ [])) (sym (context_url a c))
gone (measurement a c i) s =
    map-append_one (join "/") s.visited ("/applications" ∷ a ∷ "context" ∷ c ∷ [])
    ∙ ap (λ x. urls s ++ (x ∷ [])) (sym (context_url a c))

closed_after : (t : Thing) (s : Deleting) → (deleted t s).closed ≡ some true
unfolding deleted
closed_after (application a) s = refl
closed_after (context a c) s = refl
closed_after (artefact a c i) s = refl
closed_after (measurement a c i) s = refl

-- When something was deleted, its dialog goes to the page above it: to the url that the routes down to
-- the deleted thing's page, without the last of them, have; and it is closed as done.
pub deleted-above :
    (t : Thing) (s : Deleting)
    → (urls (deleted t s) ≡ urls s ++ (url_from "" (without_last (routes_of t)) ∷ []))
      × ((deleted t s).closed ≡ some true)
deleted-above t s = (gone t s, closed_after t s)
