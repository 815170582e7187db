-- ===== src/Cobb/Access.antt =====
-- core/auth and core/services/global-error-handler.service.ts: who may open a page, and what is told
-- of an error.
use testbench.Common.{Bool, true, false, Option, none, some, List, [], ◌∷◌, String, ◌===◌, ◌+++◌}

-- `isAuthenticated`, for the status that the service answers, or none where the request failed.
unfoldable pub is_authenticated : Option String → Bool
is_authenticated none = false
is_authenticated (some status) = status === "authenticated"

-- `window.location.href`
abbrev pub Location : Type 0
Location = String

-- `login` and `logout` of the service, for the url of the server.
abbrev pub login : String → Location
login base_url = base_url +++ "/auth" +++ "/login"

abbrev pub logout : String → Location
logout base_url = base_url +++ "/auth" +++ "/logout"

abbrev guard_answer : Bool → String → Location → Bool × Location
guard_answer true base_url at = (true, at)
guard_answer false base_url at = (false, login base_url)

-- `canActivate`
unfoldable pub can_activate : String → Option String → Location → Bool × Location
can_activate base_url user at = guard_answer (is_authenticated user) base_url at

pub record HttpRequest : Type 0 where
  pub url : String
  pub with_credentials : Bool

-- `intercept`: the request that is passed on.
abbrev pub intercept : HttpRequest → HttpRequest
intercept req = record req { with_credentials = true }

-- `handleError`: an answer of the server is not told again.
abbrev pub handle_error : (is_http_error : Bool) → List String
handle_error true = []
handle_error false = "Sorry, something went wrong." ∷ []
