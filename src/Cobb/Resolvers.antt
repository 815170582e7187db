-- ===== src/Cobb/Resolvers.antt =====
-- The four resolvers breadcrumb-*-id.resolve.ts of features/applications: the crumb of a route.
use testbench.Common.{
  ◌&&◌, Option, none, some, List, String, ◌===◌, ◌+++◌, find, is_given, is_truthy, get_or_else,
  if◌then◌else◌,
}
use testbench.Cobb.Crumbs.{Breadcrumb}

-- What a service answers for an id: its id, and its name (of an artefact, the original file name).
pub record Named : Type 0 where
  pub id : Option String
  pub name : Option String

-- The crumb of an answer with a name and an id, an error of any other.
abbrev named_crumb : String → Named → Option Breadcrumb
named_crumb prefix p =
    if is_given p.name && is_given p.id
    then some (record { label = get_or_else p.name ""; link = prefix +++ get_or_else p.id "" })
    else none

-- `resolve` of the application's and the context's resolver; `none` is an error.
unfoldable pub resolve_application : Option Named → Option Breadcrumb
resolve_application none = none
resolve_application (some p) = named_crumb "/applications/" p

unfoldable pub resolve_context : Option Named → Option Breadcrumb
resolve_context none = none
resolve_context (some p) = named_crumb "/context/" p

-- `p.originalFileName || 'Unknown Artefact'`
abbrev pub artefact_label : Option String → String
artefact_label none = "Unknown Artefact"
artefact_label (some s) = if is_truthy s then s else "Unknown Artefact"

unfoldable pub resolve_artefact : Option Named → Option Breadcrumb
resolve_artefact none = none
resolve_artefact (some p) =
    if is_given p.id
    then some
        (record { label = artefact_label p.name; link = "/artefact/" +++ get_or_else p.id "" })
    else none

-- A measurement of the list of an application.
pub record Listed : Type 0 where
  pub id : String
  pub name : Option String

-- `found?.name ?? 'Result'`
abbrev found_name : Option Listed → String
found_name none = "Result"
found_name (some m) = get_or_else m.name "Result"

abbrev measurement_label : Option (List Listed) → String → String
measurement_label none id = "Result"
measurement_label (some measurements) id =
    found_name (find (λ (m : Listed). m.id === id) measurements)

-- Without both ids the crumb is unknown; a failure of the service is caught.
unfoldable pub resolve_measurement :
    Option String → Option String → Option (List Listed) → Option Breadcrumb
resolve_measurement measurement_id application_id answer =
    if is_given measurement_id && is_given application_id
    then some (record {
      label = measurement_label answer (get_or_else measurement_id "");
      link = get_or_else measurement_id "";
    })
    else some (record { label = "Unknown"; link = "" })
