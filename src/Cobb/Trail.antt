-- ===== src/Cobb/Trail.antt =====
-- What the crumbs of Cobb/Crumbs keep to: their labels, and links that lead below each other.
use Prim.Native.Char.{Char}
use text.Mathlib.TextEquality.{Char-path}
use text.Mathlib.TextLemmas.{nil-append, cons-append, append-nil, append_assoc}
use testbench.Common.{
  ◌≡◌, refl, Bool, true, false, List, [], ◌∷◌, String, ◌+++◌, map, All, if◌then◌else◌, Bool-cases,
  inl, inr, ap, sym, ◌∙◌, arith, is_given, is_truthy, get_or_else,
}
use testbench.Cobb.Crumbs.{
  Route, Breadcrumb, is_slash, starts_with_slash, full_path, collapse, build_breadcrumb,
}

-- Whether a slash follows a slash.
pub has_double : String → Bool
has_double String.[] = false
has_double (String.◌∷◌ c s) =
    let rest = has_double s in
    if is_slash c then (if starts_with_slash s then true else rest) else rest

collapse-has_double : (s : String) → has_double (collapse s) ≡ false
unfolding has_double collapse
collapse-has_double String.[] = refl
collapse-has_double (String.◌∷◌ c s) =
    let ih = collapse-has_double s in
    elim (Bool-cases (is_slash c)) [
      | inl slash ↦ elim (Bool-cases (starts_with_slash (collapse s))) [
        | inl twice ↦ rw (slash, twice) ih
        | inr once ↦ rw (slash, once, slash, once) ih
      ]
      | inr other ↦ rw (other, other) ih
    ]

-- A link leads below another one.
abbrev pub Extends : String → String → Type 0
Extends s t = (rest : String) × (t ≡ s +++ rest)

starts_append : (s t : String) → starts_with_slash s ≡ true → starts_with_slash (s +++ t) ≡ true
unfolding ◌+++◌
starts_append String.[] t h = cc
starts_append (String.◌∷◌ c s) t h = rw (cons-append c s t) h

slash_head :
    (c : Char) (u : String)
    → is_slash c ≡ true
    → starts_with_slash u ≡ true
    → (rest : String) × (u ≡ String.◌∷◌ c rest)
slash_head c String.[] slash h = cc
slash_head c (String.◌∷◌ d u) slash h =
    let same : d ≡ c = Char-path d c (ground arith) in (u, ap (λ x. String.◌∷◌ x u) same)

slash_before :
    (c : Char) (s u rest : String)
    → is_slash c ≡ true
    → starts_with_slash s ≡ false
    → starts_with_slash u ≡ true
    → u ≡ s +++ rest
    → Extends (String.◌∷◌ c s) u
unfolding ◌+++◌
slash_before c String.[] u rest slash bare h e =
    let (tail, same) = slash_head c u slash h in
    (
      tail,
      same ∙ ap (λ x. String.◌∷◌ c x) (sym (nil-append tail)) ∙ sym (cons-append c String.[] tail),
    )
slash_before c (String.◌∷◌ d s) u rest slash bare h e =
    let no_slash : starts_with_slash u ≡ false =
      ap starts_with_slash (e ∙ cons-append d s rest) ∙ bare in
    cc

collapse-Extends : (s t : String) → Extends (collapse s) (collapse (s +++ t))
unfolding collapse ◌+++◌
collapse-Extends String.[] t = (collapse t, rw (nil-append t, nil-append (collapse t)) refl)
collapse-Extends (String.◌∷◌ c s) t =
    let (rest, e) = collapse-Extends s t in
    let onto : Extends (String.◌∷◌ c (collapse s)) (String.◌∷◌ c (collapse (s +++ t))) =
      (rest, ap (λ x. String.◌∷◌ c x) e ∙ sym (cons-append c (collapse s) rest)) in
    rw (cons-append c s t) (elim (Bool-cases (is_slash c)) [
      | inl slash ↦ elim (Bool-cases (starts_with_slash (collapse s))) [
        | inl twice ↦
            let still : starts_with_slash (collapse (s +++ t)) ≡ true =
              ap starts_with_slash e ∙ starts_append (collapse s) rest twice in
            rw (slash, twice, still) (rest, e)
        | inr once ↦ elim (Bool-cases (starts_with_slash (collapse (s +++ t)))) [
          | inl joined ↦
              rw (slash, once, joined)
                (slash_before c (collapse s) (collapse (s +++ t)) rest slash once joined e)
          | inr apart ↦ rw (slash, once, apart) onto
        ]
      ]
      | inr other ↦ rw other onto
    ])

full_path-Extends : (route : Route) (url : String) → Extends url (full_path route url)
unfolding full_path ◌+++◌
full_path-Extends route url = elim (Bool-cases (is_truthy (get_or_else route.path ""))) [
  | inl given ↦ rw given (_, refl)
  | inr empty ↦ rw empty ("", sym (append-nil url))
]

-- The urls that the crumbs' links are made of begin with the url of the start.
links-of_url :
    (routes : List Route) (url : String)
    → All
        (λ (b : Breadcrumb). (rest : String) × (b.link ≡ collapse (url +++ rest)))
        (build_breadcrumb routes url)
unfolding build_breadcrumb ◌+++◌
links-of_url [] url = tt
links-of_url (route ∷ routes) url =
    let (more, e) = full_path-Extends route url in
    let later =
      widened more e (build_breadcrumb routes (full_path route url))
        (links-of_url routes (full_path route url)) in
    elim (Bool-cases (is_given route.label)) [
      | inl given ↦ rw given ((more, ap collapse e), later)
      | inr missing ↦ rw missing later
    ]
  where
    widened :
        (more : String)
        → full_path route url ≡ url +++ more
        → (bs : List Breadcrumb)
        → All
            (λ (b : Breadcrumb).
              (rest : String) × (b.link ≡ collapse (full_path route url +++ rest)))
            bs
        → All (λ (b : Breadcrumb). (rest : String) × (b.link ≡ collapse (url +++ rest))) bs
    widened more e [] h = tt
    widened more e (b ∷ bs) ((rest, at), h) = (
      (
        more +++ rest,
        at ∙ ap (λ x. collapse (x +++ rest)) e ∙ ap collapse (append_assoc url more rest),
      ),
      widened more e bs h,
    )

links-Extends :
    (url : String) (bs : List Breadcrumb)
    → All (λ (b : Breadcrumb). (rest : String) × (b.link ≡ collapse (url +++ rest))) bs
    → All (λ (b : Breadcrumb). Extends (collapse url) b.link) bs
links-Extends url [] h = tt
links-Extends url (b ∷ bs) ((rest, at), h) =
    let (tail, e) = collapse-Extends url rest in ((tail, at ∙ e), links-Extends url bs h)

-- Each crumb's link begins the links of all that follow it.
pub IsNested : List Breadcrumb → Type 0
IsNested [] = Unit
IsNested (b ∷ bs) = All (λ (later : Breadcrumb). Extends b.link later.link) bs × IsNested bs

-- The labels that the routes give, in their order.
unfoldable pub labels : List Route → List String
labels [] = []
labels (route ∷ routes) =
    let rest = labels routes in
    if is_given route.label then get_or_else route.label "" ∷ rest else rest

build-IsNested : (routes : List Route) (url : String) → IsNested (build_breadcrumb routes url)
unfolding build_breadcrumb IsNested
build-IsNested [] url = tt
build-IsNested (route ∷ routes) url =
    let full : String = full_path route url in
    let ih : IsNested (build_breadcrumb routes full) = build-IsNested routes full in
    elim (Bool-cases (is_given route.label)) [
      | inl given ↦ rw given (links-Extends full _ (links-of_url routes full), ih)
      | inr missing ↦ rw missing ih
    ]

pub build-labels :
    (routes : List Route) (url : String)
    → map (λ (b : Breadcrumb). b.label) (build_breadcrumb routes url) ≡ labels routes
unfolding build_breadcrumb labels
build-labels [] url = refl
build-labels (route ∷ routes) url =
    let ih = build-labels routes (full_path route url) in
    elim (Bool-cases (is_given route.label)) [
      | inl given ↦ rw given (ap (λ ls. get_or_else route.label "" ∷ ls) ih)
      | inr missing ↦ rw missing ih
    ]

build-has_double :
    (routes : List Route) (url : String)
    → All (λ (b : Breadcrumb). has_double b.link ≡ false) (build_breadcrumb routes url)
unfolding build_breadcrumb
build-has_double [] url = tt
build-has_double (route ∷ routes) url =
    let ih = build-has_double routes (full_path route url) in
    elim (Bool-cases (is_given route.label)) [
      | inl given ↦ rw given (collapse-has_double (full_path route url), ih)
      | inr missing ↦ rw missing ih
    ]

-- The crumbs have the labels of the routes that give one, in their order; no link has two slashes in
-- a row, and each begins the links that follow it.
pub build-trail :
    (routes : List Route) (url : String)
    → let crumbs = build_breadcrumb routes url in
      (map (λ (b : Breadcrumb). b.label) crumbs ≡ labels routes)
      × All (λ (b : Breadcrumb). has_double b.link ≡ false) crumbs
      × IsNested crumbs
build-trail routes url =
    (build-labels routes url, build-has_double routes url, build-IsNested routes url)
