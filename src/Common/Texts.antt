-- ===== src/Common/Texts.antt =====
-- Texts: JavaScript strings that the program compares, joins and tests for being empty.
use Prim.Native.Char.{Char, code}
use Prim.Native.String
use testbench.Common.Tests.{◌==◌, if◌then◌else◌}
use Prim.Native.String.{String}
use mathlib.Core.Bool.{Bool, true, false}
use mathlib.Core.List.{List, [], ◌∷◌}
use mathlib.Core.Option.{Option, none, some}
pub use text.Mathlib.Text.{◌==◌ as str_eq}
pub use text.Mathlib.TextEquality.{eq_iff}

-- `s === t`
infix 50 ◌===◌
abbrev pub ◌===◌ : String → String → Bool
s === t = str_eq s t

-- Concatenation, which a template literal is made of.
infixr 66 ◌+++◌
unfoldable pub ◌+++◌ : String → String → String
s +++ t = String.◌++◌ s t

-- The empty text is falsy.
abbrev pub is_truthy : String → Bool
is_truthy String.[] = false
is_truthy (String.◌∷◌ c s) = true

-- An absent text is falsy too.
abbrev pub is_given : Option String → Bool
is_given none = false
is_given (some s) = is_truthy s

-- `parts.join(separator)`
unfoldable pub join : String → List String → String
join separator [] = ""
join separator (part ∷ []) = part
join separator (part ∷ other ∷ parts) = part +++ separator +++ join separator (other ∷ parts)

onto_first : Char → List String → List String
onto_first c [] = String.◌∷◌ c String.[] ∷ []
onto_first c (s ∷ ss) = String.◌∷◌ c s ∷ ss

-- `s.split(separator)`, on one character.
unfoldable pub split : Char → String → List String
unfolding onto_first
split separator String.[] = "" ∷ []
split separator (String.◌∷◌ c s) =
    let rest = split separator s in
    if code c == code separator then "" ∷ rest else onto_first c rest
