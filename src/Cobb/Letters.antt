-- ===== src/Cobb/Letters.antt =====
-- `toLowerCase` and `toUpperCase` on the 26 letters; all other characters stay as they are.
use Prim.Native.Char.{Char, code}
use testbench.Common.{List, [], ◌∷◌, String, ◌==◌, if◌then◌else◌}

-- The capital letters with the small ones.
abbrev letters : List (Char × Char)
letters =
    ("A", "a")
    ∷ ("B", "b")
    ∷ ("C", "c")
    ∷ ("D", "d")
    ∷ ("E", "e")
    ∷ ("F", "f")
    ∷ ("G", "g")
    ∷ ("H", "h")
    ∷ ("I", "i")
    ∷ ("J", "j")
    ∷ ("K", "k")
    ∷ ("L", "l")
    ∷ ("M", "m")
    ∷ ("N", "n")
    ∷ ("O", "o")
    ∷ ("P", "p")
    ∷ ("Q", "q")
    ∷ ("R", "r")
    ∷ ("S", "s")
    ∷ ("T", "t")
    ∷ ("U", "u")
    ∷ ("V", "v")
    ∷ ("W", "w")
    ∷ ("X", "x")
    ∷ ("Y", "y")
    ∷ ("Z", "z")
    ∷ []

-- The small letter of a capital one.
small : List (Char × Char) → Char → Char
small [] c = c
small ((upper, lower) ∷ rest) c =
    let other = small rest c in if code c == code upper then lower else other

capital : List (Char × Char) → Char → Char
capital [] c = c
capital ((upper, lower) ∷ rest) c =
    let other = capital rest c in if code c == code lower then upper else other

unfoldable pub to_lower_case : String → String
unfolding small
to_lower_case String.[] = String.[]
to_lower_case (String.◌∷◌ c s) = String.◌∷◌ (small letters c) (to_lower_case s)

unfoldable pub to_upper_case : String → String
unfolding capital
to_upper_case String.[] = String.[]
to_upper_case (String.◌∷◌ c s) = String.◌∷◌ (capital letters c) (to_upper_case s)
