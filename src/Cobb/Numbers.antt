-- ===== src/Cobb/Numbers.antt =====
-- shared/services/number-format.service.ts: a number as a power of ten with superscripts.
use Prim.Native.Char.{Char, code}
use mathlib.Core.Path.{subst}
use text.Mathlib.TextEquality.{Char-path}
use testbench.Common.{and_split}
use testbench.Common.{
  ℕ, ◌≡◌, refl, Bool, true, false, Option, none, some, List, [], ◌∷◌, String, ◌+++◌, ◌==◌, ◌&&◌,
  ◌||◌, not, if◌then◌else◌, Bool-cases, inl, inr, ap, sym, ◌∙◌, arith, all,
}

-- `superscriptMap`
abbrev pub superscript_map : List (Char × Char)
superscript_map =
    ("-", "⁻")
    ∷ ("0", "⁰")
    ∷ ("1", "¹")
    ∷ ("2", "²")
    ∷ ("3", "³")
    ∷ ("4", "⁴")
    ∷ ("5", "⁵")
    ∷ ("6", "⁶")
    ∷ ("7", "⁷")
    ∷ ("8", "⁸")
    ∷ ("9", "⁹")
    ∷ []

look_up : List (Char × Char) → Char → Option Char
look_up [] c = none
look_up ((key, value) ∷ rest) c =
    let found = look_up rest c in if code c == code key then some value else found

-- A character that has no superscript is undefined, which `join` leaves out.
unfoldable pub convert : String → String
unfolding look_up
convert String.[] = String.[]
convert (String.◌∷◌ c s) = put (look_up superscript_map c) (convert s)
  where
    put : Option Char → String → String
    put none t = t
    put (some d) t = String.◌∷◌ d t

-- What the service takes from JavaScript's numbers: `isFinite`, `=== 0`, `toString`, the mantissa of
-- `toExponential` as `parseFloat` and `toString` print it, its exponent by `parseInt`, whether the
-- absolute value lies from `minNumber` below `maxNumber`, and `toLocaleString`.
pub record Numbers (V : Type 0) : Type 0 where
  pub is_finite : V → Bool
  pub is_zero : V → Bool
  pub to_text : V → String
  pub mantissa : V → ℕ → String
  pub exponent : V → ℕ → V
  pub is_in_range : V → Bool
  pub to_locale_string : V → ℕ → String

module _ {V : Type 0} (numbers : Numbers V) where
  unfoldable pub convert_number_to_superscript : V → String
  convert_number_to_superscript n = convert (numbers.to_text n)

  unfoldable pub to_scientific_label : V → ℕ → String
  unfolding convert_number_to_superscript
  to_scientific_label value digits =
      if not (numbers.is_finite value) || numbers.is_zero value
      then "0"
      else numbers.mantissa value digits
        +++ " × 10"
        +++ convert_number_to_superscript (numbers.exponent value digits)

  unfoldable pub format_y_axis_tick : V → ℕ → String
  unfolding to_scientific_label
  format_y_axis_tick value digits =
      if not (numbers.is_finite value) || numbers.is_zero value
      then "0"
      else (if numbers.is_in_range value
          then numbers.to_locale_string value digits
          else to_scientific_label value digits)

-- The character that a superscript stands for.
look_back : List (Char × Char) → Char → Option Char
look_back [] d = none
look_back ((key, value) ∷ rest) d =
    let found = look_back rest d in if code d == code value then some key else found

pub decode : String → String
unfolding look_back
decode String.[] = String.[]
decode (String.◌∷◌ d s) = put (look_back superscript_map d) (decode s)
  where
    put : Option Char → String → String
    put none t = t
    put (some c) t = String.◌∷◌ c t

has_superscript : List (Char × Char) → Char → Bool
has_superscript [] c = false
has_superscript ((key, value) ∷ rest) c = (code c == code key) || has_superscript rest c

-- A text of minus signs and digits, which every integer below 10 ^ 21 has as its text.
unfoldable pub is_integer_text : String → Bool
unfolding has_superscript
is_integer_text String.[] = true
is_integer_text (String.◌∷◌ c s) = has_superscript superscript_map c && is_integer_text s

-- No superscript of the table stands for two characters.
distinct : List (Char × Char) → Bool
distinct [] = true
distinct ((key, value) ∷ rest) =
    all (λ (e : Char × Char). not (code e.1 == code value)) rest && distinct rest

not-true : (b : Bool) → not b ≡ true → b ≡ false
not-true false h = refl
not-true true h = cc

look_up-fresh :
    (table : List (Char × Char)) (v c d : Char)
    → all (λ (e : Char × Char). not (code e.1 == code v)) table ≡ true
    → look_up table c ≡ some d
    → (code d == code v) ≡ false
unfolding look_up
look_up-fresh [] v c d fresh found = cc
look_up-fresh ((key, value) ∷ rest) v c d fresh found =
    let parts = and_split (not (code value == code v)) _ fresh in
    go (code c == code key) found parts.0 (look_up-fresh rest v c d parts.1)
  where
    go :
        (hit : Bool)
        → (if hit then some value else look_up rest c) ≡ some d
        → not (code value == code v) ≡ true
        → (look_up rest c ≡ some d → (code d == code v) ≡ false)
        → (code d == code v) ≡ false
    go true e other ih =
        let same : value ≡ d = cc in
        subst (λ (x : Char). (code x == code v) ≡ false) same (not-true _ other)
    go false e other ih = ih e

test_path : (c k : Char) → (code c == code k) ≡ true → c ≡ k
test_path c k e = Char-path c k (ground arith)

look_back-look_up :
    (table : List (Char × Char)) (c d : Char)
    → distinct table ≡ true
    → look_up table c ≡ some d
    → look_back table d ≡ some c
unfolding look_up look_back distinct
look_back-look_up [] c d apart found = cc
look_back-look_up ((key, value) ∷ rest) c d apart found =
    let parts = and_split (all (λ (e : Char × Char). not (code e.1 == code value)) rest) _ apart in
    elim (Bool-cases (code c == code key)) [
      | inl hit ↦
          let at : some value ≡ some d = sym (rw hit refl) ∙ found in
          let same : value ≡ d = cc in
          let own : (code value == code value) ≡ true = ground arith in
          subst (λ (x : Char). look_back ((key, value) ∷ rest) x ≡ some c) same
            (rw own (ap some (sym (test_path c key hit))))
      | inr miss ↦
          let later : look_up rest c ≡ some d = sym (rw miss refl) ∙ found in
          let other : (code d == code value) ≡ false = look_up-fresh rest value c d parts.0 later in
          rw other (look_back-look_up rest c d parts.1 later)
    ]

look_up-given :
    (table : List (Char × Char)) (c : Char)
    → has_superscript table c ≡ true
    → (d : Char) × (look_up table c ≡ some d)
unfolding look_up has_superscript
look_up-given [] c h = cc
look_up-given ((key, value) ∷ rest) c h = elim (Bool-cases (code c == code key)) [
  | inl hit ↦ (value, rw hit refl)
  | inr miss ↦ let (d, e) = look_up-given rest c (sym (rw miss refl) ∙ h) in (d, rw miss e)
]

-- The superscripts of a text of minus signs and digits can be read back: no character of it is
-- lost or confused.
pub decode-convert : (s : String) → is_integer_text s ≡ true → decode (convert s) ≡ s
unfolding decode convert is_integer_text distinct
decode-convert String.[] h = refl
decode-convert (String.◌∷◌ c s) h =
    let parts = and_split (has_superscript superscript_map c) _ h in
    let (d, up) = look_up-given superscript_map c parts.0 in
    rw (up, look_back-look_up superscript_map c d refl up, decode-convert s parts.1) refl
