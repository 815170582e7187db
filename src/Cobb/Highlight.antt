-- ===== src/Cobb/Highlight.antt =====
-- What a click on a point of the chart shows, in result-chart.component.ts.
use testbench.Common.{
  ℕ, zero, suc, ◌+◌, ◌≡◌, refl, Bool, true, false, some, List, [], ◌∷◌, String, ◌==◌, length,
  replicate, set, get_elem?, length-replicate, if◌then◌else◌, arith, ap, ◌∙◌, Bool-cases, inl, inr,
  ltb, ◌<◌, ◌&&◌,
}
use testbench.Cobb.Colors.{
  Colors, each, Dataset, add_highlight, with_points, border, paint_dataset, highlight_line_dataset,
  highlight_bar_dataset, highlight_dataset, color_from, update_bar_colors, points_of, point_colors,
}

get_elem?-replicate :
    {A : Type 0} (n : ℕ) (x : A) (i : ℕ) → i < n → get_elem? (replicate n x) i ≡ some x
get_elem?-replicate zero x i b = absurd (omega (arith, b))
get_elem?-replicate (suc n) x zero b = refl
get_elem?-replicate (suc n) x (suc i) b = get_elem?-replicate n x i (omega (arith, b))

get_elem?-set :
    {A : Type 0} (xs : List A) (s i : ℕ) (v x : A)
    → get_elem? xs i ≡ some x
    → get_elem? (set xs s v) i ≡ some (if i == s then v else x)
get_elem?-set [] s i v x at = cc
get_elem?-set (y ∷ ys) zero zero v x at = refl
get_elem?-set (y ∷ ys) zero (suc i) v x at = ground (arith, at)
get_elem?-set (y ∷ ys) (suc s) zero v x at = ground (arith, at)
get_elem?-set (y ∷ ys) (suc s) (suc i) v x at = ground (arith, get_elem?-set ys s i v x at)

highlighted-at :
    (n : ℕ) (low high : String) (s i : ℕ)
    → i < n
    → get_elem? (add_highlight (replicate n low) s high) i ≡ some (if i == s then high else low)
unfolding add_highlight
highlighted-at n low high s i b = elim (Bool-cases (ltb s (length (replicate n low)))) [
  | inl hit ↦ rw hit (get_elem?-set (replicate n low) s i high low (get_elem?-replicate n low i b))
  | inr miss ↦
      let out : (i == s) ≡ false = ground (arith, length-replicate n low) in
      rw (miss, out) (get_elem?-replicate n low i b)
]

-- The colour of a point in a dataset that is the clicked one or not.
abbrev pub point_color : Colors → Bool → ℕ → ℕ → String
point_color c active selected i = if active && i == selected then c.tertiary else c.primary16

module _ {N : Type 0} where
  -- What the user sees of a dataset: its values as before, and the colours of its points.
  unfoldable pub Shows : Dataset N → Dataset N → (ℕ → String) → Type 0
  Shows before d color =
      (d.values ≡ before.values)
      × (colors : List String) × (point_colors d ≡ each colors)
      × ((i : ℕ) → i < length before.values → get_elem? colors i ≡ some (color i))

  -- A dataset as the loop leaves it.
  abbrev colored : Colors → Bool → ℕ → Dataset N → Dataset N
  colored c active selected d =
      if active then highlight_dataset d.is_line c selected d else paint_dataset c.primary16 d

  color_from-at :
      (c : Colors) (s a k : ℕ) (ds : List (Dataset N)) (j : ℕ) (d : Dataset N)
      → get_elem? ds j ≡ some d
      → get_elem? (color_from c s a k ds) j ≡ some (colored c (k + j == a) s d)
  unfolding color_from
  color_from-at c s a k [] j d at = cc
  color_from-at c s a k (x ∷ ds) zero d at =
      let same : x ≡ d = cc in
      let shift : k + zero ≡ k = omega arith in
      rw shift (ap (λ y. some (colored c (k == a) s y)) same)
  color_from-at c s a k (x ∷ ds) (suc j) d at =
      let shift : k + suc j ≡ suc k + j = omega arith in
      rw shift (color_from-at c s a (suc k) ds j d at)

  first_at :
      (c : Colors) (s a : ℕ) (ds : List (Dataset N)) (j : ℕ) (d : Dataset N)
      → get_elem? ds j ≡ some d
      → get_elem? (color_from c s a 0 ds) j ≡ some (colored c (j == a) s d)
  first_at c s a ds j d at =
      let shift : 0 + j ≡ j = omega arith in
      color_from-at c s a 0 ds j d at ∙ ap (λ n. some (colored c (n == a) s d)) shift

  highlight-Shows :
      (c : Colors) (s : ℕ) (d : Dataset N) (l : Bool)
      → d.is_line ≡ l
      → Shows d (highlight_dataset l c s d) (point_color c true s)
  unfolding Shows highlight_dataset highlight_line_dataset highlight_bar_dataset point_colors
      points_of
  highlight-Shows c s d true e =
      (refl, _, rw e refl, λ i b. highlighted-at (length d.values) c.primary16 c.tertiary s i b)
  highlight-Shows c s d false e =
      (refl, _, rw e refl, λ i b. highlighted-at (length d.values) c.primary16 c.tertiary s i b)

  paint-Shows :
      (c : Colors) (s : ℕ) (d : Dataset N) (l : Bool)
      → d.is_line ≡ l
      → Shows d (paint_dataset c.primary16 d) (point_color c false s)
  unfolding Shows paint_dataset with_points border point_colors points_of
  paint-Shows c s d true e = rw e (
    refl,
    replicate (length d.values) c.primary16,
    refl,
    λ i b. get_elem?-replicate (length d.values) c.primary16 i b,
  )
  paint-Shows c s d false e = rw e (
    refl,
    replicate (length d.values) c.primary16,
    refl,
    λ i b. get_elem?-replicate (length d.values) c.primary16 i b,
  )

  colored-Shows :
      (c : Colors) (s : ℕ) (d : Dataset N) (active : Bool)
      → Shows d (colored c active s d) (point_color c active s)
  colored-Shows c s d true = highlight-Shows c s d d.is_line refl
  colored-Shows c s d false = paint-Shows c s d d.is_line refl

  -- After a click on a point, that point has the highlight colour and all other points of all
  -- datasets have the disabled one; the values are as they were.
  pub update_bar_colors-click :
      (c : Colors) (selected active : ℕ) (ds : List (Dataset N)) (j : ℕ) (d : Dataset N)
      → get_elem? ds j ≡ some d
      → (d' : Dataset N) × (get_elem? (update_bar_colors c (some selected) (some active) ds) j
          ≡ some d')
        × Shows d d' (point_color c (j == active) selected)
  unfolding update_bar_colors
  update_bar_colors-click c selected active ds j d at = (
    colored c (j == active) selected d,
    first_at c selected active ds j d at,
    colored-Shows c selected d (j == active),
  )
