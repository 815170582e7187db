-- ===== src/Cobb/Settled.antt =====
-- What the screen of Cobb/Categories keeps to: its bars, names, label and key belong together.
use mathlib.Core.Path.{subst}
use testbench.Common.{
  ℕ, zero, suc, ◌<◌, ◌≡◌, Option, none, some, List, [], ◌∷◌, get_elem?, get_elem?-take, take, ◌||◌,
  not, is_given, Bool-cases, inl, inr, ap, sym, ◌∙◌, refl,
}
use testbench.Cobb.Categories.{
  Key, ecodigit_score, Normalized, Category, category, categories, category_named, Screen, names_of,
  values_of, new_screen, update_category_values, update_with, keyed, recompute_derived, lacks_key,
  on_init, on_changes, get_index, item_value, selected_category_value, selected_category_data,
  Event, measured, chosen, barred, handle, handle_all, start,
}

named_of :
    (d c : Category)
    → category_named d.label ≡ some d
    → some d ≡ some c
    → category_named c.label ≡ some c
named_of d c found e =
    let same : d ≡ c = cc in subst (λ x. category_named x.label ≡ some x) same found

table_label :
    (n : ℕ) (c : Category) → get_elem? categories n ≡ some c → category_named c.label ≡ some c
table_label zero c at = named_of _ c refl at
table_label (suc zero) c at = named_of _ c refl at
table_label (suc (suc zero)) c at = named_of _ c refl at
table_label (suc (suc (suc zero))) c at = named_of _ c refl at
table_label (suc (suc (suc (suc zero)))) c at = named_of _ c refl at
table_label (suc (suc (suc (suc (suc zero))))) c at = named_of _ c refl at
table_label (suc (suc (suc (suc (suc (suc zero)))))) c at = named_of _ c refl at
table_label (suc (suc (suc (suc (suc (suc (suc n))))))) c at = cc

module _ {N : Type 0} where
  -- The list shows a category of the table, with the first ten values of its key, and all names.
  pub record IsSettled (s : Screen N) : Type 0 where
    pub shown : Category
    pub place : ℕ
    pub listed_lem : get_elem? categories place ≡ some shown
    pub label_lem : s.selected_category ≡ some shown.label
    pub key_lem : s.selected_category_key ≡ some shown.key
    pub data_lem : selected_category_data s ≡ some shown
    pub values_lem :
        s.category_values ≡ some (take 10 (values_of shown.key s.normalized_measurements))
    pub names_lem : s.all_last_measurements ≡ some (names_of s.normalized_measurements)

  update-IsSettled :
      (c : Category) (n : ℕ) (s : Screen N)
      → get_elem? categories n ≡ some c
      → IsSettled (update_category_values c.key c.label s)
  unfolding update_category_values selected_category_data
  update-IsSettled c n s at = record {
    shown = c;
    place = n;
    listed_lem = at;
    label_lem = refl;
    key_lem = refl;
    data_lem = table_label n c at;
    values_lem = refl;
    names_lem = refl;
  }

  recompute-IsSettled :
      (c : Category) (n : ℕ) (s : Screen N)
      → get_elem? categories n ≡ some c
      → s.selected_category ≡ some c.label
      → s.selected_category_key ≡ some c.key
      → IsSettled (recompute_derived s)
  unfolding recompute_derived selected_category_data
  recompute-IsSettled c n s at label key = record {
    shown = c;
    place = n;
    listed_lem = at;
    label_lem = rw key label;
    key_lem = rw key refl;
    data_lem = rw (key, label) (table_label n c at);
    values_lem = rw key refl;
    names_lem = rw key refl;
  }

  init-IsSettled : (s : Screen N) → IsSettled (on_init s)
  unfolding on_init update_with update_category_values
  init-IsSettled s =
      recompute-IsSettled (category "ECO:DIGIT Score" ecodigit_score "score") 0
        (update_category_values ecodigit_score "ECO:DIGIT Score" s) refl refl refl

  handle-IsSettled : (e : Event N) (s : Screen N) → IsSettled s → IsSettled (handle e s)
  unfolding handle on_changes update_with get_index selected_category_data
  handle-IsSettled (measured items) s h =
      let t : Screen N = record s { normalized_measurements = items } in
      elim (Bool-cases (
        not (is_given (recompute_derived t).selected_category)
        || lacks_key (recompute_derived t).selected_category_key)) [
          | inl lacks ↦ rw lacks (
              update-IsSettled (category "ECO:DIGIT Score" ecodigit_score "score") 0
                (recompute_derived t) refl)
          | inr has ↦
              rw has (recompute-IsSettled h.shown h.place t h.listed_lem h.label_lem h.key_lem)
        ]
  handle-IsSettled (chosen n) s h = go (get_elem? categories n) refl
    where
      go : (o : Option Category) → get_elem? categories n ≡ o → IsSettled (update_with o s)
      go none e = h
      go (some c) e = update-IsSettled c n s e
  handle-IsSettled (barred index) s h = record {
    shown = h.shown;
    place = h.place;
    listed_lem = h.listed_lem;
    label_lem = h.label_lem;
    key_lem = h.key_lem;
    data_lem = h.data_lem;
    values_lem = h.values_lem;
    names_lem = h.names_lem;
  }

  handle_all-IsSettled :
      (es : List (Event N)) (s : Screen N) → IsSettled s → IsSettled (handle_all es s)
  unfolding handle_all
  handle_all-IsSettled [] s h = h
  handle_all-IsSettled (e ∷ es) s h = handle_all-IsSettled es (handle e s) (handle-IsSettled e s h)

  -- After any events the screen is settled: a category of the table is chosen, by its label and by
  -- its key, and the bars are its first ten values of the measurements that came last.
  pub screen-IsSettled :
      (items : List (Normalized N)) (es : List (Event N)) → IsSettled (handle_all es (start items))
  unfolding start
  screen-IsSettled items es =
      handle_all-IsSettled es (start items) (init-IsSettled (handle (measured items) new_screen))

  value-at_key :
      (key : Key) (s : Screen N) (i : ℕ)
      → s.selected_category_key ≡ some key
      → selected_category_value (get_index (some i) s)
        ≡ get_elem? (values_of key s.normalized_measurements) i
  unfolding selected_category_value get_index
  value-at_key key s i e = rw e (go s.normalized_measurements i)
    where
      go :
          (items : List (Normalized N)) (j : ℕ)
          → item_value key (get_elem? items j) ≡ get_elem? (values_of key items) j
      go [] j = refl
      go (x ∷ xs) zero = refl
      go (x ∷ xs) (suc j) = go xs j

  -- Below ten, what the screen shows for a chosen bar is the value of that bar, after any events.
  bar-shown :
      (items : List (Normalized N)) (es : List (Event N)) (i : ℕ) (vs : List N)
      → i < 10
      → (handle_all es (start items)).category_values ≡ some vs
      → selected_category_value (get_index (some i) (handle_all es (start items))) ≡ get_elem? vs i
  bar-shown items es i vs below bars =
      let s : Screen N = handle_all es (start items) in
      let h : IsSettled s = screen-IsSettled items es in
      let all : List N = values_of h.shown.key s.normalized_measurements in
      let same : take 10 all ≡ vs =
        let e : some (take 10 all) ≡ some vs = sym h.values_lem ∙ bars in cc in
      value-at_key h.shown.key s i h.key_lem
      ∙ sym (get_elem?-take all 10 i below)
      ∙ ap (λ xs. get_elem? xs i) same

  update_with-normalized :
      (o : Option Category) (s : Screen N)
      → (update_with o s).normalized_measurements ≡ s.normalized_measurements
  unfolding update_with update_category_values
  update_with-normalized none s = refl
  update_with-normalized (some c) s = refl

  recompute-normalized :
      (s : Screen N) → (recompute_derived s).normalized_measurements ≡ s.normalized_measurements
  unfolding recompute_derived
  recompute-normalized s = go s.selected_category_key
    where
      go :
          (key : Option Key)
          → (keyed key (record s {
            all_last_measurements = some (names_of s.normalized_measurements);
          })).normalized_measurements
            ≡ s.normalized_measurements
      go none = refl
      go (some key) = refl

  -- The measurements that the screen has after an event.
  abbrev pub normalized_after : Event N → Screen N → List (Normalized N)
  normalized_after (measured items) s = items
  normalized_after (chosen n) s = s.normalized_measurements
  normalized_after (barred index) s = s.normalized_measurements

  pub handle-normalized :
      (e : Event N) (s : Screen N) → (handle e s).normalized_measurements ≡ normalized_after e s
  unfolding handle on_changes get_index
  handle-normalized (measured items) s =
      let t : Screen N = record s { normalized_measurements = items } in
      let r : Screen N = recompute_derived t in
      elim (Bool-cases (not (is_given r.selected_category) || lacks_key r.selected_category_key)) [
        | inl lacks ↦
            rw lacks
              (update_with-normalized (category_named "ECO:DIGIT Score") r ∙ recompute-normalized t)
        | inr has ↦ rw has (recompute-normalized t)
      ]
  handle-normalized (chosen n) s = update_with-normalized (get_elem? categories n) s
  handle-normalized (barred index) s = refl

  pub start-normalized :
      (items : List (Normalized N)) → (start items).normalized_measurements ≡ items
  unfolding start on_init
  start-normalized items =
      let u : Screen N = handle (measured items) new_screen in
      recompute-normalized (update_with (category_named "ECO:DIGIT Score") u)
      ∙ update_with-normalized (category_named "ECO:DIGIT Score") u
      ∙ handle-normalized (measured items) new_screen
