-- ===== src/Cobb/Errors.antt =====
-- http-error.interceptor.ts and duration.pipe.ts; `show` is a number's text.
use testbench.Common.{
  ℕ, ◌+◌, ◌*◌, ◌/◌, ◌%◌, ◌<◌, ◌≡◌, refl, ◌≢◌, false, ◌||◌, ◌&&◌, Option, none, some, List, [], ◌∷◌,
  String, ◌+++◌, ◌==◌, ltb, if◌then◌else◌, arith, Bool-cases, inl, inr,
}

-- What the interceptor does before it throws the error again.
pub data Reaction : Type 0 where
  notice : String → Reaction
  to_login : Reaction

module _ (show : ℕ → String) where
  unfoldable pub http_error : ℕ → List Reaction
  http_error status =
      if status == 400
      then notice ("Invalid request. Error Code: " +++ show status) ∷ []
      else if status == 401
      then to_login ∷ []
      else if status == 403
      then notice ("Access denied.  Error Code: " +++ show status) ∷ []
      else if status == 404
      then notice ("Resource not found.  Error Code: " +++ show status) ∷ []
      else if status == 409
      then notice (
          "This action can’t be completed because the data already exists. Error Code: "
          +++ show status)
        ∷ []
      else if status == 500
      then notice ("Internal server error. Please try again later.  Error Code: " +++ show status)
        ∷ []
      else notice ("Unexpected error occurred. Error Code" +++ show status) ∷ []

  -- The parts of `DurationPipe.transform`, in their order.
  unfoldable pub transform : Option ℕ → String
  transform none = ""
  transform (some seconds) =
      let hrs = seconds / 3600 in
      let mins = seconds % 3600 / 60 in
      let secs = seconds % 60 in
      (if ltb 0 hrs then show hrs +++ "h " else "")
      +++ (if ltb 0 mins then show mins +++ "min " else "")
      +++ (if ltb 0 secs || hrs == 0 && mins == 0 then show secs +++ "s " else "")

  -- A refused login leads to the login page without a notice, and any other error is told by one
  -- notice that ends in the status.
  pub http_error-one :
      (status : ℕ)
      → (status ≡ 401 → http_error status ≡ to_login ∷ [])
        × (status ≢ 401
            → (text : String) × (http_error status ≡ notice (text +++ show status) ∷ []))
  unfolding http_error
  http_error-one status = (λ e. rw e refl, λ other. told status (ground (arith, other)))
    where
      told :
          (status : ℕ)
          → (status == 401) ≡ false
          → (text : String) × (http_error status ≡ notice (text +++ show status) ∷ [])
      told status miss = elim (Bool-cases (status == 400)) [
        | inl hit ↦ rw (hit) (_, refl)
        | inr m0 ↦ elim (Bool-cases (status == 403)) [
          | inl hit ↦ rw (m0, miss, hit) (_, refl)
          | inr m1 ↦ elim (Bool-cases (status == 404)) [
            | inl hit ↦ rw (m0, miss, m1, hit) (_, refl)
            | inr m2 ↦ elim (Bool-cases (status == 409)) [
              | inl hit ↦ rw (m0, miss, m1, m2, hit) (_, refl)
              | inr m3 ↦ elim (Bool-cases (status == 500)) [
                | inl hit ↦ rw (m0, miss, m1, m2, m3, hit) (_, refl)
                | inr m4 ↦ rw (m0, miss, m1, m2, m3, m4) (_, refl)
              ]
            ]
          ]
        ]
      ]

  -- A duration of h hours, m minutes and s seconds is shown by the parts that are not 0, and by
  -- "0s " where all are.
  transform-parts :
      (h m s : ℕ)
      → m < 60
      → s < 60
      → transform (some (h * 3600 + m * 60 + s))
        ≡ (if ltb 0 h then show h +++ "h " else "")
          +++ (if ltb 0 m then show m +++ "min " else "")
          +++ (if ltb 0 s || h == 0 && m == 0 then show s +++ "s " else "")
  unfolding transform
  transform-parts h m s bm bs =
      let hours : (h * 3600 + m * 60 + s) / 3600 ≡ h = omega (arith, bm, bs) in
      let minutes : (h * 3600 + m * 60 + s) % 3600 / 60 ≡ m = omega (arith, bm, bs) in
      let seconds : (h * 3600 + m * 60 + s) % 60 ≡ s = omega (arith, bm, bs) in
      rw (hours, minutes, seconds) refl
