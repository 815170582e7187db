-- ===== src/Cobb/Stream.antt =====
-- `listenToMeasurementUpdates` of measurement.service.ts: one stream of the server's events, that is
-- connected again five seconds after an error.
use testbench.Common.{
  ℕ, suc, ◌≡◌, refl, Bool, true, false, not, List, [], ◌∷◌, ap, ◌∙◌, ◌⊎◌, inl, inr,
}

-- The state of the subscription: whether the event source is open, how often it was made, whether the
-- timer runs, whether the subscriber has left, and what it was told.
pub record Subscription (U : Type 0) : Type 0 where
  pub is_open : Bool
  pub made : ℕ
  pub retry_timeout : Bool
  pub left : Bool
  pub seen : List U

module _ {U : Type 0} where
  -- `connect`
  unfoldable pub connect : Subscription U → Subscription U
  connect s = record s { is_open = true; made = suc s.made }

  -- `new Observable`: nothing runs before the first `connect`.
  unfoldable pub subscribe : Subscription U
  subscribe =
      connect (record { is_open = false; made = 0; retry_timeout = false; left = false; seen = [] })

  -- `eventSource.onerror`
  unfoldable pub on_error : Subscription U → Subscription U
  on_error s = record s { is_open = false; retry_timeout = true }

  unfoldable pub on_timeout : Subscription U → Subscription U
  on_timeout s = connect (record s { retry_timeout = false })

  unfoldable pub on_message : U → Subscription U → Subscription U
  on_message u s = record s { seen = u ∷ s.seen }

  -- The function that the observable returns.
  unfoldable pub unsubscribe : Subscription U → Subscription U
  unsubscribe s = record s { is_open = false; retry_timeout = false; left = true }

  -- An open source sends messages or reports errors, a timer that runs ends, a subscriber leaves.
  pub data Step (s : Subscription U) : Subscription U → Type 0 where
    message : (u : U) → s.is_open ≡ true → Step s (on_message u s)
    error : s.is_open ≡ true → Step s (on_error s)
    timeout : s.retry_timeout ≡ true → Step s (on_timeout s)
    leave : s.left ≡ false → Step s (unsubscribe s)

  pub data Steps (s : Subscription U) : Subscription U → Type 0 where
    here : Steps s s
    then_step : {t u : Subscription U} → Steps s t → Step t u → Steps s u

  -- Before the subscriber leaves either the source is open or the timer runs, and never both; after it
  -- neither.
  abbrev pub IsLive : Subscription U → Type 0
  IsLive s =
      ((s.left ≡ false) × (s.retry_timeout ≡ not s.is_open))
      ⊎ ((s.left ≡ true) × (s.is_open ≡ false) × (s.retry_timeout ≡ false))

  step-IsLive : {s t : Subscription U} → Step s t → IsLive s → IsLive t
  unfolding on_message on_error on_timeout connect unsubscribe
  step-IsLive (message u e) h = h
  step-IsLive (error e) (inl (l, t)) = inl (l, refl)
  step-IsLive (error e) (inr (l, o, t)) = cc
  step-IsLive (timeout e) (inl (l, t)) = inl (l, refl)
  step-IsLive (timeout e) (inr (l, o, t)) = cc
  step-IsLive (leave e) h = inr (refl, refl, refl)

  -- Whatever messages, errors and timeouts come, an unfinished subscription has either one open source
  -- or a running timer that opens one, never both and never none; one that was left has neither.
  pub Steps-IsLive : {s : Subscription U} → Steps subscribe s → IsLive s
  unfolding subscribe connect
  Steps-IsLive here = inl (refl, refl)
  Steps-IsLive (then_step path step) = step-IsLive step (Steps-IsLive path)

  gone :
      {s t : Subscription U}
      → Step s t
      → s.is_open ≡ false
      → s.retry_timeout ≡ false
      → s.left ≡ true
      → ⊥
  gone (message u e) o t l = cc
  gone (error e) o t l = cc
  gone (timeout e) o t l = cc
  gone (leave e) o t l = cc

  stays :
      {s t : Subscription U}
      → s.is_open ≡ false
      → s.retry_timeout ≡ false
      → s.left ≡ true
      → Steps s t
      → t ≡ s
  stays o e l here = refl
  stays o e l (then_step path step) =
      let same = stays o e l path in
      absurd (
        gone step (ap (λ x. x.is_open) same ∙ o) (ap (λ x. x.retry_timeout) same ∙ e)
          (ap (λ x. x.left) same ∙ l))

  -- After the subscriber has left nothing happens any more, whatever follows: no message is told and
  -- no source is made.
  left-is_final : {s t : Subscription U} → Steps subscribe s → s.left ≡ true → Steps s t → t ≡ s
  left-is_final path l more = elim (Steps-IsLive path) [
    | inl (h, e) ↦ cc
    | inr (h, o, e) ↦ stays o e l more
  ]
