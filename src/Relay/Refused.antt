-- ===== src/Relay/Refused.antt =====
-- What the cached promises of RelayWorker.ts keep to, however requests, answers and errors interleave.
use mathlib.Core.Path.{subst}
use testbench.Common.{
  ℕ, ◌<◌, zero, suc, ◌≡◌, refl, ◌≢◌, Option, none, some, List, [], ◌∷◌, ◌++◌, length, get_elem?,
  set, arith, ◌∙◌, length-append, length-set, All, is_some, true,
}
use testbench.Relay.Channel.{
  Phase, pending, fulfilled, rejected, ChannelPromise, Relay, initial, get_channel, Step, asked,
  connected, refused, lost, opened, closed, Steps, here, then_step,
}

-- The cached channel was made on the cached connection, which was made.
abbrev pub IsPaired : Option ℕ → Option ℕ → List Phase → List ChannelPromise → Type 0
IsPaired none none ns cs = Unit
IsPaired none (some c) ns cs = ⊥
IsPaired (some n) none ns cs = n < length ns
IsPaired (some n) (some c) ns cs =
    (n < length ns) × (ch : ChannelPromise) × (get_elem? cs c ≡ some ch) × (ch.parent ≡ n)

abbrev pub IsCoherent : Relay → Type 0
IsCoherent s = IsPaired s.connection_promise s.channel_promise s.connections s.channels

get_elem?-last : {A : Type 0} (xs : List A) (a : A) → get_elem? (xs ++ a ∷ []) (length xs) ≡ some a
get_elem?-last [] a = refl
get_elem?-last (x ∷ xs) a = get_elem?-last xs a

ask-pair :
    (n c : Option ℕ) (ns : List Phase) (cs : List ChannelPromise)
    → IsPaired n c ns cs
    → IsCoherent
        (get_channel (record {
          connection_promise = n;
          channel_promise = c;
          connections = ns;
          channels = cs;
        })).1
unfolding get_channel
ask-pair none none ns cs p =
    (omega (arith, length-append ns (pending ∷ [])), _, get_elem?-last cs _, refl)
ask-pair none (some c) ns cs p = absurd p
ask-pair (some n) none ns cs p = (p, _, get_elem?-last cs _, refl)
ask-pair (some n) (some c) ns cs p = p

set-parent :
    (cs : List ChannelPromise) (i c : ℕ) (old found : ChannelPromise) (p : Phase)
    → get_elem? cs i ≡ some old
    → get_elem? cs c ≡ some found
    → (ch : ChannelPromise) × (get_elem? (set cs i (record old { phase = p })) c ≡ some ch)
      × (ch.parent ≡ found.parent)
set-parent [] i c old found p e1 e2 = cc
set-parent (x ∷ xs) zero zero old found p e1 e2 = (record old { phase = p }, refl, cc)
set-parent (x ∷ xs) zero (suc c) old found p e1 e2 = (found, e2, refl)
set-parent (x ∷ xs) (suc i) zero old found p e1 e2 = (found, e2, refl)
set-parent (x ∷ xs) (suc i) (suc c) old found p e1 e2 = set-parent xs i c old found p e1 e2

settle-pair :
    (n c : Option ℕ) (ns : List Phase) (cs : List ChannelPromise) (i : ℕ) (old : ChannelPromise)
    (p : Phase)
    → get_elem? cs i ≡ some old
    → IsPaired n c ns cs
    → IsPaired n c ns (set cs i (record old { phase = p }))
settle-pair none none ns cs i old p e h = h
settle-pair none (some c) ns cs i old p e h = h
settle-pair (some n) none ns cs i old p e h = h
settle-pair (some n) (some c) ns cs i old p e (below, found, at, same) =
    let (ch, at', same') = set-parent cs i c old found p e at in (below, ch, at', same' ∙ same)

connect-pair :
    (n c : Option ℕ) (ns : List Phase) (cs : List ChannelPromise) (i : ℕ) (p : Phase)
    → IsPaired n c ns cs
    → IsPaired n c (set ns i p) cs
connect-pair none none ns cs i p h = h
connect-pair none (some c) ns cs i p h = h
connect-pair (some n) none ns cs i p h = omega (arith, length-set ns i p)
connect-pair (some n) (some c) ns cs i p (below, ch, at, same) =
    (omega (arith, length-set ns i p), ch, at, same)

step-IsCoherent : {s t : Relay} → Step s t → IsCoherent s → IsCoherent t
step-IsCoherent {s} asked h =
    ask-pair s.connection_promise s.channel_promise s.connections s.channels h
step-IsCoherent {s} (connected n e) h =
    connect-pair s.connection_promise s.channel_promise s.connections s.channels n fulfilled h
step-IsCoherent {s} (refused n e) h =
    connect-pair s.connection_promise s.channel_promise s.connections s.channels n rejected h
step-IsCoherent (lost n e) h = tt
step-IsCoherent {s} (opened c ch e f) h =
    settle-pair s.connection_promise s.channel_promise s.connections s.channels c ch fulfilled e h
step-IsCoherent {s} (closed c ch e f) h =
    settle-pair s.connection_promise s.channel_promise s.connections s.channels c ch rejected e h

-- However the steps of requests, answers and errors follow on each other, a cached channel was made
-- on the connection that is cached.
pub Steps-IsCoherent : {t : Relay} → Steps initial t → IsCoherent t
Steps-IsCoherent here = tt
Steps-IsCoherent (then_step path step) = step-IsCoherent step (Steps-IsCoherent path)

-- Every connection that was made has been refused.
abbrev AllRefused : List Phase → Type 0
AllRefused = All (λ p. p ≡ rejected)

-- The channels that were made are still to come or are refused themselves.
abbrev NoneOpen : List ChannelPromise → Type 0
NoneOpen = All (λ ch. ch.phase ≢ fulfilled)

abbrev pub IsStuck : Relay → Type 0
IsStuck s =
    (is_some s.connection_promise ≡ true)
    × (length s.connections ≡ 1)
    × AllRefused s.connections
    × NoneOpen s.channels

All-at :
    {A : Type 0} (P : A → Type 0) (xs : List A) (i : ℕ) (a : A)
    → All P xs
    → get_elem? xs i ≡ some a
    → P a
All-at P [] i a h e = cc
All-at P (x ∷ xs) zero a (h, hs) e = let same : x ≡ a = cc in subst P same h
All-at P (x ∷ xs) (suc i) a (h, hs) e = All-at P xs i a hs e

All-set :
    {A : Type 0} (P : A → Type 0) (xs : List A) (i : ℕ) (a : A)
    → P a
    → All P xs
    → All P (set xs i a)
All-set P [] i a p h = tt
All-set P (x ∷ xs) zero a p (h, hs) = (p, hs)
All-set P (x ∷ xs) (suc i) a p (h, hs) = (h, All-set P xs i a p hs)

All-last :
    {A : Type 0} (P : A → Type 0) (xs : List A) (a : A) → P a → All P xs → All P (xs ++ a ∷ [])
All-last P [] a p h = (p, tt)
All-last P (x ∷ xs) a p (h, hs) = (h, All-last P xs a p hs)

phase_differs : pending ≢ fulfilled
phase_differs e = cc

refused_first : (p : Phase) → p ≡ rejected → p ≢ pending
refused_first p e f = cc

ask-IsStuck :
    (n c : Option ℕ) (ns : List Phase) (cs : List ChannelPromise)
    → is_some n ≡ true
    → length ns ≡ 1
    → AllRefused ns
    → NoneOpen cs
    → IsStuck
        (get_channel (record {
          connection_promise = n;
          channel_promise = c;
          connections = ns;
          channels = cs;
        })).1
unfolding get_channel
ask-IsStuck none c ns cs g l h k = cc
ask-IsStuck (some n) none ns cs g l h k = (refl, l, h, All-last _ cs _ (λ e. cc) k)
ask-IsStuck (some n) (some c) ns cs g l h k = (refl, l, h, k)

step-IsStuck : {s t : Relay} → Step s t → IsStuck s → IsStuck t
step-IsStuck {s} asked (g, l, h, k) =
    ask-IsStuck s.connection_promise s.channel_promise s.connections s.channels g l h k
step-IsStuck {s} (connected n e) (g, l, h, k) =
    let r : pending ≡ rejected = All-at (λ p. p ≡ rejected) s.connections n pending h e in cc
step-IsStuck {s} (refused n e) (g, l, h, k) = (
  g,
  omega (arith, length-set s.connections n rejected),
  All-set _ s.connections n rejected refl h,
  k,
)
step-IsStuck {s} (lost n e) (g, l, h, k) =
    let r : fulfilled ≡ rejected = All-at (λ p. p ≡ rejected) s.connections n fulfilled h e in cc
step-IsStuck {s} (opened c ch e f) (g, l, h, k) =
    let r : fulfilled ≡ rejected =
      All-at (λ p. p ≡ rejected) s.connections ch.parent fulfilled h f in
    cc
step-IsStuck {s} (closed c ch e f) (g, l, h, k) = (g, l, h, All-set _ s.channels c _ (λ e. cc) k)

-- The relay after its first attempt to connect was refused, for the channel of the first job.
abbrev pub refused_once : Relay
refused_once = record {
  connection_promise = some 0;
  channel_promise = some 0;
  connections = rejected ∷ [];
  channels = record { parent = 0; phase = pending } ∷ [];
}

-- After a first connection that was refused no channel is ever open and no second connection is
-- made, whatever follows, and a connection stays cached.
pub refused-IsStuck : {t : Relay} → Steps refused_once t → IsStuck t
refused-IsStuck here = (refl, refl, (refl, tt), ((λ e. cc), tt))
refused-IsStuck (then_step path step) = step-IsStuck step (refused-IsStuck path)
