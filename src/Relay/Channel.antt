-- ===== src/Relay/Channel.antt =====
-- `getChannel` of RelayWorker.ts with its two cached promises, and the handlers of a connection.
use testbench.Common.{ℕ, ◌≡◌, ◌≢◌, Option, none, some, List, [], ◌∷◌, ◌++◌, length, get_elem?, set}

-- How far a promise is.
pub data Phase : Type 0 where
  pending : Phase
  fulfilled : Phase
  rejected : Phase

-- A promise of a channel, made by `then` on the promise of a connection.
pub record ChannelPromise : Type 0 where
  pub parent : ℕ
  pub phase : Phase

-- The variables of the module, which refer to promises by their number, and all the promises made,
-- one of a connection for each call of `connect`.
pub record Relay : Type 0 where
  pub connection_promise : Option ℕ
  pub channel_promise : Option ℕ
  pub connections : List Phase
  pub channels : List ChannelPromise

abbrev pub initial : Relay
initial = record {
  connection_promise = none;
  channel_promise = none;
  connections = [];
  channels = [];
}

-- `if (!connectionPromise) connectionPromise = connect(...)`
abbrev connection_of : Option ℕ → Relay → ℕ × Relay
connection_of (some n) s = (n, s)
connection_of none s = (
  length s.connections,
  record s {
    connection_promise = some (length s.connections);
    connections = s.connections ++ pending ∷ [];
  },
)

-- `if (!channelPromise) channelPromise = connectionPromise.then(...)`
abbrev channel_of : Option ℕ → ℕ → Relay → ℕ × Relay
channel_of (some c) n s = (c, s)
channel_of none n s = (
  length s.channels,
  record s {
    channel_promise = some (length s.channels);
    channels = s.channels ++ record { parent = n; phase = pending } ∷ [];
  },
)

-- The promise that is returned, by its number.
unfoldable pub get_channel : Relay → ℕ × Relay
get_channel s =
    let (n, s1) = connection_of s.connection_promise s in channel_of s1.channel_promise n s1

-- The handlers of 'error' and 'close'.
abbrev pub forget : Relay → Relay
forget s = record s { connection_promise = none; channel_promise = none }

abbrev settle_connection : ℕ → Phase → Relay → Relay
settle_connection n p s = record s { connections = set s.connections n p }

abbrev settle_channel : ℕ → ChannelPromise → Phase → Relay → Relay
settle_channel c ch p s = record s { channels = set s.channels c (record ch { phase = p }) }

-- What can happen next: a job asks for the channel, a promise settles, or a connection that was made
-- reports an error or its end.
pub data Step (s : Relay) : Relay → Type 0 where
  asked : Step s (get_channel s).1
  connected :
      (n : ℕ) → get_elem? s.connections n ≡ some pending → Step s (settle_connection n fulfilled s)
  refused :
      (n : ℕ) → get_elem? s.connections n ≡ some pending → Step s (settle_connection n rejected s)
  lost : (n : ℕ) → get_elem? s.connections n ≡ some fulfilled → Step s (forget s)
  opened :
      (c : ℕ) (ch : ChannelPromise)
      → get_elem? s.channels c ≡ some ch
      → get_elem? s.connections ch.parent ≡ some fulfilled
      → Step s (settle_channel c ch fulfilled s)
  closed :
      (c : ℕ) (ch : ChannelPromise)
      → get_elem? s.channels c ≡ some ch
      → get_elem? s.connections ch.parent ≢ some pending
      → Step s (settle_channel c ch rejected s)

pub data Steps (s : Relay) : Relay → Type 0 where
  here : Steps s s
  then_step : {t u : Relay} → Steps s t → Step t u → Steps s u
