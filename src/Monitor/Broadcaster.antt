-- ===== src/Monitor/Broadcaster.antt =====
-- cmdman/monitor/broadcaster.go. Every method holds the mutex, so what runs at once is a sequence of
-- whole operations. The channels that were ever made are a function of their ids, which `nextID` never
-- gives twice; a channel outlives its entry in `subscribers`, since the receiver holds it. An
-- operation that Go would panic in, by a send on a closed channel or by closing one again, is `none`.
-- The order in which the map of subscribers is ranged over is that of a list.
pub mod Invariant
pub mod Steps
pub mod Traffic
pub mod Delivery
pub mod Tests
use cmdman.Prelude.{
  ℕ, suc, Bool, true, false, not, ◌||◌, List, [], ◌∷◌, ◌++◌, Option, some, none, if◌then◌else◌,
  ◌==◌, ltb, length,
}

pub record Channel {ℓ} (A : Type ℓ) : Type ℓ where
  pub queue : List A
  pub is_closed : Bool

pub record Broadcaster {ℓ} (A : Type ℓ) : Type ℓ where
  pub channels : ℕ → Channel A
  pub subscribers : List ℕ
  pub next_id : ℕ
  pub closed : Bool

abbrev pub subscribed : List ℕ → ℕ → Bool
subscribed [] i = false
subscribed (j ∷ js) i = j == i || subscribed js i

abbrev pub remove : List ℕ → ℕ → List ℕ
remove [] i = []
remove (j ∷ js) i = let rest = remove js i in if j == i then rest else j ∷ rest

-- The buffer of `make(chan T, 64)`
abbrev pub capacity : ℕ
capacity = 64

module _ {ℓ} {A : Type ℓ} where
  abbrev pub set_channel : (ℕ → Channel A) → ℕ → Channel A → ℕ → Channel A
  set_channel channels i c j = if i == j then c else channels j

  unfoldable pub new_broadcaster : Broadcaster A
  new_broadcaster = record {
    channels = λ _. record { queue = []; is_closed = false };
    subscribers = [];
    next_id = 0;
    closed = false;
  }

  -- The id names both the channel and the function that unsubscribes; that function does nothing for
  -- a channel that was made after `Close`, whose id is no subscriber's.
  unfoldable pub subscribe : Broadcaster A → Broadcaster A
  subscribe b =
      if b.closed
      then record b {
        channels = set_channel b.channels b.next_id (record { queue = []; is_closed = true });
        next_id = suc b.next_id;
      }
      else record b {
        channels = set_channel b.channels b.next_id (record { queue = []; is_closed = false });
        subscribers = b.next_id ∷ b.subscribers;
        next_id = suc b.next_id;
      }

  -- `close(ch)`
  abbrev pub close_channel : (ℕ → Channel A) → ℕ → Option (ℕ → Channel A)
  close_channel channels i =
      if (channels i).is_closed
      then none
      else some (set_channel channels i (record { queue = (channels i).queue; is_closed = true }))

  unfoldable pub unsubscribe : ℕ → Broadcaster A → Option (Broadcaster A)
  unsubscribe i b =
      if subscribed b.subscribers i
      then elim (close_channel b.channels i) [
        | none ↦ none
        | some channels ↦
            some (record b { channels = channels; subscribers = remove b.subscribers i })
      ]
      else some b

  -- What a channel that is not closed makes of a send that does not block: a full one drops it.
  abbrev pub offer : A → Channel A → Channel A
  offer value c =
      if ltb (length c.queue) capacity
      then record { queue = c.queue ++ (value ∷ []); is_closed = c.is_closed }
      else c

  -- The loop over the subscribers.
  unfoldable pub send_all : A → List ℕ → (ℕ → Channel A) → Option (ℕ → Channel A)
  send_all value [] channels = some channels
  send_all value (i ∷ is) channels =
      if (channels i).is_closed
      then none
      else send_all value is (set_channel channels i (offer value (channels i)))

  unfoldable pub send : A → Broadcaster A → Option (Broadcaster A)
  send value b = if b.closed then some b else elim (send_all value b.subscribers b.channels) [
    | none ↦ none
    | some channels ↦ some (record b { channels = channels })
  ]

  unfoldable pub close_all : List ℕ → (ℕ → Channel A) → Option (ℕ → Channel A)
  close_all [] channels = some channels
  close_all (i ∷ is) channels = elim (close_channel channels i) [
    | none ↦ none
    | some channels' ↦ close_all is channels'
  ]

  -- `Close`, which leaves no subscriber.
  unfoldable pub close : Broadcaster A → Option (Broadcaster A)
  close b = if b.closed then some b else elim (close_all b.subscribers b.channels) [
    | none ↦ none
    | some channels ↦ some (record b { channels = channels; subscribers = []; closed = true })
  ]

  -- A receive on the channel: an empty one answers nothing, and is at its end when it is closed.
  abbrev pub tail_of : List A → List A
  tail_of [] = []
  tail_of (a ∷ rest) = rest

  unfoldable pub receive : ℕ → Broadcaster A → Broadcaster A
  receive i b = record b {
    channels =
        set_channel b.channels i
          (record { queue = tail_of (b.channels i).queue; is_closed = (b.channels i).is_closed });
  }

pub data Event {ℓ} (A : Type ℓ) : Type ℓ where
  subscribes : Event A
  unsubscribes : ℕ → Event A
  sends : A → Event A
  closes : Event A
  receives : ℕ → Event A

module _ {ℓ} {A : Type ℓ} where
  unfoldable pub step : Event A → Broadcaster A → Option (Broadcaster A)
  step subscribes b = some (subscribe b)
  step (unsubscribes i) b = unsubscribe i b
  step (sends value) b = send value b
  step closes b = close b
  step (receives i) b = some (receive i b)

  unfoldable pub run : List (Event A) → Broadcaster A → Option (Broadcaster A)
  run [] b = some b
  run (e ∷ es) b = elim (step e b) [ none ↦ none | some b' ↦ run es b' ]
