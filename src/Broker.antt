-- ===== src/Broker.antt =====
-- The broker of `client/broker.go`: `Start`, `Publish` and `Subscribe`, as steps of a state that
-- holds the channels. A channel is a queue with the capacity that `make` gives it; a send waits
-- for room, and a receive for an element. A subscriber's channel is named by a number. The loop of
-- `Start` sends a message to one subscriber at a time, and others may act between two sends.
pub mod Subscribers
pub mod Delivery
pub mod Bounds
pub mod Names
pub mod Order
pub mod Progress
pub mod Ends
pub mod Informers
use ducks.Prelude.{
  ℕ, ◌+◌, ◌<◌, ◌≡◌, Bool, true, false, ◌&&◌, ◌||◌, List, [], ◌∷◌, ◌++◌, length, ltb, eqb,
  if◌then◌else◌,
}

-- Where the loop of `Start` is: at its `select`, in the loop over the subscribers with those that are
-- left, or returned.
pub data Loop (M : Type 0) : Type 0 where
  selecting : Loop M
  sending : M → List ℕ → Loop M
  returned : Loop M

pub record Broker (M : Type 0) : Type 0 where
  pub publish_ch : List M
  pub sub_ch : List ℕ
  pub unsub_ch : List ℕ
  -- The local variable `subs` of `Start`.
  pub subs : List ℕ
  -- What the subscribers' channels hold.
  pub buffers : ℕ → List M
  -- The name of the next channel that `Subscribe` makes.
  pub next : ℕ
  -- The channels whose goroutine still waits for the end of its context.
  pub waiting : List ℕ
  pub loop : Loop M

abbrev pub publish_capacity : ℕ
publish_capacity = 1

abbrev pub sub_capacity : ℕ
sub_capacity = 1

abbrev pub unsub_capacity : ℕ
unsub_capacity = 1

abbrev pub msg_capacity : ℕ
msg_capacity = 5

-- Go's map of channels to `struct{}` is a set.
unfoldable pub member : ℕ → List ℕ → Bool
member ch [] = false
member ch (x ∷ xs) = eqb x ch || member ch xs

unfoldable pub add_sub : ℕ → List ℕ → List ℕ
add_sub ch subs = if member ch subs then subs else ch ∷ subs

unfoldable pub remove_sub : ℕ → List ℕ → List ℕ
remove_sub ch [] = []
remove_sub ch (x ∷ xs) = let rest = remove_sub ch xs in if eqb x ch then rest else x ∷ rest

-- The subscribers to which the loop still has to send.
abbrev pub to_send : {M : Type 0} → Loop M → List ℕ
to_send selecting = []
to_send (sending msg chs) = chs
to_send returned = []

-- The subscribers are a set: no channel is there twice.
abbrev pub Distinct : List ℕ → Type 0
Distinct [] = Unit {0}
Distinct (x ∷ xs) = (member x xs ≡ false) × Distinct xs

-- An order in which `range` may go through a map.
pub record IsOrder (order subs : List ℕ) : Type 0 where
  pub distinct : Distinct order
  pub same_members : (ch : ℕ) → member ch order ≡ member ch subs

module _ {M : Type 0} where
  -- The non-blocking send of a message to a subscriber's channel.
  unfoldable pub offer : ℕ → M → (ℕ → List M) → ℕ → List M
  offer ch msg buffers j =
      if eqb ch j && ltb (length (buffers j)) msg_capacity then buffers j ++ msg ∷ [] else buffers j

  -- The cases of the `select` of `Start`, given what the channel yields.
  unfoldable pub on_sub : ℕ → List ℕ → Broker M → Broker M
  unfolding add_sub
  on_sub ch rest b = record b { sub_ch = rest; subs = add_sub ch b.subs }

  unfoldable pub on_unsub : ℕ → List ℕ → Broker M → Broker M
  on_unsub ch rest b = record b { unsub_ch = rest; subs = remove_sub ch b.subs }

  unfoldable pub on_publish : M → List M → List ℕ → Broker M → Broker M
  on_publish msg rest order b = record b { publish_ch = rest; loop = sending msg order }

  -- The loop over the subscribers: one send, and the end.
  unfoldable pub on_send : M → ℕ → List ℕ → Broker M → Broker M
  unfolding offer
  on_send msg ch chs b = record b { loop = sending msg chs; buffers = offer ch msg b.buffers }

  unfoldable pub on_sent : Broker M → Broker M
  on_sent b = record b { loop = selecting }

  unfoldable pub on_done : Broker M → Broker M
  on_done b = record b { loop = returned }

  -- The send of `Publish`.
  unfoldable pub publish : M → Broker M → Broker M
  publish msg b = record b { publish_ch = b.publish_ch ++ msg ∷ [] }

  -- `Subscribe` makes a channel, sends it, and starts the goroutine that waits for its context.
  unfoldable pub subscribe : Broker M → Broker M
  subscribe b = record b {
    sub_ch = b.sub_ch ++ b.next ∷ [];
    next = b.next + 1;
    waiting = b.next ∷ b.waiting;
  }

  -- The send of that goroutine once its context is done.
  unfoldable pub unsubscribe : ℕ → Broker M → Broker M
  unsubscribe ch b = record b {
    unsub_ch = b.unsub_ch ++ ch ∷ [];
    waiting = remove_sub ch b.waiting;
  }

  -- A subscriber receives what its channel holds first.
  unfoldable pub receive : ℕ → List M → Broker M → Broker M
  receive ch rest b = record b { buffers = λ j. if eqb ch j then rest else b.buffers j }

  -- One step of the broker, a publisher, a subscriber or a subscription's goroutine. The loop of
  -- `Start` may take any case of its `select` that is ready.
  pub data Step : Broker M → Broker M → Type 0 where
    publishes :
        {b : Broker M} (msg : M) → length b.publish_ch < publish_capacity → Step b (publish msg b)
    subscribes : {b : Broker M} → length b.sub_ch < sub_capacity → Step b (subscribe b)
    unsubscribes :
        {b : Broker M} (ch : ℕ)
        → member ch b.waiting ≡ true
        → length b.unsub_ch < unsub_capacity
        → Step b (unsubscribe ch b)
    receives :
        {b : Broker M} (ch : ℕ) (msg : M) (rest : List M)
        → b.buffers ch ≡ msg ∷ rest
        → Step b (receive ch rest b)
    takes_sub :
        {b : Broker M} (ch : ℕ) (rest : List ℕ)
        → b.loop ≡ selecting
        → b.sub_ch ≡ ch ∷ rest
        → Step b (on_sub ch rest b)
    takes_unsub :
        {b : Broker M} (ch : ℕ) (rest : List ℕ)
        → b.loop ≡ selecting
        → b.unsub_ch ≡ ch ∷ rest
        → Step b (on_unsub ch rest b)
    takes_publish :
        {b : Broker M} (msg : M) (rest : List M) (order : List ℕ)
        → b.loop ≡ selecting
        → b.publish_ch ≡ msg ∷ rest
        → IsOrder order b.subs
        → Step b (on_publish msg rest order b)
    sends :
        {b : Broker M} (msg : M) (ch : ℕ) (chs : List ℕ)
        → b.loop ≡ sending msg (ch ∷ chs)
        → Step b (on_send msg ch chs b)
    ends_sends : {b : Broker M} (msg : M) → b.loop ≡ sending msg [] → Step b (on_sent b)
    takes_done : {b : Broker M} → b.loop ≡ selecting → Step b (on_done b)

  -- The broker that `NewBroker` makes and starts.
  abbrev pub new_broker : Broker M
  new_broker = record {
    publish_ch = [];
    sub_ch = [];
    unsub_ch = [];
    subs = [];
    buffers = λ ch. [];
    next = 0;
    waiting = [];
    loop = selecting;
  }

  pub data Reach : Broker M → Type 0 where
    start : Reach new_broker
    later : {b b' : Broker M} → Reach b → Step b b' → Reach b'

  -- Any number of steps.
  pub data Steps (b : Broker M) : Broker M → Type 0 where
    here : Steps b b
    next : {b' b'' : Broker M} → Steps b b' → Step b' b'' → Steps b b''
