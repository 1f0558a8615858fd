-- ===== src/Broker/Progress.antt =====
-- How the loop of `Start` comes back to its `select`, and when it takes what is published.
use ducks.Prelude.{◌≡◌, ◌≢◌, refl}
use ducks.Broker.{
  Broker, Loop, selecting, sending, returned, Distinct, to_send, Reach, Steps, here, next,
}
use ducks.Broker.Bounds.{Reach-IsBounded}
use ducks.Broker.Delivery.{sends-Delivers}

module _ {M : Type 0} where
  -- The loop at its `select`, with the channels as they were.
  pub record IsBack (b b' : Broker M) : Type 0 where
    pub loop : b'.loop ≡ selecting
    pub publish_ch : b'.publish_ch ≡ b.publish_ch
    pub sub_ch : b'.sub_ch ≡ b.sub_ch
    pub unsub_ch : b'.unsub_ch ≡ b.unsub_ch
    pub next_ch : b'.next ≡ b.next

  -- A loop that has not returned comes back to its `select`, since no send waits.
  returns_to_select :
      (b : Broker M) (l : Loop M)
      → b.loop ≡ l
      → l ≢ returned
      → Distinct (to_send l)
      → (b' : Broker M) × Steps b b' × IsBack b b'
  returns_to_select b selecting e on d = (
    b,
    here,
    record { loop = e; publish_ch = refl; sub_ch = refl; unsub_ch = refl; next_ch = refl },
  )
  returns_to_select b (sending msg chs) e on d =
      let (b', steps, s) = sends-Delivers msg chs b e d in
      (
        b',
        steps,
        record {
          loop = s.loop;
          publish_ch = s.publish_ch;
          sub_ch = s.sub_ch;
          unsub_ch = s.unsub_ch;
          next_ch = s.next_ch;
        },
      )
  returns_to_select b returned e on d = absurd (on refl)

  pub Reach-returns_to_select :
      {b : Broker M} → Reach b → b.loop ≢ returned → (b' : Broker M) × Steps b b' × IsBack b b'
  Reach-returns_to_select {b} r on = returns_to_select b b.loop refl on (Reach-IsBounded r).order
