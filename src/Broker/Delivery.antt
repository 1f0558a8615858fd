-- ===== src/Broker/Delivery.antt =====
-- The loop over the subscribers, when nobody else acts between its sends.
use ducks.Prelude.{ℕ, ◌≡◌, refl, ◌&&◌, List, [], ◌∷◌, ◌++◌, length, ltb, if◌then◌else◌, arith}
use ducks.Broker.{
  Broker, selecting, sending, Distinct, IsOrder, member, offer, on_publish, on_send, on_sent, Step,
  takes_publish, sends, ends_sends, Steps, here, next, msg_capacity,
}

module _ {M : Type 0} where
  first : {b b' b'' : Broker M} → Step b b' → Steps b' b'' → Steps b b''
  first st here = next here st
  first st (next r st') = next (first st r) st'

  pub Steps-trans : {b b' b'' : Broker M} → Steps b b' → Steps b' b'' → Steps b b''
  Steps-trans r here = r
  Steps-trans r (next r' st) = next (Steps-trans r r') st

  -- The message went once to the end of every one of the channels that has room, and to no other; the
  -- loop is back at its `select`, and nothing else has changed.
  pub record Delivers (msg : M) (chs : List ℕ) (b b' : Broker M) : Type 0 where
    pub loop : b'.loop ≡ selecting
    pub buffers :
        (ch : ℕ)
        → b'.buffers ch ≡ (
            if member ch chs && ltb (length (b.buffers ch)) msg_capacity
            then b.buffers ch ++ msg ∷ []
            else b.buffers ch)
    pub publish_ch : b'.publish_ch ≡ b.publish_ch
    pub sub_ch : b'.sub_ch ≡ b.sub_ch
    pub unsub_ch : b'.unsub_ch ≡ b.unsub_ch
    pub subs : b'.subs ≡ b.subs
    pub next_ch : b'.next ≡ b.next
    pub waiting : b'.waiting ≡ b.waiting

  pub sends-Delivers :
      (msg : M) (chs : List ℕ) (b : Broker M)
      → b.loop ≡ sending msg chs
      → Distinct chs
      → (b' : Broker M) × Steps b b' × Delivers msg chs b b'
  unfolding on_send on_sent member offer
  sends-Delivers msg [] b e d = (
    on_sent b,
    next here (ends_sends msg e),
    record {
      loop = refl;
      buffers = λ ch. refl;
      publish_ch = refl;
      sub_ch = refl;
      unsub_ch = refl;
      subs = refl;
      next_ch = refl;
      waiting = refl;
    },
  )
  sends-Delivers msg (ch ∷ chs) b e d =
      let (b', steps, rest) = sends-Delivers msg chs (on_send msg ch chs b) refl d.1 in
      (
        b',
        first (sends msg ch chs e) steps,
        record {
          loop = rest.loop;
          buffers = λ j. ground (arith, rest.buffers j);
          publish_ch = rest.publish_ch;
          sub_ch = rest.sub_ch;
          unsub_ch = rest.unsub_ch;
          subs = rest.subs;
          next_ch = rest.next_ch;
          waiting = rest.waiting;
        },
      )

  -- From every state at the `select` with a message in the channel of `Publish`, and for every order
  -- of the subscribers, some steps lead back to the `select`: then the message is out of the channel,
  -- is once at the end of every subscriber's channel that had room, and in no other channel, and
  -- nothing else has changed.
  pub publish-Delivers :
      {b : Broker M} (msg : M) (rest : List M) (order : List ℕ)
      → b.loop ≡ selecting
      → b.publish_ch ≡ msg ∷ rest
      → IsOrder order b.subs
      → (b' : Broker M) × Steps b b' × Delivers msg b.subs (record b { publish_ch = rest }) b'
  unfolding on_publish
  publish-Delivers {b} msg rest order idle e map =
      let (b', steps, d) =
        sends-Delivers msg order (on_publish msg rest order b) refl map.distinct in
      (
        b',
        first (takes_publish msg rest order idle e map) steps,
        record {
          loop = d.loop;
          buffers = λ ch. ground (arith, d.buffers ch, map.same_members ch);
          publish_ch = d.publish_ch;
          sub_ch = d.sub_ch;
          unsub_ch = d.unsub_ch;
          subs = d.subs;
          next_ch = d.next_ch;
          waiting = d.waiting;
        },
      )
