-- ===== src/Broker/Bounds.antt =====
-- How much the broker's channels hold, and the names in the list of its subscribers.
use ducks.Prelude.{ℕ, ◌≤◌, List, [], ◌∷◌, length, length-append, arith}
use ducks.Broker.{
  Broker, Distinct, to_send, offer, on_sub, on_unsub, on_publish, on_send, on_sent, on_done,
  publish, subscribe, unsubscribe, receive, Step, publishes, subscribes, unsubscribes, receives,
  takes_sub, takes_unsub, takes_publish, sends, ends_sends, takes_done, Reach, start, later,
  publish_capacity, sub_capacity, unsub_capacity, msg_capacity,
}
use ducks.Broker.Subscribers.{add_sub-Distinct, remove_sub-Distinct}

module _ {M : Type 0} where
  pub record IsBounded (b : Broker M) : Type 0 where
    pub publish_ch : length b.publish_ch ≤ publish_capacity
    pub sub_ch : length b.sub_ch ≤ sub_capacity
    pub unsub_ch : length b.unsub_ch ≤ unsub_capacity
    pub buffers : (ch : ℕ) → length (b.buffers ch) ≤ msg_capacity
    pub distinct : Distinct b.subs
    pub order : Distinct (to_send b.loop)

  length-offer :
      (ch : ℕ) (msg : M) (buffers : ℕ → List M) (j : ℕ)
      → length (buffers j) ≤ msg_capacity
      → length (offer ch msg buffers j) ≤ msg_capacity
  unfolding offer
  length-offer ch msg buffers j h = ground (arith, length-append (buffers j) (msg ∷ []))

  Step-IsBounded : {b b' : Broker M} → Step b b' → IsBounded b → IsBounded b'
  unfolding publish subscribe unsubscribe receive on_sub on_unsub on_publish on_send on_sent on_done
  Step-IsBounded (publishes {b} msg room) h = record {
    publish_ch = omega (arith, length-append b.publish_ch (msg ∷ []));
    sub_ch = h.sub_ch;
    unsub_ch = h.unsub_ch;
    buffers = h.buffers;
    distinct = h.distinct;
    order = h.order;
  }
  Step-IsBounded (subscribes {b} room) h = record {
    publish_ch = h.publish_ch;
    sub_ch = omega (arith, length-append b.sub_ch (b.next ∷ []));
    unsub_ch = h.unsub_ch;
    buffers = h.buffers;
    distinct = h.distinct;
    order = h.order;
  }
  Step-IsBounded (unsubscribes {b} ch waits room) h = record {
    publish_ch = h.publish_ch;
    sub_ch = h.sub_ch;
    unsub_ch = omega (arith, length-append b.unsub_ch (ch ∷ []));
    buffers = h.buffers;
    distinct = h.distinct;
    order = h.order;
  }
  Step-IsBounded (receives {b} ch msg rest e) h = record {
    publish_ch = h.publish_ch;
    sub_ch = h.sub_ch;
    unsub_ch = h.unsub_ch;
    buffers = λ j. ground (arith, h.buffers ch, h.buffers j);
    distinct = h.distinct;
    order = h.order;
  }
  Step-IsBounded (takes_sub {b} ch rest idle e) h = record {
    publish_ch = h.publish_ch;
    sub_ch = ground (arith, h.sub_ch);
    unsub_ch = h.unsub_ch;
    buffers = h.buffers;
    distinct = add_sub-Distinct ch b.subs h.distinct;
    order = h.order;
  }
  Step-IsBounded (takes_unsub {b} ch rest idle e) h = record {
    publish_ch = h.publish_ch;
    sub_ch = h.sub_ch;
    unsub_ch = ground (arith, h.unsub_ch);
    buffers = h.buffers;
    distinct = remove_sub-Distinct ch b.subs h.distinct;
    order = h.order;
  }
  Step-IsBounded (takes_publish {b} msg rest order idle e map) h = record {
    publish_ch = ground (arith, h.publish_ch);
    sub_ch = h.sub_ch;
    unsub_ch = h.unsub_ch;
    buffers = h.buffers;
    distinct = h.distinct;
    order = map.distinct;
  }
  Step-IsBounded (sends {b} msg ch chs e) h = record {
    publish_ch = h.publish_ch;
    sub_ch = h.sub_ch;
    unsub_ch = h.unsub_ch;
    buffers = λ j. length-offer ch msg b.buffers j (h.buffers j);
    distinct = h.distinct;
    order = (rw e at h.order).1;
  }
  Step-IsBounded (ends_sends msg e) h = record {
    publish_ch = h.publish_ch;
    sub_ch = h.sub_ch;
    unsub_ch = h.unsub_ch;
    buffers = h.buffers;
    distinct = h.distinct;
    order = tt;
  }
  Step-IsBounded (takes_done idle) h = record {
    publish_ch = h.publish_ch;
    sub_ch = h.sub_ch;
    unsub_ch = h.unsub_ch;
    buffers = h.buffers;
    distinct = h.distinct;
    order = tt;
  }

  -- In every reachable state each channel of the broker holds at most one element, each
  -- subscriber's channel at most five messages, no channel subscribes twice, and the loop of `Start` sends to no channel
  -- twice.
  pub Reach-IsBounded : {b : Broker M} → Reach b → IsBounded b
  Reach-IsBounded start = omega arith
  Reach-IsBounded (later r st) = Step-IsBounded st (Reach-IsBounded r)
