-- ===== src/Broker/Names.antt =====
-- The names of the channels that `Subscribe` makes.
use ducks.Prelude.{ℕ, ◌≤◌, ◌<◌, ◌≡◌, refl, sym, ◌∙◌, true, ◌||◌, List, [], ◌∷◌, ◌++◌, arith}
use ducks.Broker.{
  Broker, to_send, offer, member, on_sub, on_unsub, on_publish, on_send, on_sent, on_done, publish,
  subscribe, unsubscribe, receive, Step, publishes, subscribes, unsubscribes, receives, takes_sub,
  takes_unsub, takes_publish, sends, ends_sends, takes_done, Reach, start, later,
}
use ducks.Broker.Subscribers.{member-add_sub, member-remove_sub}

pub member-append :
    (ch : ℕ) (xs ys : List ℕ) → member ch (xs ++ ys) ≡ (member ch xs || member ch ys)
unfolding member
member-append ch [] ys = refl
member-append ch (x ∷ xs) ys = ground (arith, member-append ch xs ys)

module _ {M : Type 0} where
  -- Every channel that is named anywhere was made, and one that was not made holds nothing.
  pub record IsNamed (b : Broker M) : Type 0 where
    pub subs : (ch : ℕ) → member ch b.subs ≡ true → ch < b.next
    pub sub_ch : (ch : ℕ) → member ch b.sub_ch ≡ true → ch < b.next
    pub waiting : (ch : ℕ) → member ch b.waiting ≡ true → ch < b.next
    pub unsub_ch : (ch : ℕ) → member ch b.unsub_ch ≡ true → ch < b.next
    pub order : (ch : ℕ) → member ch (to_send b.loop) ≡ true → ch < b.next
    pub fresh : (ch : ℕ) → b.next ≤ ch → b.buffers ch ≡ []

  subscribes-IsNamed : (b : Broker M) → IsNamed b → IsNamed (subscribe b)
  unfolding subscribe member
  subscribes-IsNamed b h = record {
    subs = λ j i. ground (arith, h.subs j);
    sub_ch = λ j i. ground (arith, h.sub_ch j, member-append j b.sub_ch (b.next ∷ []));
    waiting = λ j i. ground (arith, h.waiting j);
    unsub_ch = λ j i. ground (arith, h.unsub_ch j);
    order = λ j i. ground (arith, h.order j);
    fresh = λ j i. h.fresh j (omega arith);
  }

  unsubscribes-IsNamed :
      (b : Broker M) (ch : ℕ) → member ch b.waiting ≡ true → IsNamed b → IsNamed (unsubscribe ch b)
  unfolding unsubscribe member
  unsubscribes-IsNamed b ch waits h = record {
    subs = h.subs;
    sub_ch = h.sub_ch;
    waiting = λ j i. ground (arith, h.waiting j, member-remove_sub ch j b.waiting);
    unsub_ch =
        λ j i. ground (arith, h.unsub_ch j, h.waiting ch, member-append j b.unsub_ch (ch ∷ []));
    order = h.order;
    fresh = h.fresh;
  }

  takes_sub-IsNamed :
      (b : Broker M) (ch : ℕ) (rest : List ℕ)
      → b.sub_ch ≡ ch ∷ rest
      → IsNamed b
      → IsNamed (on_sub ch rest b)
  unfolding on_sub member
  takes_sub-IsNamed b ch rest e h = record {
    subs = λ j i. ground (arith, h.subs j, h.sub_ch j, member-add_sub ch j b.subs);
    sub_ch = λ j i. ground (arith, h.sub_ch j);
    waiting = h.waiting;
    unsub_ch = h.unsub_ch;
    order = h.order;
    fresh = h.fresh;
  }

  takes_unsub-IsNamed :
      (b : Broker M) (ch : ℕ) (rest : List ℕ)
      → b.unsub_ch ≡ ch ∷ rest
      → IsNamed b
      → IsNamed (on_unsub ch rest b)
  unfolding on_unsub member
  takes_unsub-IsNamed b ch rest e h = record {
    subs = λ j i. ground (arith, h.subs j, member-remove_sub ch j b.subs);
    sub_ch = h.sub_ch;
    waiting = h.waiting;
    unsub_ch = λ j i. ground (arith, h.unsub_ch j);
    order = h.order;
    fresh = h.fresh;
  }

  sends-IsNamed :
      (b : Broker M) (msg : M) (ch : ℕ) (chs : List ℕ)
      → ((j : ℕ) → member j (ch ∷ chs) ≡ true → j < b.next)
      → IsNamed b
      → IsNamed (on_send msg ch chs b)
  unfolding on_send offer member
  sends-IsNamed b msg ch chs order h = record {
    subs = h.subs;
    sub_ch = h.sub_ch;
    waiting = h.waiting;
    unsub_ch = h.unsub_ch;
    order = λ j i. ground (arith, order j);
    fresh = λ j i. ground (arith, h.fresh j i, order ch);
  }

  Step-IsNamed : {b b' : Broker M} → Step b b' → IsNamed b → IsNamed b'
  unfolding publish receive on_publish on_sent on_done member
  Step-IsNamed (publishes msg room) h = record {
    subs = h.subs;
    sub_ch = h.sub_ch;
    waiting = h.waiting;
    unsub_ch = h.unsub_ch;
    order = h.order;
    fresh = h.fresh;
  }
  Step-IsNamed (receives {b} ch msg rest e) h = record {
    subs = h.subs;
    sub_ch = h.sub_ch;
    waiting = h.waiting;
    unsub_ch = h.unsub_ch;
    order = h.order;
    fresh = λ j i. ground (arith, h.fresh j i);
  }
  Step-IsNamed (takes_publish {b} msg rest order idle e map) h = record {
    subs = h.subs;
    sub_ch = h.sub_ch;
    waiting = h.waiting;
    unsub_ch = h.unsub_ch;
    order = λ j i. h.subs j (sym (map.same_members j) ∙ i);
    fresh = h.fresh;
  }
  Step-IsNamed (ends_sends msg e) h = record {
    subs = h.subs;
    sub_ch = h.sub_ch;
    waiting = h.waiting;
    unsub_ch = h.unsub_ch;
    order = λ j i. cc;
    fresh = h.fresh;
  }
  Step-IsNamed (takes_done idle) h = record {
    subs = h.subs;
    sub_ch = h.sub_ch;
    waiting = h.waiting;
    unsub_ch = h.unsub_ch;
    order = λ j i. cc;
    fresh = h.fresh;
  }
  Step-IsNamed (sends {b} msg ch chs e) h = sends-IsNamed b msg ch chs (λ j i. h.order j (rw e i)) h
  Step-IsNamed (subscribes {b} room) h = subscribes-IsNamed b h
  Step-IsNamed (unsubscribes {b} ch waits room) h = unsubscribes-IsNamed b ch waits h
  Step-IsNamed (takes_sub {b} ch rest idle e) h = takes_sub-IsNamed b ch rest e h
  Step-IsNamed (takes_unsub {b} ch rest idle e) h = takes_unsub-IsNamed b ch rest e h

  -- In every reachable state each channel that is subscribed, that is sent to subscribe or to
  -- unsubscribe, for whose context a goroutine waits, or to which the loop still sends has a number below that of the next
  -- channel, and the channels from that number on are empty.
  pub Reach-IsNamed : {b : Broker M} → Reach b → IsNamed b
  unfolding member
  Reach-IsNamed start = record {
    subs = λ j i. cc;
    sub_ch = λ j i. cc;
    waiting = λ j i. cc;
    unsub_ch = λ j i. cc;
    order = λ j i. cc;
    fresh = λ j i. refl;
  }
  Reach-IsNamed (later r st) = Step-IsNamed st (Reach-IsNamed r)
