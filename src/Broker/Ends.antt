-- ===== src/Broker/Ends.antt =====
-- What the end of a context does: of a subscription's, and of the broker's own.
use ducks.Prelude.{
  ℕ, ◌<◌, ◌≡◌, ◌≢◌, refl, true, false, List, [], ◌∷◌, ◌++◌, length, append-eq-nil, arith, ap, subst,
  ◌∙◌,
}
use ducks.Broker.{
  Broker, selecting, returned, member, remove_sub, on_sub, on_unsub, on_publish, on_send, on_sent,
  on_done, publish, subscribe, unsubscribe, receive, Step, publishes, subscribes, unsubscribes,
  receives, takes_sub, takes_unsub, takes_publish, sends, ends_sends, takes_done, Reach, Steps,
  here, next, publish_capacity,
}
use ducks.Broker.Subscribers.{member-add_sub, member-remove_sub}
use ducks.Broker.Delivery.{Steps-trans}
use ducks.Broker.Progress.{Reach-returns_to_select}
use ducks.Broker.Names.{member-append}

module _ {M : Type 0} where
  -- A channel that is subscribed while its subscription's context is over and its request to
  -- unsubscribe has been taken.
  pub record IsLeaked (ch : ℕ) (b : Broker M) : Type 0 where
    pub made : ch < b.next
    pub subscribed : member ch b.subs ≡ true
    pub over : member ch b.waiting ≡ false
    pub unsent : member ch b.unsub_ch ≡ false

  Step-IsLeaked : {b b' : Broker M} (ch : ℕ) → Step b b' → IsLeaked ch b → IsLeaked ch b'
  unfolding publish subscribe unsubscribe receive on_sub on_unsub on_publish on_send on_sent on_done
      member
  Step-IsLeaked ch (publishes msg room) h = record {
    made = h.made;
    subscribed = h.subscribed;
    over = h.over;
    unsent = h.unsent;
  }
  Step-IsLeaked ch (receives j msg rest e) h = record {
    made = h.made;
    subscribed = h.subscribed;
    over = h.over;
    unsent = h.unsent;
  }
  Step-IsLeaked ch (takes_publish msg rest order idle e map) h = record {
    made = h.made;
    subscribed = h.subscribed;
    over = h.over;
    unsent = h.unsent;
  }
  Step-IsLeaked ch (sends msg j chs e) h = record {
    made = h.made;
    subscribed = h.subscribed;
    over = h.over;
    unsent = h.unsent;
  }
  Step-IsLeaked ch (ends_sends msg e) h = record {
    made = h.made;
    subscribed = h.subscribed;
    over = h.over;
    unsent = h.unsent;
  }
  Step-IsLeaked ch (takes_done idle) h = record {
    made = h.made;
    subscribed = h.subscribed;
    over = h.over;
    unsent = h.unsent;
  }
  Step-IsLeaked ch (subscribes {b} room) h = record {
    made = omega arith;
    subscribed = h.subscribed;
    over = ground arith;
    unsent = h.unsent;
  }
  Step-IsLeaked ch (unsubscribes {b} j waits room) h = record {
    made = h.made;
    subscribed = h.subscribed;
    over = ground (arith, member-remove_sub j ch b.waiting);
    unsent = ground (arith, member-append ch b.unsub_ch (j ∷ []));
  }
  Step-IsLeaked ch (takes_sub {b} j rest idle e) h = record {
    made = h.made;
    subscribed = ground (arith, member-add_sub j ch b.subs);
    over = h.over;
    unsent = h.unsent;
  }
  Step-IsLeaked ch (takes_unsub {b} j rest idle e) h = record {
    made = h.made;
    subscribed = ground (arith, member-remove_sub j ch b.subs);
    over = h.over;
    unsent = ground arith;
  }

  -- A leaked channel stays leaked: whatever happens, it is never unsubscribed again.
  pub Steps-IsLeaked : {b b' : Broker M} (ch : ℕ) → Steps b b' → IsLeaked ch b → IsLeaked ch b'
  Steps-IsLeaked ch here h = h
  Steps-IsLeaked ch (next r st) h = Step-IsLeaked ch st (Steps-IsLeaked ch r h)

  race_at_select :
      (b : Broker M)
      → b.loop ≡ selecting
      → b.sub_ch ≡ []
      → b.unsub_ch ≡ []
      → (b' : Broker M) × Steps b b' × IsLeaked b.next b'
  unfolding subscribe unsubscribe on_sub on_unsub member remove_sub
  race_at_select b idle no_sub no_unsub =
      let ch = b.next in
      let b₁ = subscribe b in
      let b₂ = unsubscribe ch b₁ in
      let b₃ = on_unsub ch [] b₂ in
      let b₄ = on_sub ch [] b₃ in
      (
        b₄,
        next
            (next
              (next (next here (subscribes (rw no_sub (omega arith))))
                (unsubscribes ch (ground arith) (rw no_unsub (omega arith))))
              (takes_unsub ch [] idle (ap (λ l. l ++ ch ∷ []) no_unsub)))
            (takes_sub ch [] idle (ap (λ l. l ++ ch ∷ []) no_sub)),
        record {
          made = omega arith;
          subscribed = ground (arith, member-add_sub ch ch (remove_sub ch b.subs));
          over = ground (arith, member-remove_sub ch ch b.waiting);
          unsent = refl;
        },
      )

  -- From every reachable state of a running broker with nobody in its subscription channels, a
  -- subscription whose context ends at once can leave its channel leaked: the loop may take the
  -- request to unsubscribe before the request to subscribe.
  pub race_leaks :
      {b : Broker M}
      → Reach b
      → b.loop ≢ returned
      → b.sub_ch ≡ []
      → b.unsub_ch ≡ []
      → (b' : Broker M) × Steps b b' × IsLeaked b.next b'
  race_leaks {b} r on no_sub no_unsub =
      let (b₁, steps, back) = Reach-returns_to_select r on in
      let (b₂, steps', leaked) =
        race_at_select b₁ back.loop (back.sub_ch ∙ no_sub) (back.unsub_ch ∙ no_unsub) in
      (b₂, Steps-trans steps steps', subst (λ ch. IsLeaked ch b₂) back.next_ch leaked)

  stopped_Step :
      {b b' : Broker M}
      → Step b b'
      → b.loop ≡ returned
      → b.publish_ch ≢ []
      → (b'.loop ≡ returned) × (b'.publish_ch ≢ [])
  unfolding publish subscribe unsubscribe receive on_sub on_unsub on_publish on_send on_sent on_done
  stopped_Step (publishes {b} msg room) off full =
      (off, λ e. full ((append-eq-nil b.publish_ch (msg ∷ [])).0 e).0)
  stopped_Step (subscribes room) off full = (off, full)
  stopped_Step (unsubscribes ch waits room) off full = (off, full)
  stopped_Step (receives ch msg rest e) off full = (off, full)
  stopped_Step (takes_sub ch rest idle e) off full = cc
  stopped_Step (takes_unsub ch rest idle e) off full = cc
  stopped_Step (takes_publish msg rest order idle e map) off full = cc
  stopped_Step (sends msg ch chs e) off full = cc
  stopped_Step (ends_sends msg e) off full = cc
  stopped_Step (takes_done idle) off full = cc

  stopped_Steps :
      {b b' : Broker M}
      → Steps b b'
      → b.loop ≡ returned
      → b.publish_ch ≢ []
      → (b'.loop ≡ returned) × (b'.publish_ch ≢ [])
  stopped_Steps here off full = (off, full)
  stopped_Steps (next r st) off full =
      let (off', full') = stopped_Steps r off full in stopped_Step st off' full'

  nonempty : (xs : List M) → xs ≢ [] → ¬ (length xs < publish_capacity)
  nonempty [] full room = full refl
  nonempty (x ∷ xs) full room = omega arith

  -- Once the loop of `Start` has ended and a message waits in the channel, no continuation ever
  -- makes room: every further `Publish` waits for ever.
  pub stopped_publish_waits :
      {b b' : Broker M}
      → Steps b b'
      → b.loop ≡ returned
      → b.publish_ch ≢ []
      → ¬ (length b'.publish_ch < publish_capacity)
  stopped_publish_waits {b' = b'} r off full = nonempty b'.publish_ch (stopped_Steps r off full).1
