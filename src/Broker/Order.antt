-- ===== src/Broker/Order.antt =====
-- What a subscriber receives, compared with what was published.
use mathlib.Core.List.{Sublist, append_assoc, sublist-append_left}
use mathlib.Core.List.Sublist
use ducks.Prelude.{
  ℕ, ◌≡◌, refl, sym, ◌&&◌, List, [], ◌∷◌, ◌++◌, length, ltb, eqb, if◌then◌else◌, Bool-cases, eqb→eq,
  inl, inr, ◌∙◌, ap, true, false, subst, arith,
}
use ducks.Broker.{
  Broker, Loop, selecting, sending, returned, Distinct, to_send, offer, member, on_sub, on_unsub,
  on_publish, on_send, on_sent, on_done, publish, subscribe, unsubscribe, receive, Step, publishes,
  subscribes, unsubscribes, receives, takes_sub, takes_unsub, takes_publish, sends, ends_sends,
  takes_done, Reach, start, later, new_broker, msg_capacity,
}
use ducks.Broker.Bounds.{Reach-IsBounded}

-- A channel in a list is none that is not in it.
apart : (ch j : ℕ) (chs : List ℕ) → member ch chs ≡ false → member j chs ≡ true → eqb ch j ≡ false
apart ch j chs out inside = elim (Bool-cases (eqb ch j)) [
  | inl hit ↦ let same = eqb→eq ch j hit in cc
  | inr miss ↦ miss
]

module _ {M : Type 0} where
  -- What `Publish` has sent after a step, given what it had sent before.
  abbrev pub sent_by : {b b' : Broker M} → Step b b' → List M → List M
  sent_by (publishes msg room) sent = sent ++ msg ∷ []
  sent_by _ sent = sent

  -- What each subscriber has received after a step.
  abbrev pub got_by : {b b' : Broker M} → Step b b' → (ℕ → List M) → ℕ → List M
  got_by (receives ch msg rest e) got = λ j. if eqb ch j then got j ++ msg ∷ [] else got j
  got_by _ got = got

  -- The reachable states, with all that was published and received on the way.
  pub data Runs : Broker M → List M → (ℕ → List M) → Type 0 where
    begin : Runs new_broker [] (λ j. [])
    step :
        {b b' : Broker M} {sent : List M} {got : ℕ → List M}
        → Runs b sent got
        → (st : Step b b') → Runs b' (sent_by st sent) (got_by st got)

  Runs-Reach : {b : Broker M} {sent : List M} {got : ℕ → List M} → Runs b sent got → Reach b
  Runs-Reach begin = start
  Runs-Reach (step r st) = later (Runs-Reach r) st

  -- What a subscriber has received, followed by what its channel holds.
  abbrev pub log : Broker M → (ℕ → List M) → ℕ → List M
  log b got ch = got ch ++ b.buffers ch

  -- A message that the loop sends is the last one that was handled, and the channels to which it still
  -- has to be sent have nothing but earlier ones.
  abbrev pub IsSending : (ℕ → List M) → List M → Loop M → Type 0
  IsSending logs handled selecting = Unit
  IsSending logs handled returned = Unit
  IsSending logs handled (sending msg chs) =
      (before : List M) × (handled ≡ before ++ msg ∷ [])
      × ((ch : ℕ) → member ch chs ≡ true → Sublist (logs ch) before)

  -- All that was published is either still in the channel of `Publish` or was handled; what a
  -- subscriber has received, followed by what its channel holds, is a part of what was handled, in
  -- the same order and with no message twice.
  pub record InOrder (b : Broker M) (sent : List M) (got : ℕ → List M) : Type 0 where
    pub handled : List M
    pub fifo : sent ≡ handled ++ b.publish_ch
    pub part : (ch : ℕ) → Sublist (log b got ch) handled
    pub last : IsSending (log b got) handled b.loop

  -- Only what the logs are matters.
  IsSending-eq :
      (logs logs' : ℕ → List M) (handled : List M) (l : Loop M)
      → ((ch : ℕ) → logs' ch ≡ logs ch)
      → IsSending logs handled l
      → IsSending logs' handled l
  IsSending-eq logs logs' handled selecting e h = tt
  IsSending-eq logs logs' handled returned e h = tt
  IsSending-eq logs logs' handled (sending msg chs) e (before, f, g) =
      (before, f, λ ch i. rw (e ch) (g ch i))

  log-receive :
      (b : Broker M) (ch : ℕ) (msg : M) (rest : List M) (got : ℕ → List M) (j : ℕ)
      → b.buffers ch ≡ msg ∷ rest
      → log (receive ch rest b) (λ j. if eqb ch j then got j ++ msg ∷ [] else got j) j ≡ log b got j
  unfolding receive
  log-receive b ch msg rest got j e = elim (Bool-cases (eqb ch j)) [
    | inl hit ↦
        let same : b.buffers j ≡ msg ∷ rest = rw (← eqb→eq ch j hit) e in
        rw (hit, append_assoc, same) refl
    | inr miss ↦ rw miss refl
  ]

  -- One send, to a channel that had nothing but earlier messages.
  part-offer :
      (ch : ℕ) (msg : M) (buffers : ℕ → List M) (got before : List M) (j : ℕ)
      → Sublist (got ++ buffers j) (before ++ msg ∷ [])
      → (eqb ch j ≡ true → Sublist (got ++ buffers j) before)
      → Sublist (got ++ offer ch msg buffers j) (before ++ msg ∷ [])
  unfolding offer
  part-offer ch msg buffers got before j h g =
      elim (Bool-cases (eqb ch j && ltb (length (buffers j)) msg_capacity)) [
        | inl room ↦ rw (room, ← append_assoc) (Sublist.append (g (ground arith)) (Sublist.refl _))
        | inr full ↦ rw full h
      ]

  log-offer-other :
      (ch : ℕ) (msg : M) (buffers : ℕ → List M) (j : ℕ)
      → eqb ch j ≡ false
      → offer ch msg buffers j ≡ buffers j
  unfolding offer
  log-offer-other ch msg buffers j e = ground arith

  sends-InOrder :
      (b : Broker M) (msg : M) (ch : ℕ) (chs : List ℕ) {sent : List M} {got : ℕ → List M}
      → Distinct (ch ∷ chs)
      → b.loop ≡ sending msg (ch ∷ chs)
      → InOrder b sent got
      → InOrder (on_send msg ch chs b) sent got
  unfolding on_send member
  sends-InOrder b msg ch chs {sent} {got} d e h =
      let (before, f, g) = subst (IsSending (log b got) h.handled) e h.last in
      record {
        handled = h.handled;
        fifo = h.fifo;
        part = λ j. rw f (
            part-offer ch msg b.buffers (got j) before j (rw f at (h.part j))
              (λ hit. g j (ground arith)));
        last = (
          before,
          f,
          λ j i.
              rw (log-offer-other ch msg b.buffers j (apart ch j chs d.0 i)) (g j (ground arith)),
        );
      }

  Step-InOrder :
      {b b' : Broker M} (st : Step b b') {sent : List M} {got : ℕ → List M}
      → Distinct (to_send b.loop)
      → InOrder b sent got
      → InOrder b' (sent_by st sent) (got_by st got)
  unfolding publish subscribe unsubscribe on_sub on_unsub on_publish on_sent on_done receive
  Step-InOrder (publishes {b} msg room) d h = record {
    handled = h.handled;
    fifo = rw (h.fifo, append_assoc);
    part = h.part;
    last = h.last;
  }
  Step-InOrder (receives {b} ch msg rest e) {sent} {got} d h = record {
    handled = h.handled;
    fifo = h.fifo;
    part =
        λ j. subst (λ l. Sublist l h.handled) (sym (log-receive b ch msg rest got j e)) (h.part j);
    last =
        IsSending-eq (log b got) _ h.handled b.loop (λ j. log-receive b ch msg rest got j e) h.last;
  }
  Step-InOrder (takes_publish {b} msg rest order idle e map) d h = record {
    handled = h.handled ++ msg ∷ [];
    fifo = h.fifo ∙ (ap (◌++◌ h.handled) e ∙ sym (append_assoc h.handled (msg ∷ []) rest));
    part = λ ch. Sublist.trans (h.part ch) (sublist-append_left h.handled (msg ∷ []));
    last = (h.handled, refl, λ ch i. h.part ch);
  }
  Step-InOrder (sends {b} msg ch chs e) d h = sends-InOrder b msg ch chs (rw e at d) e h
  Step-InOrder (ends_sends msg e) d h = record {
    handled = h.handled;
    fifo = h.fifo;
    part = h.part;
    last = tt;
  }
  Step-InOrder (subscribes room) d h = record {
    handled = h.handled;
    fifo = h.fifo;
    part = h.part;
    last = h.last;
  }
  Step-InOrder (unsubscribes ch waits room) d h = record {
    handled = h.handled;
    fifo = h.fifo;
    part = h.part;
    last = h.last;
  }
  Step-InOrder (takes_sub ch rest idle e) d h = record {
    handled = h.handled;
    fifo = h.fifo;
    part = h.part;
    last = h.last;
  }
  Step-InOrder (takes_unsub ch rest idle e) d h = record {
    handled = h.handled;
    fifo = h.fifo;
    part = h.part;
    last = h.last;
  }
  Step-InOrder (takes_done idle) d h = record {
    handled = h.handled;
    fifo = h.fifo;
    part = h.part;
    last = tt;
  }

  -- After any run, what each subscriber has received and still holds is a part of what was
  -- published, in the order of publication and with no message twice; also in the middle of the loop
  -- that sends a message to the subscribers, in whatever order, while they receive.
  pub Runs-InOrder :
      {b : Broker M} {sent : List M} {got : ℕ → List M} → Runs b sent got → InOrder b sent got
  Runs-InOrder begin = record { handled = []; fifo = refl; part = λ ch. Sublist.refl []; last = tt }
  Runs-InOrder (step r st) = Step-InOrder st (Reach-IsBounded (Runs-Reach r)).order (Runs-InOrder r)
