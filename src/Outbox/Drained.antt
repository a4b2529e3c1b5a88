-- ===== src/Outbox/Drained.antt =====
-- The relay (pkg/outbox/relay.go) on a run of passes on which nothing fails.
use neo_bank.Prelude.{
  ℕ, suc, ◌-◌, ◌*◌, ◌≤◌, ◌≡◌, refl, sym, ◌∙◌, ap, inl, inr, Bool, true, false, not, ◌&&◌, List, [],
  ◌∷◌, ◌++◌, map, arith, take, drop, select, ◌==◌, All, length, count, exists, if◌then◌else◌,
}
use mathlib.Core.Path.{subst}
use neo_bank.Prelude.Sorting.{sort, count-sort}
use neo_bank.Prelude.Members.{
  In, All-In, append_assoc, append_nil, count-take, count_le, length-select, length-sort,
  length-drop,
}
use neo_bank.Prelude.Db.{ok, good}
use neo_bank.Outbox.State.{OutboxRow}
use neo_bank.Outbox.Relay.{
  Message, Pass, confirmed, message, is_unpublished, is_claimable, by_id, claim, set_published,
  mark_published, relay_each, relay_batch, run_relay,
}
use neo_bank.Outbox.Sent.{mark_all}
use neo_bank.Outbox.Delivered.{IsDelivered, IsKeyed, relay_batch-IsDelivered}

-- A pass that no other instance and no failure disturbs.
abbrev pub good_pass : ℕ → Pass
good_pass now = record { conn = good; now = now; locked = λ id. false; delivery = λ id. confirmed }

module _ {E : Type 0} where
  relay_each-good :
      (now k : ℕ) (batch rows : List (OutboxRow E)) (topic : List (Message E))
      → relay_each (good_pass now) k batch rows topic
        ≡ (ok (mark_all now batch rows), topic ++ map message batch)
  unfolding relay_each
  relay_each-good now k [] rows topic = ap (λ t. (ok rows, t)) (sym (append_nil topic))
  relay_each-good now k (r ∷ batch) rows topic =
      relay_each-good now (suc k) batch (mark_published now r.id rows) (topic ++ message r ∷ [])
      ∙ ap (λ t. (ok (mark_all now batch (mark_published now r.id rows)), t))
          (append_assoc topic (message r ∷ []) (map message batch))

  relay_batch-good :
      (now batch_size : ℕ) (rows : List (OutboxRow E)) (topic : List (Message E))
      → let batch = claim (good_pass now) batch_size rows in
        relay_batch (good_pass now) batch_size rows topic
        ≡ (mark_all now batch rows, topic ++ map message batch)
  unfolding relay_batch
  relay_batch-good now batch_size rows topic =
      rw (relay_each-good now 2 (claim (good_pass now) batch_size rows) rows topic) refl

  -- Unpublished, and not in the batch.
  abbrev is_left : List (OutboxRow E) → OutboxRow E → Bool
  is_left batch r = is_unpublished r && not (exists (λ s. r.id == s.id) batch)

  count-mark_published :
      (now : ℕ) (s : OutboxRow E) (batch rows : List (OutboxRow E))
      → count (is_left batch) (mark_published now s.id rows) ≡ count (is_left (s ∷ batch)) rows
  count-mark_published now s batch [] = refl
  count-mark_published now s batch (r ∷ rows) =
      ground (arith, count-mark_published now s batch rows)

  count-left_none :
      (rows : List (OutboxRow E)) → count (is_left []) rows ≡ count is_unpublished rows
  count-left_none [] = refl
  count-left_none (r ∷ rows) = ground (arith, count-left_none rows)

  count-mark_all :
      (now : ℕ) (batch rows : List (OutboxRow E))
      → count is_unpublished (mark_all now batch rows) ≡ count (is_left batch) rows
  count-mark_all now [] rows = sym (count-left_none rows)
  count-mark_all now (s ∷ batch) rows =
      count-mark_all now batch (mark_published now s.id rows)
      ∙ count-mark_published now s batch rows

  count-claimable :
      (now : ℕ) (rows : List (OutboxRow E))
      → count (is_claimable (good_pass now)) rows ≡ count is_unpublished rows
  count-claimable now [] = refl
  count-claimable now (r ∷ rows) = ground (arith, count-claimable now rows)

  left-claimable :
      (now : ℕ) (batch rows : List (OutboxRow E))
      → count (is_left batch) (select (is_claimable (good_pass now)) rows)
        ≡ count (is_left batch) rows
  left-claimable now batch [] = refl
  left-claimable now batch (r ∷ rows) = ground (arith, left-claimable now batch rows)

  In-exists :
      (r : OutboxRow E) (batch : List (OutboxRow E))
      → In r batch
      → exists (λ s. r.id == s.id) batch ≡ true
  In-exists r [] h = elim h [ ]
  In-exists r (s ∷ batch) (inl e) = rw e (ground arith)
  In-exists r (s ∷ batch) (inr h) = ground (arith, In-exists r batch h)

  left-In :
      (batch rows : List (OutboxRow E))
      → All (λ r. In r batch) rows
      → count (is_left batch) rows ≡ 0
  left-In batch [] h = refl
  left-In batch (r ∷ rows) (i, h) = ground (arith, In-exists r batch i, left-In batch rows h)

  -- A pass leaves at most what exceeds the batch.
  backlog-shrinks :
      (now batch_size : ℕ) (rows : List (OutboxRow E))
      → count is_unpublished (mark_all now (claim (good_pass now) batch_size rows) rows)
        ≤ count is_unpublished rows - batch_size
  unfolding claim
  backlog-shrinks now batch_size rows = omega (
    arith,
    count-mark_all now batch rows,
    left-claimable now batch rows,
    count-sort by_id (is_left batch) (select (is_claimable (good_pass now)) rows),
    count-take (is_left batch) batch_size sorted,
    left-In batch (take batch_size sorted) (All-In batch),
    count_le (is_left batch) (drop batch_size sorted),
    length-drop batch_size sorted,
    length-sort by_id (select (is_claimable (good_pass now)) rows),
    length-select (is_claimable (good_pass now)) rows,
    count-claimable now rows,
  )
    where
      sorted : List (OutboxRow E)
      sorted = sort by_id (select (is_claimable (good_pass now)) rows)

      batch : List (OutboxRow E)
      batch = take batch_size sorted

  messages-mark_published :
      (now id : ℕ) (rows : List (OutboxRow E))
      → map message (mark_published now id rows) ≡ map message rows
  messages-mark_published now id [] = refl
  messages-mark_published now id (r ∷ rows) =
      elim (r.id == id)
        as (λ b.
          message (if b then set_published now r else r) ∷ map message (mark_published now id rows)
          ≡ message r ∷ map message rows) [
            | true ↦ ap (λ ms. message r ∷ ms) (messages-mark_published now id rows)
            | false ↦ ap (λ ms. message r ∷ ms) (messages-mark_published now id rows)
          ]

  messages-mark_all :
      (now : ℕ) (batch rows : List (OutboxRow E))
      → map message (mark_all now batch rows) ≡ map message rows
  messages-mark_all now [] rows = refl
  messages-mark_all now (s ∷ batch) rows =
      messages-mark_all now batch (mark_published now s.id rows)
      ∙ messages-mark_published now s.id rows

  differs-mark_published :
      (k now id : ℕ) (rows : List (OutboxRow E))
      → All (λ s. (k == s.id) ≡ false) rows
      → All (λ s. (k == s.id) ≡ false) (mark_published now id rows)
  differs-mark_published k now id [] h = tt
  differs-mark_published k now id (r ∷ rows) (e, h) =
      elim (r.id == id)
        as (λ b.
          ((k == (if b then set_published now r else r).id) ≡ false)
          × All (λ s. (k == s.id) ≡ false) (mark_published now id rows)) [
            | true ↦ (e, differs-mark_published k now id rows h)
            | false ↦ (e, differs-mark_published k now id rows h)
          ]

  mark_published-IsKeyed :
      (now id : ℕ) (rows : List (OutboxRow E)) → IsKeyed rows → IsKeyed (mark_published now id rows)
  mark_published-IsKeyed now id [] h = tt
  mark_published-IsKeyed now id (r ∷ rows) (e, h) =
      elim (r.id == id)
        as (λ b. IsKeyed ((if b then set_published now r else r) ∷ mark_published now id rows)) [
          | true ↦ (differs-mark_published r.id now id rows e, mark_published-IsKeyed now id rows h)
          | false ↦
              (differs-mark_published r.id now id rows e, mark_published-IsKeyed now id rows h)
        ]

  mark_all-IsKeyed :
      (now : ℕ) (batch rows : List (OutboxRow E)) → IsKeyed rows → IsKeyed (mark_all now batch rows)
  mark_all-IsKeyed now [] rows h = h
  mark_all-IsKeyed now (s ∷ batch) rows h =
      mark_all-IsKeyed now batch _ (mark_published-IsKeyed now s.id rows h)

  All-sent :
      (topic : List (Message E)) (rows : List (OutboxRow E))
      → IsDelivered topic rows
      → count is_unpublished rows ≡ 0
      → All (λ m. In m topic) (map message rows)
  All-sent topic [] h e = tt
  All-sent topic (r ∷ rows) (inl u, h) e = absurd (ground arith)
  All-sent topic (r ∷ rows) (inr i, h) e = (i, All-sent topic rows h (omega arith))

  run_relay-good :
      (now : ℕ) (nows : List ℕ) (batch_size : ℕ) (rows : List (OutboxRow E))
      (topic : List (Message E))
      → let batch = claim (good_pass now) batch_size rows in
        run_relay (map good_pass (now ∷ nows)) batch_size rows topic
        ≡ run_relay
            (map good_pass nows)
            batch_size
            (mark_all now batch rows)
            (topic ++ map message batch)
  unfolding run_relay
  run_relay-good now nows batch_size rows topic =
      ap (λ after. run_relay (map good_pass nows) batch_size after.0 after.1)
        (relay_batch-good now batch_size rows topic)

  relay_batch-kept :
      (now batch_size : ℕ) (rows : List (OutboxRow E)) (topic : List (Message E))
      → IsKeyed rows
      → IsDelivered topic rows
      → let batch = claim (good_pass now) batch_size rows in
        IsDelivered (topic ++ map message batch) (mark_all now batch rows)
  relay_batch-kept now batch_size rows topic keyed h =
      subst (λ after. IsDelivered after.1 after.0) (relay_batch-good now batch_size rows topic)
        (relay_batch-IsDelivered (good_pass now) batch_size rows topic keyed h)

  -- With enough passes that nothing disturbs, the relay publishes every row: if the backlog is at
  -- most the batch size times the number of passes, the id is a key, and each row that was marked
  -- as published had its message in the topic, then no row is unpublished afterwards and the topic
  -- holds the message of every row.
  pub run_relay_drains :
      (nows : List ℕ) (batch_size : ℕ) (rows : List (OutboxRow E)) (topic : List (Message E))
      → IsKeyed rows
      → IsDelivered topic rows
      → count is_unpublished rows ≤ batch_size * length nows
      → let after = run_relay (map good_pass nows) batch_size rows topic in
        (count is_unpublished after.0 ≡ 0) × All (λ m. In m after.1) (map message rows)
  unfolding run_relay
  run_relay_drains [] batch_size rows topic keyed h le =
      let none_left : count is_unpublished rows ≡ 0 = omega arith in
      (none_left, All-sent topic rows h none_left)
  run_relay_drains (now ∷ nows) batch_size rows topic keyed h le =
      let batch : List (OutboxRow E) = claim (good_pass now) batch_size rows in
      let after =
        run_relay_drains nows batch_size (mark_all now batch rows) (topic ++ map message batch)
          (mark_all-IsKeyed now batch rows keyed)
          (relay_batch-kept now batch_size rows topic keyed h)
          (omega (arith, backlog-shrinks now batch_size rows)) in
      rw (run_relay-good now nows batch_size rows topic)
        (after.0, rw (messages-mark_all now batch rows) at after.1)
