-- ===== src/Outbox/Relay.antt =====
-- RelayBatch (pkg/outbox/relay.go), the loop of RunRelay and CleanupPublished (cleanup.go). Kafka is
-- not part of the repository: its topic is the list of the messages that it has taken, oldest
-- first, and for each row an argument says whether WriteMessages reaches it and whether it answers.
-- Spans and trace headers are left out.
use neo_bank.Prelude.{
  ℕ, suc, Bool, true, false, not, ◌&&◌, List, [], ◌∷◌, ◌++◌, Option, none, some, ◌+◌, ltb, ◌==◌,
  take, select, update, count,
}
use neo_bank.Prelude.Db.{
  Result, ok, err, connection, ◌>>=◌, ◌>>◌, Conn, stmt, begin, write, transaction,
}
use neo_bank.Prelude.Sorting.{sort}
use neo_bank.Outbox.State.{OutboxRow}

-- The key and the value of a Kafka message; the event carries the event_type header.
pub record Message (E : Type 0) : Type 0 where
  pub event_id : ℕ
  pub event : E
  pub partition_key : ℕ

-- Kafka took the message and said so; took it, but the answer is an error; did not take it.
pub data Delivery : Type 0 where
  confirmed unconfirmed undelivered : Delivery

-- What one pass meets: the row locks of other instances, and Kafka's answer for each row.
pub record Pass : Type 0 where
  pub conn : Conn
  pub now : ℕ
  pub locked : ℕ → Bool
  pub delivery : ℕ → Delivery

abbrev unset : Option ℕ → Bool
unset none = true
unset (some t) = false

abbrev pub set_before : ℕ → ℕ → Option ℕ → Bool
set_before now retention none = false
set_before now retention (some t) = ltb (t + retention) now

module _ {E : Type 0} where
  abbrev pub message : OutboxRow E → Message E
  message r = record { event_id = r.event_id; event = r.event; partition_key = r.partition_key }

  abbrev pub is_unpublished : OutboxRow E → Bool
  is_unpublished r = unset r.published_at

  abbrev pub is_claimable : Pass → OutboxRow E → Bool
  is_claimable p r = is_unpublished r && not (p.locked r.id)

  abbrev pub by_id : OutboxRow E → OutboxRow E → Bool
  by_id r s = ltb r.id s.id

  -- WHERE published_at IS NULL ORDER BY id LIMIT $1 FOR UPDATE SKIP LOCKED
  unfoldable pub claim : Pass → ℕ → List (OutboxRow E) → List (OutboxRow E)
  claim p batch_size rows = take batch_size (sort by_id (select (is_claimable p) rows))

  abbrev pub set_published : ℕ → OutboxRow E → OutboxRow E
  set_published now r = record r { published_at = some now }

  -- UPDATE ... SET published_at = now() WHERE id = $1
  abbrev pub mark_published : ℕ → ℕ → List (OutboxRow E) → List (OutboxRow E)
  mark_published now id rows = update (λ r. r.id == id) (set_published now) rows

  -- After WriteMessages for a row: by its answer, and by whether the UPDATE fails. A failed UPDATE
  -- aborts the transaction, so that Postgres rolls back at the COMMIT that follows.
  abbrev pub after_write :
      Delivery
      → Bool
      → Message E
      → List (OutboxRow E)
      → List (Message E)
      → Result (List (OutboxRow E)) × List (Message E)
      → Result (List (OutboxRow E)) × List (Message E)
  after_write confirmed false m rows topic rest = rest
  after_write confirmed true m rows topic rest = (err connection, topic ++ m ∷ [])
  after_write unconfirmed update_fails m rows topic rest = (ok rows, topic ++ m ∷ [])
  after_write undelivered update_fails m rows topic rest = (ok rows, topic)

  -- The loop over the batch, from statement k of the transaction on.
  unfoldable pub relay_each :
      Pass
      → ℕ
      → List (OutboxRow E)
      → List (OutboxRow E)
      → List (Message E)
      → Result (List (OutboxRow E)) × List (Message E)
  relay_each p k [] rows topic = (ok rows, topic)
  relay_each p k (r ∷ batch) rows topic =
      let rest =
        relay_each p (suc k) batch (mark_published p.now r.id rows) (topic ++ message r ∷ []) in
      after_write (p.delivery r.id) (p.conn.fails k) (message r) rows topic rest

  abbrev pub finish :
      Pass
      → List (OutboxRow E)
      → Result (List (OutboxRow E)) × List (Message E)
      → List (OutboxRow E) × List (Message E)
  finish p rows (out, topic) =
      ((transaction p.conn rows (out >>= λ rows'. ok (write tt rows'))).1, topic)

  -- The batch that was claimed, or the pass ends.
  abbrev pub relay_claimed :
      Pass
      → List (OutboxRow E)
      → List (Message E)
      → Result (List (OutboxRow E))
      → List (OutboxRow E) × List (Message E)
  relay_claimed p rows topic (err e) = (rows, topic)
  relay_claimed p rows topic (ok batch) = finish p rows (relay_each p 2 batch rows topic)

  unfoldable pub relay_batch :
      Pass → ℕ → List (OutboxRow E) → List (Message E) → List (OutboxRow E) × List (Message E)
  relay_batch p batch_size rows topic =
      relay_claimed p rows topic (do begin p.conn; stmt p.conn 1 (ok (claim p batch_size rows)))

  -- One pass for each tick.
  unfoldable pub run_relay :
      List Pass → ℕ → List (OutboxRow E) → List (Message E) → List (OutboxRow E) × List (Message E)
  run_relay [] batch_size rows topic = (rows, topic)
  run_relay (p ∷ ticks) batch_size rows topic =
      let (rows', topic') = relay_batch p batch_size rows topic in
      run_relay ticks batch_size rows' topic'

  -- published_at IS NOT NULL AND published_at < now() - retention
  abbrev pub is_expired : ℕ → ℕ → OutboxRow E → Bool
  is_expired now retention r = set_before now retention r.published_at

  unfoldable pub cleanup_published :
      Conn → ℕ → ℕ → List (OutboxRow E) → Result ℕ × List (OutboxRow E)
  cleanup_published c now retention rows = transaction c rows (
      stmt c 0 (
        ok (
          write (count (is_expired now retention) rows)
            (select (λ r. not (is_expired now retention r)) rows))))
