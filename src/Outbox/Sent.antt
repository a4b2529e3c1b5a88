-- ===== src/Outbox/Sent.antt =====
-- What one pass of the relay (pkg/outbox/relay.go) sends and marks.
use neo_bank.Prelude.{
  ℕ, suc, ◌≤◌, ◌≡◌, refl, Bool, true, false, List, [], ◌∷◌, ◌++◌, map, arith, take, if◌then◌else◌,
  ◌∙◌, sym,
}
use neo_bank.Prelude.Db.{
  Result, ok, err, connection, ◌>>◌, OnOk, CommitFate, committed, rolled_back, ack_lost, commit,
}
use neo_bank.Prelude.Members.{append_assoc, append_nil}
use neo_bank.Outbox.State.{OutboxRow}
use neo_bank.Outbox.Relay.{
  Message, Delivery, confirmed, unconfirmed, undelivered, Pass, message, claim, mark_published,
  after_write, relay_each, finish, relay_claimed, relay_batch,
}

module _ {E : Type 0} where
  abbrev pub mark_all : ℕ → List (OutboxRow E) → List (OutboxRow E) → List (OutboxRow E)
  mark_all now [] rows = rows
  mark_all now (r ∷ batch) rows = mark_all now batch (mark_published now r.id rows)

  -- The topic has gained the messages of the first `sent` rows, in order.
  abbrev pub IsSent : List (OutboxRow E) → ℕ → List (Message E) → List (Message E) → Type 0
  IsSent batch sent topic topic' = topic' ≡ topic ++ map message (take sent batch)

  -- Of these rows the first `marked` are marked.
  abbrev pub IsMarked :
      ℕ → List (OutboxRow E) → ℕ → List (OutboxRow E) → List (OutboxRow E) → Type 0
  IsMarked now batch sent rows rows' =
      (marked : ℕ) × (marked ≤ sent) × (rows' ≡ mark_all now (take marked batch) rows)

  abbrev pub HasSent :
      ℕ
      → List (OutboxRow E)
      → List (OutboxRow E)
      → List (Message E)
      → Result (List (OutboxRow E))
      → List (Message E)
      → Type 0
  HasSent now batch rows topic out topic' =
      (sent : ℕ) × IsSent batch sent topic topic' × OnOk (IsMarked now batch sent rows) out

  IsMarked-step :
      (now : ℕ) (r : OutboxRow E) (batch rows : List (OutboxRow E)) (sent : ℕ)
      (out : Result (List (OutboxRow E)))
      → OnOk (IsMarked now batch sent (mark_published now r.id rows)) out
      → OnOk (IsMarked now (r ∷ batch) (suc sent) rows) out
  IsMarked-step now r batch rows sent (err e) h = tt
  IsMarked-step now r batch rows sent (ok rows') (marked, le, e) = (suc marked, omega arith, e)

  HasSent-step :
      (now : ℕ) (r : OutboxRow E) (batch rows : List (OutboxRow E)) (topic : List (Message E))
      (out : Result (List (OutboxRow E)) × List (Message E))
      → HasSent now batch (mark_published now r.id rows) (topic ++ message r ∷ []) out.0 out.1
      → HasSent now (r ∷ batch) rows topic out.0 out.1
  HasSent-step now r batch rows topic out (sent, e, m) = (
    suc sent,
    e ∙ append_assoc topic (message r ∷ []) (map message (take sent batch)),
    IsMarked-step now r batch rows sent out.0 m,
  )

  after_write-HasSent :
      (now : ℕ) (r : OutboxRow E) (batch rows : List (OutboxRow E)) (topic : List (Message E))
      (d : Delivery) (update_fails : Bool) (rest : Result (List (OutboxRow E)) × List (Message E))
      → HasSent now (r ∷ batch) rows topic rest.0 rest.1
      → let out = after_write d update_fails (message r) rows topic rest in
        HasSent now (r ∷ batch) rows topic out.0 out.1
  after_write-HasSent now r batch rows topic confirmed false rest h = h
  after_write-HasSent now r batch rows topic confirmed true rest h = (1, refl, tt)
  after_write-HasSent now r batch rows topic unconfirmed b rest h =
      (1, refl, (0, omega arith, refl))
  after_write-HasSent now r batch rows topic undelivered b rest h =
      (0, sym (append_nil topic), (0, omega arith, refl))

  relay_each-HasSent :
      (p : Pass) (k : ℕ) (batch rows : List (OutboxRow E)) (topic : List (Message E))
      → let out = relay_each p k batch rows topic in HasSent p.now batch rows topic out.0 out.1
  unfolding relay_each
  relay_each-HasSent p k [] rows topic = (0, sym (append_nil topic), (0, omega arith, refl))
  relay_each-HasSent p k (r ∷ batch) rows topic =
      after_write-HasSent p.now r batch rows topic (p.delivery r.id) (p.conn.fails k) _ (
        HasSent-step p.now r batch rows topic _ (
          relay_each-HasSent p (suc k) batch (mark_published p.now r.id rows)
            (topic ++ message r ∷ [])))

  -- What a pass leaves: it sent the first of the rows it claimed, and it marked none of them, or
  -- the first of those it sent.
  abbrev pub HasRelayed :
      ℕ
      → List (OutboxRow E)
      → List (OutboxRow E)
      → List (Message E)
      → List (OutboxRow E)
      → List (Message E)
      → Type 0
  HasRelayed now batch rows topic rows' topic' =
      (sent : ℕ) × IsSent batch sent topic topic' × IsMarked now batch sent rows rows'

  finish-HasRelayed :
      (p : Pass) (batch rows : List (OutboxRow E)) (topic : List (Message E))
      (out : Result (List (OutboxRow E)) × List (Message E))
      → HasSent p.now batch rows topic out.0 out.1
      → let after = finish p rows out in HasRelayed p.now batch rows topic after.0 after.1
  finish-HasRelayed p batch rows topic (err e, topic') (sent, s, m) =
      (sent, s, (0, omega arith, refl))
  finish-HasRelayed p batch rows topic (ok rows', topic') (sent, s, m) =
      (sent, s, by_fate p.conn.commit_fate)
    where
      by_fate : (f : CommitFate) → IsMarked p.now batch sent rows (commit f rows rows' tt).1
      by_fate committed = m
      by_fate rolled_back = (0, omega arith, refl)
      by_fate ack_lost = m

  pub relay_batch-HasRelayed :
      (p : Pass) (batch_size : ℕ) (rows : List (OutboxRow E)) (topic : List (Message E))
      → let after = relay_batch p batch_size rows topic in
        HasRelayed p.now (claim p batch_size rows) rows topic after.0 after.1
  unfolding relay_batch
  relay_batch-HasRelayed p batch_size rows topic = by_statements (p.conn.fails 0) (p.conn.fails 1)
    where
      by_statements :
          (b b' : Bool)
          → let after = relay_claimed p rows topic (
              (if b then err connection else ok tt)
              >> (if b' then err connection else ok (claim p batch_size rows))) in
            HasRelayed p.now (claim p batch_size rows) rows topic after.0 after.1
      by_statements true b' = (0, sym (append_nil topic), (0, omega arith, refl))
      by_statements false true = (0, sym (append_nil topic), (0, omega arith, refl))
      by_statements false false =
          finish-HasRelayed p _ rows topic _
            (relay_each-HasSent p 2 (claim p batch_size rows) rows topic)
