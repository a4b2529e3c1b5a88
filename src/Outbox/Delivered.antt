-- ===== src/Outbox/Delivered.antt =====
-- The outbox against the topic: RelayBatch (pkg/outbox/relay.go).
use neo_bank.Prelude.{
  ℕ, ◌≤◌, ◌≡◌, refl, sym, ◌⊎◌, inl, inr, Bool, true, false, List, [], ◌∷◌, ◌++◌, map, arith, take,
  ◌==◌, All, if◌then◌else◌,
}
use mathlib.Core.Path.{subst}
use neo_bank.Prelude.Members.{
  In, All-both, In-append_left, In-append_right, In-map, All-In, All-map, All-take, All-shorter,
  All-select, All-sort,
}
use neo_bank.Outbox.State.{OutboxRow}
use neo_bank.Outbox.Relay.{
  Message, Pass, message, is_unpublished, claim, set_published, mark_published, relay_batch,
}
use neo_bank.Outbox.Sent.{mark_all, HasRelayed, relay_batch-HasRelayed}

module _ {E : Type 0} where
  abbrev IsTold : List (Message E) → OutboxRow E → Type 0
  IsTold topic r = (is_unpublished r ≡ true) ⊎ In (message r) topic

  -- Each row that is marked as published has its message in the topic.
  abbrev pub IsDelivered : List (Message E) → List (OutboxRow E) → Type 0
  IsDelivered topic rows = All (IsTold topic) rows

  -- The id is the primary key.
  abbrev pub IsKeyed : List (OutboxRow E) → Type 0
  IsKeyed [] = Unit {0}
  IsKeyed (r ∷ rows) = All (λ s. (r.id == s.id) ≡ false) rows × IsKeyed rows

  -- The row is the one with that id.
  abbrev IsOnly : OutboxRow E → OutboxRow E → Type 0
  IsOnly r s = ((r.id == s.id) ≡ false) ⊎ (r ≡ s)

  IsKeyed-IsOnly : (rows : List (OutboxRow E)) → IsKeyed rows → All (λ r. All (IsOnly r) rows) rows
  IsKeyed-IsOnly [] h = tt
  IsKeyed-IsOnly (r ∷ rows) (h, k) = (
    (inr refl, All-map _ (IsOnly r) (λ s e. inl e) rows h),
    joined rows h (IsKeyed-IsOnly rows k),
  )
    where
      joined :
          (ss : List (OutboxRow E))
          → All (λ s. (r.id == s.id) ≡ false) ss
          → All (λ s. All (IsOnly s) rows) ss
          → All (λ s. All (IsOnly s) (r ∷ rows)) ss
      joined [] h a = tt
      joined (s ∷ ss) h a = ((inl (ground (arith, h.0)), a.0), joined ss h.1 a.1)

  -- Where the batch holds the row with the row's id, its message is in the topic.
  abbrev IsCovered : List (Message E) → List (OutboxRow E) → OutboxRow E → Type 0
  IsCovered topic batch r = All (λ s. ((r.id == s.id) ≡ false) ⊎ In (message r) topic) batch

  mark_published-IsCovered :
      (topic : List (Message E)) (now : ℕ) (s : OutboxRow E) (batch rows : List (OutboxRow E))
      → All (λ r. IsTold topic r × IsCovered topic (s ∷ batch) r) rows
      → All (λ r. IsTold topic r × IsCovered topic batch r) (mark_published now s.id rows)
  mark_published-IsCovered topic now s batch [] h = tt
  mark_published-IsCovered topic now s batch (r ∷ rows) ((t, (c, cs)), h) =
      (by_test (r.id == s.id) c, mark_published-IsCovered topic now s batch rows h)
    where
      by_test :
          (b : Bool)
          → (b ≡ false) ⊎ In (message r) topic
          → let r' = if b then set_published now r else r in
            IsTold topic r' × IsCovered topic batch r'
      by_test true (inl e) = cc
      by_test true (inr i) = (inr i, cs)
      by_test false c = (t, cs)

  mark_all-IsDelivered :
      (topic : List (Message E)) (now : ℕ) (batch rows : List (OutboxRow E))
      → All (λ r. IsTold topic r × IsCovered topic batch r) rows
      → IsDelivered topic (mark_all now batch rows)
  mark_all-IsDelivered topic now [] rows h = All-map _ (IsTold topic) (λ r p. p.0) rows h
  mark_all-IsDelivered topic now (s ∷ batch) rows h =
      mark_all-IsDelivered topic now batch _ (mark_published-IsCovered topic now s batch rows h)

  -- The rows that were sent are in the topic.
  sent-In :
      (topic : List (Message E)) (batch : List (OutboxRow E)) (marked sent : ℕ)
      → marked ≤ sent
      → All (λ s. In (message s) (topic ++ map message (take sent batch))) (take marked batch)
  sent-In topic batch marked sent le = All-shorter _ marked sent batch le (
      All-map (λ s. In s (take sent batch)) _
        (λ s i. In-append_right (message s) topic _ (In-map message s (take sent batch) i))
        (take sent batch) (All-In (take sent batch)))

  claim-All :
      (P : OutboxRow E → Type 0) (p : Pass) (batch_size : ℕ) (rows : List (OutboxRow E))
      → All P rows
      → All P (claim p batch_size rows)
  unfolding claim
  claim-All P p batch_size rows a = All-take P batch_size _ (All-sort P _ _ (All-select P _ rows a))

  IsTold-append :
      (topic ms : List (Message E)) (r : OutboxRow E) → IsTold topic r → IsTold (topic ++ ms) r
  IsTold-append topic ms r (inl e) = inl e
  IsTold-append topic ms r (inr i) = inr (In-append_left (message r) topic ms i)

  IsOnly-IsCovered :
      (topic : List (Message E)) (r : OutboxRow E) (batch : List (OutboxRow E))
      → All (IsOnly r) batch
      → All (λ s. In (message s) topic) batch
      → IsCovered topic batch r
  IsOnly-IsCovered topic r [] only sent = tt
  IsOnly-IsCovered topic r (s ∷ batch) (inl e, only) (i, sent) =
      (inl e, IsOnly-IsCovered topic r batch only sent)
  IsOnly-IsCovered topic r (s ∷ batch) (inr e, only) (i, sent) =
      (inr (subst (λ x. In (message x) topic) (sym e) i), IsOnly-IsCovered topic r batch only sent)

  covered :
      (topic ms : List (Message E)) (marked : ℕ) (batch : List (OutboxRow E))
      → All (λ s. In (message s) (topic ++ ms)) (take marked batch)
      → (r : OutboxRow E) → IsTold topic r × All (IsOnly r) batch
      → IsTold (topic ++ ms) r × IsCovered (topic ++ ms) (take marked batch) r
  covered topic ms marked batch sent r (t, only) = (
    IsTold-append topic ms r t,
    IsOnly-IsCovered (topic ++ ms) r (take marked batch) (All-take (IsOnly r) marked batch only)
        sent,
  )

  HasRelayed-IsDelivered :
      (now : ℕ) (batch rows rows' : List (OutboxRow E)) (topic topic' : List (Message E))
      → All (λ r. All (IsOnly r) batch) rows
      → IsDelivered topic rows
      → HasRelayed now batch rows topic rows' topic'
      → IsDelivered topic' rows'
  HasRelayed-IsDelivered now batch rows rows' topic topic' only h (sent, s, (marked, le, m)) =
      rw (s, m)
        (mark_all-IsDelivered (topic ++ map message (take sent batch)) now (take marked batch) rows
          (All-map (λ r. IsTold topic r × All (IsOnly r) batch) _
            (covered topic (map message (take sent batch)) marked batch
              (sent-In topic batch marked sent le))
            rows (All-both _ _ rows h only)))

  pub relay_batch-IsDelivered :
      (p : Pass) (batch_size : ℕ) (rows : List (OutboxRow E)) (topic : List (Message E))
      → IsKeyed rows
      → IsDelivered topic rows
      → let after = relay_batch p batch_size rows topic in IsDelivered after.1 after.0
  relay_batch-IsDelivered p batch_size rows topic keyed h =
      HasRelayed-IsDelivered p.now (claim p batch_size rows) rows _ topic _
        (All-map _ _ (λ r. claim-All (IsOnly r) p batch_size rows) rows (IsKeyed-IsOnly rows keyed))
        h (relay_batch-HasRelayed p batch_size rows topic)
