-- ===== src/Outbox/Ordered.antt =====
-- What one pass of the relay (pkg/outbox/relay.go) sends and marks, against the table's ids.
use neo_bank.Prelude.{
  ℕ, ◌≤◌, ◌≡◌, Bool, not, ◌&&◌, List, ◌++◌, map, some, take, select, exists, ltb, ◌==◌,
  if◌then◌else◌,
}
use neo_bank.Prelude.Top.{IsTop}
use neo_bank.Outbox.State.{OutboxRow}
use neo_bank.Outbox.Relay.{Message, Pass, message, is_unpublished}

module _ {E : Type 0} where
  abbrev is_older : OutboxRow E → OutboxRow E → Bool
  is_older r s = ltb r.id s.id

  abbrev is_waiting : Pass → OutboxRow E → Bool
  is_waiting p r = is_unpublished r && not (p.locked r.id)

  abbrev with_mark : ℕ → List (OutboxRow E) → OutboxRow E → OutboxRow E
  with_mark now batch r =
      if exists (λ s. r.id == s.id) batch then record r { published_at = some now } else r

  -- Of the rows that wait, unpublished and locked by no other instance, the pass takes those with the
  -- smallest ids. It sends the first of them and marks none, or the first of those it sent.
  abbrev pub IsRelayed :
      Pass
      → ℕ
      → List (OutboxRow E)
      → List (Message E)
      → List (OutboxRow E) × List (Message E)
      → Type 0
  IsRelayed p batch_size rows topic (rows', topic') =
      (batch : List (OutboxRow E)) × (sent : ℕ) × (marked : ℕ) × IsTop is_older batch_size batch
        (select (is_waiting p) rows)
      × (topic' ≡ topic ++ map message (take sent batch))
      × (marked ≤ sent)
      × (rows' ≡ map (with_mark p.now (take marked batch)) rows)
