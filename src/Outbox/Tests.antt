-- ===== src/Outbox/Tests.antt =====
-- Three rows, one of them published, and a pass on which Kafka does not answer for the last row.
use neo_bank.Prelude.{
  ℕ, ◌≡◌, refl, inl, inr, false, ◌+◌, List, [], ◌∷◌, map, none, some, if◌then◌else◌, ◌==◌, All,
  count, arith,
}
use neo_bank.Prelude.Members.{In}
use neo_bank.Prelude.Sorting.{sort, insert}
use neo_bank.Prelude.Db.{good, ok}
use neo_bank.Outbox.State.{OutboxRow}
use neo_bank.Outbox.Relay.{
  Message, Pass, confirmed, unconfirmed, message, is_unpublished, claim, relay_each, relay_batch,
  run_relay, cleanup_published,
}
use neo_bank.Outbox.Delivered.{IsDelivered, IsKeyed}
use neo_bank.Outbox.Cleaned.{Keeps, cleanup_published-Keeps}
use neo_bank.Outbox.Drained.{good_pass, run_relay_drains}

abbrev row : ℕ → OutboxRow ℕ
row id = record {
  id = id;
  event_id = id + 100;
  event = 7;
  partition_key = 1;
  created_at = 0;
  published_at = none;
}

abbrev table : List (OutboxRow ℕ)
table = row 3 ∷ row 2 ∷ record (row 1) { published_at = some 4 } ∷ []

abbrev topic : List (Message ℕ)
topic = message (row 1) ∷ []

-- The answer for row 3 is lost.
abbrev half_pass : Pass
half_pass = record {
  conn = good;
  now = 9;
  locked = λ id. false;
  delivery = λ id. if id == 3 then unconfirmed else confirmed;
}

relays_half : relay_batch half_pass 10 table topic ≡ (
  row 3 ∷ record (row 2) { published_at = some 9 } ∷ record (row 1) { published_at = some 4 } ∷ [],
  map message (row 1 ∷ row 2 ∷ row 3 ∷ []),
)
unfolding relay_batch claim relay_each sort insert
relays_half = refl

cleans : cleanup_published good 20 10 table ≡ (ok 1, row 3 ∷ row 2 ∷ [])
unfolding cleanup_published
cleans = refl

table-IsKeyed : IsKeyed table
table-IsKeyed = ((refl, (refl, tt)), ((refl, tt), (tt, tt)))

table-IsDelivered : IsDelivered topic table
table-IsDelivered = (inl refl, (inl refl, (inr (inl refl), tt)))

cleanup_published-Keeps_example : Keeps good 20 10 table (cleanup_published good 20 10 table)
cleanup_published-Keeps_example = cleanup_published-Keeps good 20 10 table

run_relay_drains_example :
    let after = run_relay (map good_pass (9 ∷ 10 ∷ [])) 1 table topic in
    (count is_unpublished after.0 ≡ 0) × All (λ m. In m after.1) (map message table)
run_relay_drains_example =
    run_relay_drains (9 ∷ 10 ∷ []) 1 table topic table-IsKeyed table-IsDelivered (omega arith)
