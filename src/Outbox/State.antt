-- ===== src/Outbox/State.antt =====
-- The outbox table (the shape that pkg/outbox/outbox.go states) and InsertEvent. A row's payload
-- and type are one value, its event. `trace_context` is left out. Rows inserted later stand first.
use neo_bank.Prelude.{ℕ, List, ◌∷◌, Option, none}

pub record OutboxRow (E : Type 0) : Type 0 where
  pub id : ℕ
  pub event_id : ℕ
  pub event : E
  pub partition_key : ℕ
  pub created_at : ℕ
  pub published_at : Option ℕ

-- What one insert draws: the BIGSERIAL, GenerateEventID's random id, and now().
pub record Draw : Type 0 where
  pub serial : ℕ
  pub event_id : ℕ
  pub now : ℕ

abbrev pub event_row : {E : Type 0} → Draw → E → ℕ → OutboxRow E
event_row d event partition_key = record {
  id = d.serial;
  event_id = d.event_id;
  event = event;
  partition_key = partition_key;
  created_at = d.now;
  published_at = none;
}

abbrev pub insert_event : {E : Type 0} → Draw → E → ℕ → List (OutboxRow E) → List (OutboxRow E)
insert_event d event partition_key rows = event_row d event partition_key ∷ rows
