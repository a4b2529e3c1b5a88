-- ===== src/Notifications/State.antt =====
-- The tables of services/notifications-svc (contacts.go): the contacts, and one barrier row for each
-- event. Email addresses and account numbers are numbers, an empty one is none.
use neo_bank.Prelude.{
  ℕ, Bool, true, false, List, [], ◌∷◌, Option, none, some, ◌==◌, if◌then◌else◌, find,
}
use neo_bank.Prelude.Db.{Result, ok, err, connection, Conn, stmt, write, transaction}

pub data EventStatus : Type 0 where
  processing sent skipped : EventStatus

pub record Contact : Type 0 where
  pub user_id : ℕ
  pub email : ℕ
  pub account_id : Option ℕ
  pub account_number : Option ℕ

-- A row of notifications_processed_events.
pub record EventRow : Type 0 where
  pub event_id : ℕ
  pub event_status : EventStatus

-- WHERE account_id = $1, which is never true of a NULL.
abbrev is_account : ℕ → Option ℕ → Bool
is_account account none = false
is_account account (some a) = a == account

abbrev pub get_contact_by_account_id : Bool → ℕ → List Contact → Result (Option Contact)
get_contact_by_account_id fails account contacts =
    if fails then err connection else ok (find (λ c. is_account account c.account_id) contacts)

abbrev pub is_processing : EventStatus → Bool
is_processing EventStatus.processing = true
is_processing _ = false

-- INSERT ... 'processing' ON CONFLICT (event_id) DO UPDATE SET status = its own value
abbrev pub with_claim : ℕ → List EventRow → List EventRow
with_claim event [] = record { event_id = event; event_status = EventStatus.processing } ∷ []
with_claim event (r ∷ rows) =
    let rest = with_claim event rows in if r.event_id == event then r ∷ rows else r ∷ rest

-- RETURNING status, true where it is 'processing'.
abbrev pub is_claimed : ℕ → List EventRow → Bool
is_claimed event [] = true
is_claimed event (r ∷ rows) =
    if r.event_id == event then is_processing r.event_status else is_claimed event rows

unfoldable pub claim_event : Conn → ℕ → List EventRow → Result Bool × List EventRow
claim_event c event rows =
    transaction c rows (stmt c 0 (ok (write (is_claimed event rows) (with_claim event rows))))

-- UPDATE ... SET status = $1 WHERE event_id = $2
abbrev pub set_status : EventStatus → ℕ → List EventRow → List EventRow
set_status s event [] = []
set_status s event (r ∷ rows) =
    (if r.event_id == event then record r { event_status = s } else r) ∷ set_status s event rows

unfoldable pub finish_event :
    Conn → ℕ → EventStatus → List EventRow → Result (Unit {0}) × List EventRow
finish_event c event s rows =
    transaction c rows (stmt c 0 (ok (write tt (set_status s event rows))))
