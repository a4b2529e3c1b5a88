-- ===== src/Notifications/Consume.antt =====
-- handleTransferMessageWithRetry, transferRetryDelay and sendToDLQ of services/notifications-svc/kafka.go,
-- in milliseconds since the message was fetched. What each attempt meets is an argument.
use neo_bank.Prelude.{
  ℕ, zero, suc, ◌+◌, ◌-◌, ◌*◌, ◌^◌, Bool, true, false, List, ◌∷◌, Option, none, some, ltb,
  if◌then◌else◌,
}
use neo_bank.Prelude.Db.{Result, ok, err, Conn}
use neo_bank.Pgha.Errors.{GoError, is_unavailable}
use neo_bank.Notifications.State.{skipped, finish_event}
use neo_bank.Notifications.Send.{
  TransferEvent, event_id_of, Handling, Notes, process_transfer_message,
}

abbrev pub transfer_max_attempts : ℕ
transfer_max_attempts = 5

abbrev pub transfer_unavailable_budget : ℕ
transfer_unavailable_budget = 300_000

abbrev pub transfer_unavailable_retry_delay : ℕ
transfer_unavailable_retry_delay = 2_000

abbrev pub transfer_retry_delay : ℕ → ℕ
transfer_retry_delay attempt = let d = 500 * 2 ^ (attempt - 1) in if ltb 8_000 d then 8_000 else d

-- The offset of a message, and the event that its header and bytes name.
pub record Message : Type 0 where
  pub offset : ℕ
  pub event : Option TransferEvent

-- One attempt: what it meets, what its error says of itself if it fails, how long it takes and how
-- much longer than asked the sleep after it.
pub record Round : Type 0 where
  pub handling : Handling
  pub failure : GoError
  pub took : ℕ
  pub overslept : ℕ

-- What the consumer writes: the service's tables and mails, the dead letters that Kafka took, and the
-- offsets that it committed.
pub record Partition : Type 0 where
  pub notes : Notes
  pub dead_letters : List ℕ
  pub commits : List ℕ

-- What the end of a message meets: whether Kafka takes the dead letter, the transaction that closes the
-- event, and whether CommitMessages succeeds.
pub record Giving : Type 0 where
  pub dlq_taken : Bool
  pub finish_conn : Conn
  pub commit_taken : Bool

-- A commit that fails is only logged.
abbrev pub commit_message : Giving → Message → Partition → Partition
commit_message g m p = if g.commit_taken then record p { commits = m.offset ∷ p.commits } else p

abbrev pub send_to_dlq : Giving → Message → Partition → Partition
send_to_dlq g m p = if g.dlq_taken then record p { dead_letters = m.offset ∷ p.dead_letters } else p

abbrev pub close_event : Giving → Option TransferEvent → Partition → Partition
close_event g none p = p
close_event g (some e) p = record p {
  notes = record p.notes {
    events = (finish_event g.finish_conn (event_id_of e) skipped p.notes.events).1;
  };
}

abbrev pub give_up : Giving → Message → Partition → Partition
give_up g m p = commit_message g m (close_event g m.event (send_to_dlq g m p))

-- After a failed attempt, at this time: by whether the database was unavailable.
abbrev pub after_failure :
    Giving → Message → Bool → ℕ → ℕ → Partition → Option Partition → Option Partition
after_failure g m true attempt now p rest =
    if ltb now transfer_unavailable_budget then rest else some (give_up g m p)
after_failure g m false attempt now p rest =
    if ltb attempt transfer_max_attempts then rest else some (give_up g m p)

abbrev pub after_process :
    Giving
    → Message
    → Bool
    → ℕ
    → ℕ
    → Partition
    → Result (Unit {0})
    → Option Partition
    → Option Partition
after_process g m unavailable attempt now p (ok done) rest = some (commit_message g m p)
after_process g m unavailable attempt now p (err e) rest =
    after_failure g m unavailable attempt now p rest

abbrev pub next_time : Bool → ℕ → ℕ → ℕ
next_time true attempt now = now + transfer_unavailable_retry_delay
next_time false attempt now = now + transfer_retry_delay attempt

-- An attempt at which the database was unavailable is not counted.
abbrev pub next_attempt : Bool → ℕ → ℕ
next_attempt true attempt = attempt
next_attempt false attempt = suc attempt

-- The loop from round k on; none where the fuel is used up.
unfoldable pub retry_message :
    ℕ → Giving → (ℕ → Round) → Message → ℕ → ℕ → ℕ → Partition → Option Partition
retry_message zero g rounds m k attempt now p = none
retry_message (suc fuel) g rounds m k attempt now p =
    let r = rounds k in
    let (out, notes) = process_transfer_message r.handling m.event p.notes in
    let p' = record p { notes = notes } in
    let unavailable = is_unavailable r.failure in
    let rest =
      retry_message fuel g rounds m (suc k) (next_attempt unavailable attempt)
        (next_time unavailable attempt (now + r.took) + r.overslept) p' in
    after_process g m unavailable attempt (now + r.took) p' out rest

-- Five attempts, and one for each two seconds of the budget.
unfoldable pub handle_transfer_message_with_retry :
    Giving → (ℕ → Round) → Message → Partition → Option Partition
handle_transfer_message_with_retry g rounds m p = retry_message 155 g rounds m 0 1 0 p
