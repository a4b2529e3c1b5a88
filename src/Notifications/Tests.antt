-- ===== src/Notifications/Tests.antt =====
-- A completed transfer between two contacts.
use neo_bank.Prelude.{ℕ, ◌≡◌, refl, true, false, [], ◌∷◌, none, some}
use neo_bank.Prelude.Int.{pos}
use neo_bank.Prelude.Db.{good, ok}
use neo_bank.Pgha.Errors.{GoError, is_unavailable}
use neo_bank.Notifications.State.{EventStatus, Contact, claim_event, finish_event}
use neo_bank.Notifications.Send.{
  transfer_sent, transfer_received, TransferEvent, completed, taken, Handling, Notes,
  send_email_with_retry, wait_for_contact, handle_transfer_event, process_transfer_message,
}
use neo_bank.Notifications.Consume.{
  Message, Round, Partition, Giving, retry_message, handle_transfer_message_with_retry,
}
use neo_bank.Notifications.Once.{handle_transfer_event_again}
use neo_bank.Notifications.Ends.{EndsAt, handle_transfer_message_with_retry-EndsAt}

abbrev contact : ℕ → ℕ → Contact
contact account email = record {
  user_id = account;
  email = email;
  account_id = some account;
  account_number = some 5;
}

abbrev handling : Handling
handling = record {
  claim_conn = good;
  contacts = λ k. contact 2 20 ∷ contact 3 30 ∷ [];
  lookup_fails = λ k. false;
  sends = λ k. taken;
  finish_conn = good;
}

abbrev event : TransferEvent
event = completed 7 (pos 40) 8 2 3

abbrev nothing_yet : Notes
nothing_yet = record { events = []; mails = [] }

abbrev told : Notes
told = record {
  events = record { event_id = 7; event_status = EventStatus.sent } ∷ [];
  mails =
      record { to = 30; body = transfer_received (pos 40) 8 (some 5) }
      ∷ record { to = 20; body = transfer_sent (pos 40) 8 (some 5) }
      ∷ [];
}

tells_both : handle_transfer_event handling event nothing_yet ≡ (ok tt, told)
unfolding handle_transfer_event claim_event finish_event wait_for_contact send_email_with_retry
tells_both = refl

handle_transfer_event_again_example : (handle_transfer_event handling event told).1 ≡ told
handle_transfer_event_again_example = handle_transfer_event_again handling event told refl

-- An error that says nothing of the database.
abbrev plain_error : GoError
plain_error = record {
  connect_error = false;
  context_error = false;
  end_of_file = false;
  net_error = false;
  sql_state = none;
  safe_to_retry = false;
  contains = λ fragment. false;
  standby = false;
}

abbrev rounds : ℕ → Round
rounds k = record { handling = handling; failure = plain_error; took = 10; overslept = 0 }

abbrev giving : Giving
giving = record { dlq_taken = true; finish_conn = good; commit_taken = true }

abbrev partition : Partition
partition = record { notes = nothing_yet; dead_letters = []; commits = [] }

abbrev poison : Message
poison = record { offset = 4; event = none }

dead_letter :
    handle_transfer_message_with_retry giving rounds poison partition
    ≡ some (record partition { dead_letters = 4 ∷ []; commits = 4 ∷ [] })
unfolding handle_transfer_message_with_retry retry_message process_transfer_message is_unavailable
dead_letter = refl

handle_transfer_message_with_retry-EndsAt_example :
    EndsAt giving rounds poison partition
      (handle_transfer_message_with_retry giving rounds poison partition)
handle_transfer_message_with_retry-EndsAt_example =
    handle_transfer_message_with_retry-EndsAt giving rounds poison partition
