-- ===== src/Notifications/Send.antt =====
-- The handlers of transfer events in services/notifications-svc/kafka.go, and sendEmailWithRetry of
-- email.go. What SMTP does with a mail is an argument; the mails are kept as what they are built from.
use neo_bank.Prelude.{ℕ, zero, suc, ◌+◌, Bool, true, false, List, ◌∷◌, Option, none, some, String}
use neo_bank.Prelude.Int.{ℤ}
use neo_bank.Prelude.Db.{Result, ok, err, malformed, remote_call, ◌>>=◌, Conn}
use neo_bank.Notifications.State.{
  EventStatus, skipped, Contact, EventRow, get_contact_by_account_id, claim_event, finish_event,
}

-- What a mail tells: the amount and the transfer or deposit, the other side's account number where
-- it is known, and the reason of a failure.
pub data MailBody : Type 0 where
  transfer_sent transfer_received : ℤ → ℕ → Option ℕ → MailBody
  transfer_failed : ℤ → ℕ → String → MailBody
  transfer_declined deposit_credited : ℤ → ℕ → MailBody

pub record Mail : Type 0 where
  pub to : ℕ
  pub body : MailBody

-- The events of the topic: id, amount, transfer or deposit, accounts, the reason or the rule.
pub data TransferEvent : Type 0 where
  completed : ℕ → ℤ → ℕ → ℕ → ℕ → TransferEvent
  failed rejected : ℕ → ℤ → ℕ → ℕ → String → TransferEvent
  credited : ℕ → ℤ → ℕ → ℕ → TransferEvent

-- smtp.SendMail: the mail is taken, it is taken and the answer is an error, or it is refused.
pub data SendOutcome : Type 0 where
  taken unsure refused : SendOutcome

-- What one attempt at an event meets; the contacts are those that the k-th lookup finds.
pub record Handling : Type 0 where
  pub claim_conn : Conn
  pub contacts : ℕ → List Contact
  pub lookup_fails : ℕ → Bool
  pub sends : ℕ → SendOutcome
  pub finish_conn : Conn

pub record Notes : Type 0 where
  pub events : List EventRow
  pub mails : List Mail

-- `left` attempts, of 3, are left; k counts the sends.
abbrev pub after_send :
    SendOutcome
    → Mail
    → List Mail
    → (List Mail → Result (Unit {0}) × List Mail)
    → Result (Unit {0}) × List Mail
after_send taken m mails rest = (ok tt, m ∷ mails)
after_send unsure m mails rest = rest (m ∷ mails)
after_send refused m mails rest = rest mails

unfoldable pub send_email_with_retry :
    ℕ → (ℕ → SendOutcome) → ℕ → Mail → List Mail → Result (Unit {0}) × List Mail
send_email_with_retry zero sends k m mails = (err remote_call, mails)
send_email_with_retry (suc left) sends k m mails =
    after_send (sends k) m mails λ mails'. send_email_with_retry left sends (suc k) m mails'

abbrev pub send_attempts : ℕ
send_attempts = 3

abbrev pub contact_wait_attempts : ℕ
contact_wait_attempts = 15

abbrev found_or : Option Contact → Result (Option Contact) → Result (Option Contact)
found_or (some c) rest = ok (some c)
found_or none rest = rest

-- `left` lookups are left.
unfoldable pub wait_for_contact : ℕ → Handling → ℕ → ℕ → Result (Option Contact)
wait_for_contact zero h k account = ok none
wait_for_contact (suc left) h k account =
    let rest = wait_for_contact left h (suc k) account in
    get_contact_by_account_id (h.lookup_fails k) account (h.contacts k) >>= λ found.
    found_or found rest

abbrev number_of : Option Contact → Option ℕ
number_of none = none
number_of (some c) = c.account_number

-- A mail to a contact, if there is one; the number of mails sent.
abbrev pub mail_to : Handling → ℕ → Option Contact → MailBody → List Mail → Result ℕ × List Mail
mail_to h k none body mails = (ok 0, mails)
mail_to h k (some c) body mails =
    let (out, mails') =
      send_email_with_retry send_attempts h.sends k (record { to = c.email; body = body }) mails in
    (out >>= λ done. ok 1, mails')

-- finishTransferEvent
abbrev pub finish_transfer_event : Handling → ℕ → ℕ → Notes → Result (Unit {0}) × Notes
finish_transfer_event h event zero n =
    let (out, rows) = finish_event h.finish_conn event skipped n.events in
    (out, record n { events = rows })
finish_transfer_event h event (suc count) n =
    let (out, rows) = finish_event h.finish_conn event EventStatus.sent n.events in
    (out, record n { events = rows })

abbrev pub finish_after :
    Handling → ℕ → ℕ → Notes → Result ℕ × List Mail → Result (Unit {0}) × Notes
finish_after h event before n (err e, mails) = (err e, record n { mails = mails })
finish_after h event before n (ok count, mails) =
    finish_transfer_event h event (before + count) (record n { mails = mails })

-- The one mail of the other three events.
abbrev pub notify_one :
    Handling → ℕ → MailBody → Notes → Result (Option Contact) → Result (Unit {0}) × Notes
notify_one h event body n (err e) = (err e, n)
notify_one h event body n (ok found) = finish_after h event 0 n (mail_to h 0 found body n.mails)

abbrev pub notify_recipient :
    Handling
    → ℕ
    → ℤ
    → ℕ
    → Option Contact
    → Option Contact
    → Notes
    → Result ℕ × List Mail
    → Result (Unit {0}) × Notes
notify_recipient h event amount transfer sender recipient n (err e, mails) =
    (err e, record n { mails = mails })
notify_recipient h event amount transfer sender recipient n (ok count, mails) =
    finish_after h event count (record n { mails = mails })
      (mail_to h 3 recipient (transfer_received amount transfer (number_of sender)) mails)

abbrev pub notify_both :
    Handling
    → ℕ
    → ℤ
    → ℕ
    → Notes
    → Result (Option Contact × Option Contact)
    → Result (Unit {0}) × Notes
notify_both h event amount transfer n (err e) = (err e, n)
notify_both h event amount transfer n (ok (sender, recipient)) =
    notify_recipient h event amount transfer sender recipient n
      (mail_to h 0 sender (transfer_sent amount transfer (number_of recipient)) n.mails)

abbrev pub look_up_both : Handling → ℕ → ℕ → Result (Option Contact × Option Contact)
look_up_both h sender recipient = do
  s ← wait_for_contact contact_wait_attempts h 0 sender
  r ← wait_for_contact contact_wait_attempts h contact_wait_attempts recipient
  ok (s, r)

-- Each handler once the event is claimed.
abbrev pub notify : Handling → TransferEvent → Notes → Result (Unit {0}) × Notes
notify h (completed event amount transfer sender recipient) n =
    notify_both h event amount transfer n (look_up_both h sender recipient)
notify h (failed event amount transfer sender reason) n =
    notify_one h event (transfer_failed amount transfer reason) n
      (wait_for_contact contact_wait_attempts h 0 sender)
notify h (rejected event amount transfer sender rule) n =
    notify_one h event (transfer_declined amount transfer) n
      (wait_for_contact contact_wait_attempts h 0 sender)
notify h (credited event amount deposit account) n =
    notify_one h event (deposit_credited amount deposit) n
      (wait_for_contact contact_wait_attempts h 0 account)

abbrev pub event_id_of : TransferEvent → ℕ
event_id_of (completed event _ _ _ _) = event
event_id_of (failed event _ _ _ _) = event
event_id_of (rejected event _ _ _ _) = event
event_id_of (credited event _ _ _) = event

abbrev pub after_claim :
    Handling → TransferEvent → List Mail → Result Bool × List EventRow → Result (Unit {0}) × Notes
after_claim h e mails (err f, rows) = (err f, record { events = rows; mails = mails })
after_claim h e mails (ok false, rows) = (ok tt, record { events = rows; mails = mails })
after_claim h e mails (ok true, rows) = notify h e (record { events = rows; mails = mails })

unfoldable pub handle_transfer_event : Handling → TransferEvent → Notes → Result (Unit {0}) × Notes
handle_transfer_event h e n =
    after_claim h e n.mails (claim_event h.claim_conn (event_id_of e) n.events)

-- processTransferMessage: none where the header or the bytes name no event.
unfoldable pub process_transfer_message :
    Handling → Option TransferEvent → Notes → Result (Unit {0}) × Notes
process_transfer_message h none n = (err malformed, n)
process_transfer_message h (some e) n = handle_transfer_event h e n
