-- ===== src/Notifications/Once.antt =====
-- The barrier row of an event (services/notifications-svc/contacts.go, kafka.go).
use neo_bank.Prelude.{
  ℕ, zero, suc, ◌≡◌, refl, sym, ap, ◌∙◌, Bool, true, false, List, [], ◌∷◌, Option, arith, ◌==◌,
  if◌then◌else◌, exists, Bool-cases, inl, inr,
}
use neo_bank.Prelude.Int.{ℤ}
use neo_bank.Prelude.Db.{
  Result, ok, err, connection, Conn, write, transaction, commit, CommitFate, committed, rolled_back,
  ack_lost, OnOk,
}
use neo_bank.Notifications.State.{
  EventStatus, EventRow, is_processing, with_claim, is_claimed, claim_event, set_status,
  finish_event, Contact,
}
use neo_bank.Notifications.Send.{
  MailBody, Mail, TransferEvent, event_id_of, Handling, Notes, finish_transfer_event, finish_after,
  mail_to, notify_one, notify_recipient, notify_both, notify, after_claim, handle_transfer_event,
}

abbrev has_row : ℕ → List EventRow → Bool
has_row event rows = exists (λ r. r.event_id == event) rows

-- The event is closed: its row is there and says sent or skipped.
abbrev pub IsClosed : ℕ → Notes → Type 0
IsClosed event n = is_claimed event n.events ≡ false

with_claim-closed :
    (event : ℕ) (rows : List EventRow)
    → is_claimed event rows ≡ false
    → with_claim event rows ≡ rows
with_claim-closed event [] e = cc
with_claim-closed event (r ∷ rows) e = elim (Bool-cases (r.event_id == event)) [
  | inl t ↦ rw t refl
  | inr f ↦ rw f (ap (λ rs. r ∷ rs) (with_claim-closed event rows (rw f at e)))
]

with_claim-has_row :
    (event : ℕ) (rows : List EventRow) → has_row event (with_claim event rows) ≡ true
with_claim-has_row event [] = ground arith
with_claim-has_row event (r ∷ rows) = elim (Bool-cases (r.event_id == event)) [
  | inl t ↦ rw (t, t) refl
  | inr f ↦ rw (f, f) (with_claim-has_row event rows)
]

set_status-closed :
    (s : EventStatus) (event : ℕ) (rows : List EventRow)
    → is_processing s ≡ false
    → has_row event rows ≡ true
    → is_claimed event (set_status s event rows) ≡ false
set_status-closed s event [] p h = cc
set_status-closed s event (r ∷ rows) p h = elim (Bool-cases (r.event_id == event)) [
  | inl t ↦ rw (t, t) p
  | inr f ↦ rw (f, f) (set_status-closed s event rows p (rw f at h))
]

-- A handler that succeeds has closed the event.
abbrev pub Closes : ℕ → Result (Unit {0}) × Notes → Type 0
Closes event (out, n) = OnOk (λ done. IsClosed event n) out

claim-again :
    (c : Conn) (event : ℕ) (rows : List EventRow)
    → is_claimed event rows ≡ false
    → (claim_event c event rows).1 ≡ rows
unfolding claim_event
claim-again c event rows e =
    elim (c.fails 0)
      as (λ b.
        (transaction {A = Bool} c rows (
          if b
          then err connection
          else ok (write (is_claimed event rows) (with_claim event rows)))).1
        ≡ rows) [ true ↦ refl | false ↦ by_fate c.commit_fate ]
  where
    by_fate :
        (f : CommitFate)
        → (commit {A = Bool} f rows (with_claim event rows) (is_claimed event rows)).1 ≡ rows
    by_fate committed = with_claim-closed event rows e
    by_fate rolled_back = refl
    by_fate ack_lost = with_claim-closed event rows e

finish_event-Closes :
    (c : Conn) (s : EventStatus) (event : ℕ) (n : Notes)
    → is_processing s ≡ false
    → has_row event n.events ≡ true
    → let (out, rows) = finish_event c event s n.events in
      Closes event (out, record n { events = rows })
unfolding finish_event
finish_event-Closes c s event n p h =
    elim (c.fails 0)
      as (λ b.
        let (out, rows) =
          transaction {A = Unit {0}} c n.events
            (if b then err connection else ok (write tt (set_status s event n.events))) in
        Closes event (out, record n { events = rows })) [
          | true ↦ tt
          | false ↦ by_fate c.commit_fate
        ]
  where
    by_fate :
        (f : CommitFate)
        → let (out, rows) = commit {A = Unit {0}} f n.events (set_status s event n.events) tt in
          Closes event (out, record n { events = rows })
    by_fate committed = set_status-closed s event n.events p h
    by_fate rolled_back = tt
    by_fate ack_lost = tt

finish_transfer_event-Closes :
    (h : Handling) (event count : ℕ) (n : Notes)
    → has_row event n.events ≡ true
    → Closes event (finish_transfer_event h event count n)
finish_transfer_event-Closes h event zero n r =
    finish_event-Closes h.finish_conn EventStatus.skipped event n refl r
finish_transfer_event-Closes h event (suc count) n r =
    finish_event-Closes h.finish_conn EventStatus.sent event n refl r

finish_after-Closes :
    (h : Handling) (event before : ℕ) (n : Notes) (out : Result ℕ × List Mail)
    → has_row event n.events ≡ true
    → Closes event (finish_after h event before n out)
finish_after-Closes h event before n (err e, mails) r = tt
finish_after-Closes h event before n (ok count, mails) r =
    finish_transfer_event-Closes h event _ (record n { mails = mails }) r

notify_one-Closes :
    (h : Handling) (event : ℕ) (body : MailBody) (n : Notes) (found : Result (Option Contact))
    → has_row event n.events ≡ true
    → Closes event (notify_one h event body n found)
notify_one-Closes h event body n (err e) r = tt
notify_one-Closes h event body n (ok found) r =
    finish_after-Closes h event 0 n (mail_to h 0 found body n.mails) r

notify_recipient-Closes :
    (h : Handling) (event : ℕ) (amount : ℤ) (transfer : ℕ) (sender recipient : Option Contact)
    (n : Notes) (out : Result ℕ × List Mail)
    → has_row event n.events ≡ true
    → Closes event (notify_recipient h event amount transfer sender recipient n out)
notify_recipient-Closes h event amount transfer sender recipient n (err e, mails) r = tt
notify_recipient-Closes h event amount transfer sender recipient n (ok count, mails) r =
    finish_after-Closes h event count (record n { mails = mails }) _ r

notify_both-Closes :
    (h : Handling) (event : ℕ) (amount : ℤ) (transfer : ℕ) (n : Notes)
    (found : Result (Option Contact × Option Contact))
    → has_row event n.events ≡ true
    → Closes event (notify_both h event amount transfer n found)
notify_both-Closes h event amount transfer n (err e) r = tt
notify_both-Closes h event amount transfer n (ok (s, t)) r =
    notify_recipient-Closes h event amount transfer s t n _ r

notify-Closes :
    (h : Handling) (e : TransferEvent) (n : Notes)
    → has_row (event_id_of e) n.events ≡ true
    → Closes (event_id_of e) (notify h e n)
notify-Closes h (TransferEvent.completed event amount transfer sender recipient) n r =
    notify_both-Closes h event amount transfer n _ r
notify-Closes h (TransferEvent.failed event amount transfer sender reason) n r =
    notify_one-Closes h event _ n _ r
notify-Closes h (TransferEvent.rejected event amount transfer sender rule) n r =
    notify_one-Closes h event _ n _ r
notify-Closes h (TransferEvent.credited event amount deposit account) n r =
    notify_one-Closes h event _ n _ r

-- What a claim that answers has found.
abbrev Claims : ℕ → Result Bool × List EventRow → Type 0
Claims event (out, rows) =
    OnOk (λ claimed. (has_row event rows ≡ true) × ((is_claimed event rows ≡ claimed))) out

with_claim-is_claimed :
    (event : ℕ) (rows : List EventRow)
    → is_claimed event (with_claim event rows) ≡ is_claimed event rows
with_claim-is_claimed event [] = ground arith
with_claim-is_claimed event (r ∷ rows) = elim (Bool-cases (r.event_id == event)) [
  | inl t ↦ rw (t, t) refl
  | inr f ↦ rw (f, f) (with_claim-is_claimed event rows)
]

claim_event-Claims :
    (c : Conn) (event : ℕ) (rows : List EventRow) → Claims event (claim_event c event rows)
unfolding claim_event
claim_event-Claims c event rows =
    elim (c.fails 0)
      as (λ b. Claims event (
        transaction {A = Bool} c rows (
          if b
          then err connection
          else ok (write (is_claimed event rows) (with_claim event rows))))) [
            | true ↦ tt
            | false ↦ by_fate c.commit_fate
          ]
  where
    by_fate :
        (f : CommitFate)
        → Claims event (commit {A = Bool} f rows (with_claim event rows) (is_claimed event rows))
    by_fate committed = (with_claim-has_row event rows, with_claim-is_claimed event rows)
    by_fate rolled_back = tt
    by_fate ack_lost = tt

-- If a handler returns no error, the event is closed.
pub handle_transfer_event-Closes :
    (h : Handling) (e : TransferEvent) (n : Notes)
    → Closes (event_id_of e) (handle_transfer_event h e n)
unfolding handle_transfer_event
handle_transfer_event-Closes h e n =
    by_claim (claim_event h.claim_conn (event_id_of e) n.events)
      (claim_event-Claims h.claim_conn (event_id_of e) n.events)
  where
    by_claim :
        (claimed : Result Bool × List EventRow)
        → Claims (event_id_of e) claimed
        → Closes (event_id_of e) (after_claim h e n.mails claimed)
    by_claim (err f, rows) k = tt
    by_claim (ok false, rows) (r, c) = c
    by_claim (ok true, rows) (r, c) =
        notify-Closes h e (record { events = rows; mails = n.mails }) r

-- An event that is closed sends no mail again: handled once more, whatever fails, it changes neither
-- the events nor the mails.
pub handle_transfer_event_again :
    (h : Handling) (e : TransferEvent) (n : Notes)
    → IsClosed (event_id_of e) n
    → (handle_transfer_event h e n).1 ≡ n
unfolding handle_transfer_event
handle_transfer_event_again h e n closed =
    by_claim (claim_event h.claim_conn (event_id_of e) n.events) refl
      (claim_event-Claims h.claim_conn (event_id_of e) n.events)
  where
    clash : {b : Bool} → b ≡ true → b ≡ false → ⊥
    clash f g = cc

    same : (claim_event h.claim_conn (event_id_of e) n.events).1 ≡ n.events
    same = claim-again h.claim_conn (event_id_of e) n.events closed

    rows_same :
        {o : Result Bool} {rs : List EventRow}
        → claim_event h.claim_conn (event_id_of e) n.events ≡ (o, rs)
        → rs ≡ n.events
    rows_same q = sym (ap (λ p. p.1) q) ∙ same

    by_claim :
        (claimed : Result Bool × List EventRow)
        → claim_event h.claim_conn (event_id_of e) n.events ≡ claimed
        → Claims (event_id_of e) claimed
        → (after_claim h e n.mails claimed).1 ≡ n
    by_claim (err f, rows) q k = ap (λ rs. record n { events = rs }) (rows_same q)
    by_claim (ok false, rows) q k = ap (λ rs. record n { events = rs }) (rows_same q)
    by_claim (ok true, rows) q (r, c) =
        absurd (clash (ap (is_claimed (event_id_of e)) (sym (rows_same q)) ∙ c) closed)
