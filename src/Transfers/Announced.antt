-- ===== src/Transfers/Announced.antt =====
-- The status writers of transfer.go and the events that they queue in the outbox.
use neo_bank.Prelude.{
  ℕ, ◌≡◌, refl, inl, inr, Bool, true, false, ◌||◌, List, [], ◌∷◌, Option, none, some, String, arith,
  ◌==◌, if◌then◌else◌, find, update, exists, All, count, Bool-cases,
}
use neo_bank.Prelude.Db.{
  Result, ok, err, OnOk, OnOk-bind, OnOk-step, Conn, begin, Work, roll_back, write, transaction,
  CommitFate, committed, rolled_back, ack_lost, commit,
}
use neo_bank.Outbox.State.{OutboxRow, Draw, event_row}
use neo_bank.Transfers.State.{
  Transfer, TransferStatus, completed, failed, rejected, Event, transfer_completed, transfer_failed,
  transfer_rejected, TransfersDb, has_id, is_pending,
}
use neo_bank.Transfers.Mark.{
  uuid_text, mark, returned, mark_if_pending, is_pending_id, mark_transfer_completed,
  mark_transfer_failed, mark_transfer_rejected, mark_transfer_completed_if_pending,
  mark_transfer_failed_if_pending,
}

-- The event that says of a transfer what its status is.
abbrev tells : ℕ → TransferStatus → Event → Bool
tells id completed (transfer_completed i s r a l) = i == id
tells id failed (transfer_failed i s r a reason) = i == id
tells id rejected (transfer_rejected i s r a rule) = i == id
tells id _ _ = false

abbrev told : List (OutboxRow Event) → ℕ → TransferStatus → Bool
told rows id s = exists (λ r. tells id s r.event) rows

-- A transfer is pending, or the outbox holds the event of its status.
abbrev pub IsAnnounced : TransfersDb → Type 0
IsAnnounced db =
    All (λ t. (is_pending t.status || told db.outbox t.id t.status) ≡ true) db.transfers

abbrev IsAnnouncedIn : List (OutboxRow Event) → Transfer → Type 0
IsAnnouncedIn rows t = (is_pending t.status || told rows t.id t.status) ≡ true

update-IsAnnouncedIn :
    (p : Transfer → Bool) (change : Transfer → Transfer) (row : OutboxRow Event)
    (rows : List (OutboxRow Event))
    → ((t : Transfer) → p t ≡ true → tells (change t).id (change t).status row.event ≡ true)
    → (ts : List Transfer) → All (IsAnnouncedIn rows) ts
    → All (IsAnnouncedIn (row ∷ rows)) (update p change ts)
update-IsAnnouncedIn p change row rows h [] a = tt
update-IsAnnouncedIn p change row rows h (t ∷ ts) a =
    (by_row (p t) (h t) a.0, update-IsAnnouncedIn p change row rows h ts a.1)
  where
    by_row :
        (b : Bool)
        → (b ≡ true → tells (change t).id (change t).status row.event ≡ true)
        → IsAnnouncedIn rows t
        → IsAnnouncedIn (row ∷ rows) (if b then change t else t)
    by_row true g e = told_now _ _ (is_pending (change t).status) (g refl)
      where
        told_now : (v w u : Bool) → v ≡ true → (u || (v || w)) ≡ true
        told_now v w true e = refl
        told_now true w false e = refl
        told_now false w false e = cc
    by_row false g e = still (tells t.id t.status row.event) _ (is_pending t.status) e
      where
        still : (v w u : Bool) → (u || w) ≡ true → (u || (v || w)) ≡ true
        still v w true e = refl
        still true w false e = refl
        still false w false e = e

find-has_id :
    (id : ℕ) (ts : List Transfer) (t : Transfer) → find (has_id id) ts ≡ some t → t.id ≡ id
find-has_id id [] t e = cc
find-has_id id (x ∷ ts) t e = ground (arith, find-has_id id ts t)

abbrev IsAnnouncedWork : {A : Type 0} → Work TransfersDb A → Type 0
IsAnnouncedWork (roll_back a) = Unit {0}
IsAnnouncedWork (write a db) = IsAnnounced db

transaction-IsAnnounced :
    {A : Type 0} (c : Conn) (db : TransfersDb) (w : Result (Work TransfersDb A))
    → IsAnnounced db
    → OnOk IsAnnouncedWork w
    → IsAnnounced (transaction c db w).1
transaction-IsAnnounced c db (err e) a h = a
transaction-IsAnnounced c db (ok (roll_back x)) a h = a
transaction-IsAnnounced c db (ok (write x db')) a h = by_fate c.commit_fate
  where
    by_fate : (f : CommitFate) → IsAnnounced (commit f db db' x).1
    by_fate committed = h
    by_fate rolled_back = a
    by_fate ack_lost = h

module _ (c : Conn) (d : Draw) (db : TransfersDb) (a : IsAnnounced db) where
  mark-IsAnnounced :
      (id : ℕ) (change : Transfer → Transfer) (event : Transfer → Event)
      → ((t u : Transfer)
          → has_id id t ≡ true
          → u.id ≡ id
          → tells (change t).id (change t).status (event u) ≡ true)
      → OnOk IsAnnouncedWork (mark c d id change event db)
  unfolding mark
  mark-IsAnnounced id change event h = OnOk-step IsAnnouncedWork c 1 _ _ λ u e.
      OnOk-step IsAnnouncedWork c 2 (ok tt) _ λ _ _. OnOk-step IsAnnouncedWork c 3 (ok tt) _ λ _ _.
        update-IsAnnouncedIn (has_id id) change (event_row d (event u) u.sender_account_id)
          db.outbox
          (λ t p. h t u p (
            find-has_id id _ u
              (returned_some (find (has_id id) (update (has_id id) change db.transfers)) e)))
          db.transfers a
    where
      returned_some : {u : Transfer} (o : Option Transfer) → returned o ≡ ok u → o ≡ some u
      returned_some none e = cc
      returned_some (some x) e = cc

  mark_if_pending-IsAnnounced :
      (transfer : Transfer) (change : Transfer → Transfer) (event : Event)
      → ((t : Transfer)
          → is_pending_id transfer.id t ≡ true
          → tells (change t).id (change t).status event ≡ true)
      → OnOk IsAnnouncedWork (mark_if_pending c d transfer change event db)
  unfolding mark_if_pending
  mark_if_pending-IsAnnounced transfer change event h =
      OnOk-step IsAnnouncedWork c 1 (ok tt) _ λ _ _.
        elim (Bool-cases (count (is_pending_id transfer.id) db.transfers == 0)) [
          | inl e ↦ rw e tt
          | inr e ↦ rw e (
              OnOk-step IsAnnouncedWork c 2 (ok tt) _ λ _ _.
                OnOk-step IsAnnouncedWork c 3 (ok tt) _ λ _ _.
                  update-IsAnnouncedIn (is_pending_id transfer.id) change
                    (event_row d event transfer.sender_account_id) db.outbox h db.transfers a)
        ]

-- Whatever each writer's transaction ends in, every transfer that is not pending has the event of
-- its status in the outbox afterwards, if that was so before.
pub mark-IsAnnounced_all :
    (c : Conn) (d : Draw) (id : ℕ) (t : Transfer) (l : Option ℕ) (reason : String)
    (db : TransfersDb)
    → IsAnnounced db
    → IsAnnounced (mark_transfer_completed c d id l db).1
      × IsAnnounced (mark_transfer_failed c d id reason db).1
      × IsAnnounced (mark_transfer_rejected c d id reason db).1
      × IsAnnounced (mark_transfer_completed_if_pending c d t l db).1
      × IsAnnounced (mark_transfer_failed_if_pending c d t reason db).1
unfolding mark_transfer_completed mark_transfer_failed mark_transfer_rejected
    mark_transfer_completed_if_pending mark_transfer_failed_if_pending
mark-IsAnnounced_all c d id t l reason db a = (
  transaction-IsAnnounced c db _ a (
      OnOk-bind IsAnnouncedWork (begin c) _ λ _ _.
        OnOk-bind IsAnnouncedWork (uuid_text l) _
          λ n _. mark-IsAnnounced c d db a id _ _ (λ t u p q. ground arith)),
  transaction-IsAnnounced c db _ a (
      OnOk-bind IsAnnouncedWork (begin c) _
        λ _ _. mark-IsAnnounced c d db a id _ _ (λ t u p q. ground arith)),
  transaction-IsAnnounced c db _ a (
      OnOk-bind IsAnnouncedWork (begin c) _
        λ _ _. mark-IsAnnounced c d db a id _ _ (λ t u p q. ground arith)),
  transaction-IsAnnounced c db _ a (
      OnOk-bind IsAnnouncedWork (begin c) _ λ _ _.
        OnOk-bind IsAnnouncedWork (uuid_text l) _
          λ n _. mark_if_pending-IsAnnounced c d db a t _ _ (λ u p. ground arith)),
  transaction-IsAnnounced c db _ a (
      OnOk-bind IsAnnouncedWork (begin c) _
        λ _ _. mark_if_pending-IsAnnounced c d db a t _ _ (λ u p. ground arith)),
)
