-- ===== src/Notifications/Ends.antt =====
-- handleTransferMessageWithRetry (services/notifications-svc/kafka.go): that it ends, and how.
use neo_bank.Prelude.{
  ℕ, zero, suc, ◌+◌, ◌-◌, ◌/◌, ◌≤◌, ◌<◌, ◌≡◌, refl, ap, ◌∙◌, ◌⊎◌, inl, inr, Bool, true, false, ◌∷◌,
  Option, none, some, arith, ltb, Bool-cases, List, if◌then◌else◌,
}
use neo_bank.Prelude.Db.{Result, ok, err, OnOk}
use neo_bank.Pgha.Errors.{is_unavailable}
use neo_bank.Notifications.Send.{TransferEvent, event_id_of, Notes, process_transfer_message}
use neo_bank.Notifications.Consume.{
  transfer_max_attempts, transfer_unavailable_budget, Message, Round, Partition, Giving,
  commit_message, send_to_dlq, close_event, give_up, after_process, next_time, next_attempt,
  retry_message, handle_transfer_message_with_retry,
}
use neo_bank.Notifications.Once.{IsClosed, handle_transfer_event-Closes}

-- The event of the message is closed.
abbrev pub IsHandled : Option TransferEvent → Notes → Type 0
IsHandled none n = ⊥
IsHandled (some e) n = IsClosed (event_id_of e) n

module _ (g : Giving) (rounds : ℕ → Round) (m : Message) where
  -- The offset is committed once, unless the commit fails.
  abbrev IsCommitted : List ℕ → List ℕ → Type 0
  IsCommitted commits commits' =
      ((g.commit_taken ≡ true) × (commits' ≡ m.offset ∷ commits))
      ⊎ ((g.commit_taken ≡ false) × (commits' ≡ commits))

  -- The commit, and the event is closed, or Kafka took the dead letter, unless it refused it.
  abbrev pub Delivers : Partition → Partition → Type 0
  Delivers p p' =
      IsCommitted p.commits p'.commits
      × (IsHandled m.event p'.notes
          ⊎ (p'.dead_letters ≡ m.offset ∷ p.dead_letters)
          ⊎ (g.dlq_taken ≡ false))

  abbrev pub EndsAt : Partition → Option Partition → Type 0
  EndsAt p o = (p' : Partition) × (o ≡ some p') × Delivers p p'

  handled :
      (h : Round) (o : Option TransferEvent) (n : Notes)
      → let (out, n') = process_transfer_message h.handling o n in OnOk (λ done. IsHandled o n') out
  unfolding process_transfer_message
  handled h none n = tt
  handled h (some e) n = handle_transfer_event-Closes h.handling e n

  close_event-kept :
      (o : Option TransferEvent) (p : Partition)
      → ((close_event g o p).commits ≡ p.commits)
        × ((close_event g o p).dead_letters ≡ p.dead_letters)
  close_event-kept none p = (refl, refl)
  close_event-kept (some e) p = (refl, refl)

  send_to_dlq-kept :
      (p : Partition)
      → ((send_to_dlq g m p).commits ≡ p.commits)
        × (((send_to_dlq g m p).dead_letters ≡ m.offset ∷ p.dead_letters) ⊎ (g.dlq_taken ≡ false))
  send_to_dlq-kept p = elim (Bool-cases g.dlq_taken) [
    | inl e ↦ rw e (refl, inl refl)
    | inr e ↦ rw e (refl, inr refl)
  ]

  commit_message-Delivers :
      (p q : Partition)
      → q.commits ≡ p.commits
      → IsHandled m.event q.notes
        ⊎ (q.dead_letters ≡ m.offset ∷ p.dead_letters)
        ⊎ (g.dlq_taken ≡ false)
      → Delivers p (commit_message g m q)
  commit_message-Delivers p q e h = by_commit g.commit_taken refl
    where
      by_commit :
          (b : Bool)
          → g.commit_taken ≡ b
          → Delivers p (if b then record q { commits = m.offset ∷ q.commits } else q)
      by_commit true c = (inl (c, ap (λ cs. m.offset ∷ cs) e), h)
      by_commit false c = (inr (c, e), h)

  give_up-Delivers : (p : Partition) → Delivers p (give_up g m p)
  give_up-Delivers p =
      let (commits, letters) = close_event-kept m.event (send_to_dlq g m p) in
      let (commits', sent) = send_to_dlq-kept p in
      commit_message-Delivers p (close_event g m.event (send_to_dlq g m p)) (commits ∙ commits')
        (by_sent letters sent)
    where
      by_sent :
          (close_event g m.event (send_to_dlq g m p)).dead_letters
            ≡ (send_to_dlq g m p).dead_letters
          → ((send_to_dlq g m p).dead_letters ≡ m.offset ∷ p.dead_letters) ⊎ (g.dlq_taken ≡ false)
          → IsHandled m.event (close_event g m.event (send_to_dlq g m p)).notes
            ⊎ ((close_event g m.event (send_to_dlq g m p)).dead_letters ≡ m.offset ∷ p.dead_letters)
            ⊎ (g.dlq_taken ≡ false)
      by_sent l (inl e) = inr (inl (l ∙ e))
      by_sent l (inr e) = inr (inr e)

  -- The rounds that are left.
  abbrev left : ℕ → ℕ → ℕ
  left attempt now =
      (transfer_max_attempts - attempt) + (transfer_unavailable_budget + 1_999 - now) / 2_000

  next-left :
      (b : Bool) (attempt now later : ℕ)
      → (b ≡ true → now < transfer_unavailable_budget)
      → (b ≡ false → attempt < transfer_max_attempts)
      → left (next_attempt b attempt) (next_time b attempt now + later) < left attempt now
  next-left true attempt now later h k = omega (arith, h refl)
  next-left false attempt now later h k = omega (arith, k refl)

  left_later : (attempt now took : ℕ) → left attempt (now + took) ≤ left attempt now
  left_later attempt now took = omega arith

  after_process-ends :
      (b : Bool) (attempt now : ℕ) (p : Partition) (out : Result (Unit {0}))
      (rest : Option Partition)
      → OnOk (λ done. IsHandled m.event p.notes) out
      → ((b ≡ true → now < transfer_unavailable_budget)
          → (b ≡ false → attempt < transfer_max_attempts)
          → EndsAt p rest)
      → EndsAt p (after_process g m b attempt now p out rest)
  after_process-ends b attempt now p (ok done) rest h k =
      (commit_message g m p, refl, commit_message-Delivers p p refl (inl h))
  after_process-ends true attempt now p (err e) rest h k =
      elim (Bool-cases (ltb now transfer_unavailable_budget)) [
        | inl t ↦ rw t (k (λ q. ground arith) (λ q. cc))
        | inr f ↦ rw f (give_up g m p, refl, give_up-Delivers p)
      ]
  after_process-ends false attempt now p (err e) rest h k =
      elim (Bool-cases (ltb attempt transfer_max_attempts)) [
        | inl t ↦ rw t (k (λ q. cc) (λ q. ground arith))
        | inr f ↦ rw f (give_up g m p, refl, give_up-Delivers p)
      ]

  retry_message-ends :
      (fuel k attempt now : ℕ) (p : Partition)
      → left attempt now < fuel
      → EndsAt p (retry_message fuel g rounds m k attempt now p)
  unfolding retry_message
  retry_message-ends zero k attempt now p lt = absurd (omega arith)
  retry_message-ends (suc fuel) k attempt now p lt =
      after_process-ends (is_unavailable (rounds k).failure) attempt (now + (rounds k).took) p'
        (process_transfer_message (rounds k).handling m.event p.notes).0 _
        (handled (rounds k) m.event p.notes)
        λ t f. retry_message-ends fuel (suc k) _ _ p' (
          omega (
            arith,
            lt,
            next-left (is_unavailable (rounds k).failure) attempt (now + (rounds k).took)
                (rounds k).overslept t f,
            left_later attempt now (rounds k).took,
          ))
    where
      p' : Partition
      p' = record p { notes = (process_transfer_message (rounds k).handling m.event p.notes).1 }

  -- A message of transfer events always ends: after at most 155 attempts its offset is committed,
  -- unless that commit fails, and its event is closed, as sent or skipped, or Kafka took it as a dead letter, unless Kafka
  -- refused the dead letter. This holds whatever the attempts meet.
  pub handle_transfer_message_with_retry-EndsAt :
      (p : Partition) → EndsAt p (handle_transfer_message_with_retry g rounds m p)
  unfolding handle_transfer_message_with_retry
  handle_transfer_message_with_retry-EndsAt p = retry_message-ends 155 0 1 0 p (omega arith)
