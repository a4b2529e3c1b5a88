-- ===== src/Outbox/Cleaned.antt =====
-- CleanupPublished (pkg/outbox/cleanup.go): what it removes.
use neo_bank.Prelude.{
  ℕ, ◌+◌, ◌<◌, ◌≡◌, ◌≢◌, refl, ◌⊎◌, inl, inr, Bool, true, false, not, List, [], ◌∷◌, Option, none,
  some, arith, select, All, length, count, if◌then◌else◌,
}
use mathlib.Core.Path.{subst}
use neo_bank.Prelude.Members.{In, All-In, All-map, All-select, select-All}
use neo_bank.Prelude.Db.{
  OnOk, Failure, Result, ok, err, connection, Conn, Work, write, transaction, commit, CommitFate,
  committed, rolled_back, ack_lost,
}
use neo_bank.Outbox.State.{OutboxRow}
use neo_bank.Outbox.Relay.{set_before, is_expired, cleanup_published}

-- The DELETE was executed, and its COMMIT took effect, acknowledged or not.
abbrev pub TookEffect : Conn → Type 0
TookEffect c = (c.fails 0 ≡ false) × (c.commit_fate ≢ rolled_back)

module _ {E : Type 0} where
  abbrev is_kept : ℕ → ℕ → OutboxRow E → Bool
  is_kept now retention r = not (is_expired now retention r)

  length-kept :
      (now retention : ℕ) (rows : List (OutboxRow E))
      → count (is_expired now retention) rows + length (select (is_kept now retention) rows)
        ≡ length rows
  length-kept now retention [] = refl
  length-kept now retention (r ∷ rows) = ground (arith, length-kept now retention rows)

  kept-recent :
      (now retention : ℕ) (rows : List (OutboxRow E))
      → All (λ r. is_expired now retention r ≡ false) (select (is_kept now retention) rows)
  kept-recent now retention rows =
      All-map (λ r. is_kept now retention r ≡ true) _ (λ r e. not_true _ e) _
        (select-All (is_kept now retention) rows)
    where
      not_true : (b : Bool) → not b ≡ true → b ≡ false
      not_true true e = cc
      not_true false e = refl

  abbrev removed : ℕ → ℕ → List (OutboxRow E) → Result (Work (List (OutboxRow E)) ℕ)
  removed now retention rows =
      ok (write (count (is_expired now retention) rows) (select (is_kept now retention) rows))

  -- The row was published, and longer ago than the retention time.
  abbrev pub IsExpired : ℕ → ℕ → OutboxRow E → Type 0
  IsExpired now retention r = (t : ℕ) × (r.published_at ≡ some t) × (t + retention < now)

  is_expired-IsExpired :
      (now retention : ℕ) (r : OutboxRow E)
      → is_expired now retention r ≡ true
      → IsExpired now retention r
  is_expired-IsExpired now retention r e = by_time r.published_at refl e
    where
      by_time :
          (o : Option ℕ)
          → r.published_at ≡ o
          → set_before now retention o ≡ true
          → IsExpired now retention r
      by_time none f h = cc
      by_time (some t) f h = (t, f, ground arith)

  is_expired-kept :
      (now retention : ℕ) (r : OutboxRow E)
      → is_expired now retention r ≡ false
      → ¬ IsExpired now retention r
  is_expired-kept now retention r e (t, f, lt) =
      let e' : set_before now retention (some t) ≡ false =
        subst (λ o. set_before now retention o ≡ false) f e in
      ground arith

  In-kept :
      (now retention : ℕ) (rows : List (OutboxRow E))
      → All (λ r. In r (select (is_kept now retention) rows) ⊎ IsExpired now retention r) rows
  In-kept now retention [] = tt
  In-kept now retention (r ∷ rows) =
      by_test (is_expired now retention r) refl (In-kept now retention rows)
    where
      kept : List (OutboxRow E)
      kept = select (is_kept now retention) rows

      by_test :
          (b : Bool)
          → is_expired now retention r ≡ b
          → All (λ x. In x kept ⊎ IsExpired now retention x) rows
          → All
              (λ x. In x (if not b then r ∷ kept else kept) ⊎ IsExpired now retention x)
              (r ∷ rows)
      by_test true e h = (inr (is_expired-IsExpired now retention r e), h)
      by_test false e h = (
        inl (inl refl),
        All-map _ _ (λ x i. elim i [ inl j ↦ inl (inr j) | inr k ↦ inr k ]) rows h,
      )

  abbrev pub Keeps : Conn → ℕ → ℕ → List (OutboxRow E) → Result ℕ × List (OutboxRow E) → Type 0
  Keeps c now retention rows (out, rows') =
      All (λ r. In r rows' ⊎ IsExpired now retention r) rows
      × All (λ r. In r rows) rows'
      × (TookEffect c → All (λ r. ¬ IsExpired now retention r) rows')
      × OnOk (λ deleted. TookEffect c × (deleted + length rows' ≡ length rows)) out

  unchanged-Keeps :
      (c : Conn) (now retention : ℕ) (rows : List (OutboxRow E)) (e : Failure)
      → (TookEffect c → ⊥)
      → Keeps c now retention rows (err e, rows)
  unchanged-Keeps c now retention rows e none_taken = (
    All-map (λ r. In r rows) _ (λ r i. inl i) rows (All-In rows),
    All-In rows,
    (λ h. absurd (none_taken h)),
    tt,
  )

  -- A pass of the cleanup removes no row but those that were published before the retention time,
  -- and adds none. Once the DELETE and its COMMIT have taken effect, acknowledged or not, no such row
  -- is left. If it reports a number, that is the number of rows that are gone, and they are gone.
  pub cleanup_published-Keeps :
      (c : Conn) (now retention : ℕ) (rows : List (OutboxRow E))
      → Keeps c now retention rows (cleanup_published c now retention rows)
  unfolding cleanup_published
  cleanup_published-Keeps c now retention rows = by_statement (c.fails 0) refl
    where
      kept :
          All (λ r. In r (select (is_kept now retention) rows) ⊎ IsExpired now retention r) rows
          × All (λ r. In r rows) (select (is_kept now retention) rows)
          × All (λ r. ¬ IsExpired now retention r) (select (is_kept now retention) rows)
      kept = (
        In-kept now retention rows,
        All-select _ (is_kept now retention) rows (All-In rows),
        All-map _ _ (is_expired-kept now retention) _ (kept-recent now retention rows),
      )

      by_fate :
          (f : CommitFate)
          → c.fails 0 ≡ false
          → c.commit_fate ≡ f
          → Keeps c now retention rows (
              commit f rows
                (select (is_kept now retention) rows)
                (count (is_expired now retention) rows))
      by_fate committed s e =
          (kept.0, kept.1, (λ h. kept.2), ((s, λ k. cc), length-kept now retention rows))
      by_fate rolled_back s e = unchanged-Keeps c now retention rows connection (λ h. h.1 e)
      by_fate ack_lost s e = (kept.0, kept.1, (λ h. kept.2), tt)

      by_statement :
          (b : Bool)
          → c.fails 0 ≡ b
          → Keeps c now retention rows
              (transaction c rows (if b then err connection else removed now retention rows))
      by_statement true e = unchanged-Keeps c now retention rows connection (λ h. cc (e, h.0))
      by_statement false e = by_fate c.commit_fate e refl
