-- ===== src/History/Continued.antt =====
-- The next page of an account's history (services/transfers-svc/history.go, http.go).
use neo_bank.Prelude.{
  ℕ, ◌+◌, ◌≤◌, ◌≡◌, refl, sym, ap, ◌∙◌, Bool, true, false, not, ◌&&◌, List, ◌++◌, map, Option, none,
  some, arith, ◌==◌, select, count, All,
}
use neo_bank.Prelude.Members.{All-of, All-map, All-append, select-All}
use neo_bank.Prelude.Top.{IsTop, count-append, count-map, count-none, All-mapped}
use neo_bank.Transfers.State.{Transfer, Deposit, Withdrawal, TransfersDb}
use neo_bank.History.Rows.{
  Key, newer, in_order, is_after, transfer_key, deposit_key, withdrawal_key, is_sender,
  is_recipient,
}
use neo_bank.History.Pages.{
  HistoryEntry, Ibans, transfer_entry, deposit_entry, withdrawal_entry, entry_key, merged,
}
use neo_bank.History.Serve.{last_of}
use neo_bank.History.Complete.{
  in_order_asym, in_order_trans, deposits_of, withdrawals_of, operations_of,
}
use neo_bank.History.Follow.{
  ties, both-select, page-rest, count-select, count-ext, All-false, last_of-In,
}

newer_trans : (a b c : Key) → newer a b ≡ true → newer b c ≡ true → newer a c ≡ true
newer_trans a b c h k = ground arith

-- The entries at a cursor are those after an earlier cursor that come after it.
module _ (p : HistoryEntry → Bool) (k : Key) where
  abbrev IsBeyond : Option Key → Type 0
  IsBeyond none = Unit {0}
  IsBeyond (some c) = newer c k ≡ true

  beyond-after :
      {A : Type 0} (key : A → Key) (at_key : Option Key) (x : A)
      → IsBeyond at_key
      → is_after key (some k) x ≡ true
      → is_after key at_key x ≡ true
  beyond-after key none x b h = refl
  beyond-after key (some c) x b h = newer_trans c k (key x) b h

  abbrev beyond : HistoryEntry → Bool
  beyond e = newer k (entry_key e)

  map-select :
      {A : Type 0} (f : A → HistoryEntry) (key : A → Key) (at_key : Option Key) (test : A → Bool)
      (rows : List A)
      → ((x : A) → entry_key (f x) ≡ key x)
      → IsBeyond at_key
      → count p (map f (select (λ x. test x && is_after key (some k) x) rows))
        ≡ count (λ e. beyond e && p e) (map f (select (λ x. test x && is_after key at_key x) rows))
  map-select {A = A} f key at_key test rows same b =
      count-map f p (select (λ x. test x && is_after key (some k) x) rows)
      ∙ both-select (λ x. p (f x)) test (is_after key at_key) (is_after key (some k)) rows
          (λ x h. beyond-after key at_key x b h)
      ∙ count-select (λ x. p (f x)) (is_after key (some k)) kept
      ∙ count-ext (λ x. is_after key (some k) x && p (f x)) (λ x. beyond (f x) && p (f x)) kept
          (λ x. ap (λ y. newer k y && p (f x)) (sym (same x)))
      ∙ sym (count-map f (λ e. beyond e && p e) kept)
    where
      kept : List A
      kept = select (λ x. test x && is_after key at_key x) rows

  count-joined :
      {A : Type 0} (q : HistoryEntry → Bool) (f : A → HistoryEntry) (xs ys : List A)
      → count q (map f (xs ++ ys)) ≡ count q (map f xs) + count q (map f ys)
  count-joined q f xs ys = omega (
    arith,
    count-map f q (xs ++ ys),
    count-append (λ x. q (f x)) xs ys,
    count-map f q xs,
    count-map f q ys,
  )

  pub count-merged :
      (q : HistoryEntry → Bool) (account : ℕ) (ibans : Ibans) (sent received : List Transfer)
      (ds : List Deposit) (ws : List Withdrawal)
      → count q (merged account ibans (sent ++ received) ds ws)
        ≡ count q (map (transfer_entry account ibans) sent)
          + count q (map (transfer_entry account ibans) received)
          + count q (map deposit_entry ds)
          + count q (map withdrawal_entry ws)
  count-merged q account ibans sent received ds ws = omega (
    arith,
    count-append q (map (transfer_entry account ibans) (sent ++ received))
        (map deposit_entry ds ++ map withdrawal_entry ws),
    count-append q (map deposit_entry ds) (map withdrawal_entry ws),
    count-joined q (transfer_entry account ibans) sent received,
  )

  operations-beyond :
      (account : ℕ) (ibans : Ibans) (at_key : Option Key) (db : TransfersDb)
      → IsBeyond at_key
      → count p (operations_of account ibans (some k) db)
        ≡ count p (select beyond (operations_of account ibans at_key db))
  operations-beyond account ibans at_key db b = omega (
    arith,
    count-select p beyond (operations_of account ibans at_key db),
    count-merged p account ibans (sent (some k)) (received (some k))
        (deposits_of account (some k) db.deposits) (withdrawals_of account (some k) db.withdrawals),
    count-merged (λ e. beyond e && p e) account ibans (sent at_key) (received at_key)
        (deposits_of account at_key db.deposits) (withdrawals_of account at_key db.withdrawals),
    map-select (transfer_entry account ibans) transfer_key at_key (is_sender account) db.transfers
        (λ x. refl) b,
    map-select (transfer_entry account ibans) transfer_key at_key (is_recipient account)
        db.transfers (λ x. refl) b,
    map-select deposit_entry deposit_key at_key (λ d. d.account_id == account) db.deposits
        (λ x. refl) b,
    map-select withdrawal_entry withdrawal_key at_key (λ w. w.account_id == account) db.withdrawals
        (λ x. refl) b,
  )
    where
      sent : Option Key → List Transfer
      sent at_k = select (λ t. is_sender account t && is_after transfer_key at_k t) db.transfers

      received : Option Key → List Transfer
      received at_k =
          select (λ t. is_recipient account t && is_after transfer_key at_k t) db.transfers

-- What holds of all rows holds of a page of them.
pub page-holds :
    (q : HistoryEntry → Bool) (limit : ℕ) (page rows : List HistoryEntry)
    → IsTop (in_order entry_key) limit page rows
    → All (λ e. q e ≡ true) rows
    → All (λ e. q e ≡ true) page
page-holds q limit page rows t a =
    All-map (λ e. not (q e) ≡ false) _ (λ e h. by_test (q e) h) page
      (All-false (λ e. not (q e)) page
        (omega (
          arith,
          t.same (λ e. not (q e)),
          count-none (λ e. not (q e)) rows (All-map (λ e. q e ≡ true) _ (λ e h. ap not h) rows a),
        )))
  where
    by_test : (b : Bool) → not b ≡ false → b ≡ true
    by_test true h = refl
    by_test false h = cc

after-same :
    {A : Type 0} (f : A → HistoryEntry) (key : A → Key) (at_key : Option Key) (x : A)
    → entry_key (f x) ≡ key x
    → is_after entry_key at_key (f x) ≡ is_after key at_key x
after-same f key none x e = refl
after-same f key (some c) x e = ap (newer c) e

pub operations-after :
    (account : ℕ) (ibans : Ibans) (at_key : Option Key) (db : TransfersDb)
    → All (λ e. is_after entry_key at_key e ≡ true) (operations_of account ibans at_key db)
operations-after account ibans at_key db =
    All-append _ _ _
      (All-mapped (transfer_entry account ibans) (λ e. is_after entry_key at_key e ≡ true) _
        (All-append _ _ _
          (kept (transfer_entry account ibans) transfer_key (is_sender account) db.transfers
            λ x. refl)
          (kept (transfer_entry account ibans) transfer_key (is_recipient account) db.transfers
            λ x. refl)))
      (All-append _ _ _
        (All-mapped deposit_entry (λ e. is_after entry_key at_key e ≡ true) _
          (kept deposit_entry deposit_key (λ d. d.account_id == account) db.deposits λ x. refl))
        (All-mapped withdrawal_entry (λ e. is_after entry_key at_key e ≡ true) _
          (kept withdrawal_entry withdrawal_key (λ w. w.account_id == account) db.withdrawals
            λ x. refl)))
  where
    both : (a b : Bool) → (a && b) ≡ true → b ≡ true
    both true b h = h
    both false b h = cc

    kept :
        {A : Type 0} (f : A → HistoryEntry) (key : A → Key) (test : A → Bool) (rows : List A)
        → ((x : A) → entry_key (f x) ≡ key x)
        → All
            (λ x. is_after entry_key at_key (f x) ≡ true)
            (select (λ x. test x && is_after key at_key x) rows)
    kept f key test rows same =
        All-map (λ x. (test x && is_after key at_key x) ≡ true) _
          (λ x h. after-same f key at_key x (same x) ∙ both (test x) (is_after key at_key x) h) _
          (select-All (λ x. test x && is_after key at_key x) rows)

IsBeyond-last :
    (at_key : Option Key) (l : HistoryEntry)
    → is_after entry_key at_key l ≡ true
    → IsBeyond (λ e. true) (entry_key l) at_key
IsBeyond-last none l h = tt
IsBeyond-last (some c) l h = h

-- The page and the operations after its last entry are together all of them.
pub operations-after_page :
    (account limit : ℕ) (ibans : Ibans) (at_key : Option Key) (db : TransfersDb)
    (page : List HistoryEntry) (l : HistoryEntry)
    → IsTop (in_order entry_key) limit page (operations_of account ibans at_key db)
    → last_of page ≡ some l
    → count (ties (in_order entry_key) l) (operations_of account ibans at_key db) ≤ 1
    → (p : HistoryEntry → Bool)
    → count p page + count p (operations_of account ibans (some (entry_key l)) db)
      ≡ count p (operations_of account ibans at_key db)
operations-after_page account limit ibans at_key db page l t e unique p = omega (
  arith,
  operations-beyond p (entry_key l) account ibans at_key db (
      IsBeyond-last at_key l (
        All-of (λ x. is_after entry_key at_key x ≡ true) l page
          (page-holds (is_after entry_key at_key) limit page _ t
            (operations-after account ibans at_key db))
          (last_of-In page l e))),
  page-rest (in_order entry_key) (in_order_asym entry_key) (in_order_trans entry_key) limit page
      (operations_of account ibans at_key db) l t e unique p,
)
