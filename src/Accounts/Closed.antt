-- ===== src/Accounts/Closed.antt =====
-- updateAccountStatus (services/accounts-svc/accounts.go) and the accounts that are closed.
use neo_bank.Prelude.{
  ℕ, ◌≡◌, refl, ◌∙◌, inl, inr, Bool, true, false, List, [], ◌∷◌, Option, none, some, arith, ◌==◌,
  if◌then◌else◌, find, update, Bool-cases,
}
use neo_bank.Prelude.Db.{
  Result, ok, err, ◌>>=◌, ◌>>◌, Conn, stmt, begin, Work, roll_back, write, transaction, commit,
  CommitFate, committed, rolled_back, ack_lost, OnOk, OnOk-bind, OnOk-step,
}
use neo_bank.Transfers.Mark.{returned}
use neo_bank.Accounts.State.{AccountStatus, Account, AccountsDb, has_account_id}
use neo_bank.Accounts.Status.{
  AccountStatusOutcome, is_closed, set_status, updated, change_status, change_found,
  update_account_status,
}

-- The row with this id is there, unchanged.
abbrev pub Holds : ℕ → Account → AccountsDb → Type 0
Holds k a db = find (has_account_id k) db.accounts ≡ some a

abbrev HoldsAfter : ℕ → Account → {A : Type 0} → Work AccountsDb A → Type 0
HoldsAfter k a (roll_back x) = Unit {0}
HoldsAfter k a (write x db) = Holds k a db

find-update_other :
    (k id : ℕ) (s : AccountStatus) (now : ℕ) (rows : List Account)
    → (k == id) ≡ false
    → find (has_account_id k) (update (has_account_id id) (set_status s now) rows)
      ≡ find (has_account_id k) rows
find-update_other k id s now [] e = refl
find-update_other k id s now (r ∷ rows) e = ground (arith, find-update_other k id s now rows e)

module _ (k : ℕ) (a : Account) (db : AccountsDb) (h : Holds k a db)
    (c : is_closed a.account_status ≡ true) where
  transaction-Holds :
      {A : Type 0} (conn : Conn) (w : Result (Work AccountsDb A))
      → OnOk (HoldsAfter k a) w
      → Holds k a (transaction conn db w).1
  transaction-Holds conn (err e) o = h
  transaction-Holds conn (ok (roll_back x)) o = h
  transaction-Holds conn (ok (write x db')) o = by_fate conn.commit_fate
    where
      by_fate : (f : CommitFate) → Holds k a (commit f db db' x).1
      by_fate committed = o
      by_fate rolled_back = h
      by_fate ack_lost = o

  change_status-Holds :
      (conn : Conn) (s : AccountStatus) (now id : ℕ) (found : Option Account)
      → find (has_account_id id) db.accounts ≡ found
      → OnOk (HoldsAfter k a) (change_status conn s now id db found)
  change_status-Holds conn s now id none e = tt
  change_status-Holds conn s now id (some r) e = by_status (is_closed r.account_status) refl
    where
      other : is_closed r.account_status ≡ false → (k == id) ≡ false
      other o = elim (Bool-cases (k == id)) [ inr n ↦ n | inl y ↦ absurd (clash y) ]
        where
          clash : (k == id) ≡ true → ⊥
          clash y =
              let same : k ≡ id = ground arith in
              let one : some a ≡ some r = cc (h, e, same) in
              let open_and_closed : a ≡ r = cc one in cc (open_and_closed, o, c)

      by_status :
          (b : Bool)
          → is_closed r.account_status ≡ b
          → OnOk (HoldsAfter k a) (
              if b
              then ok (roll_back AccountStatusOutcome.status_update_invalid_transition)
              else (do
                row ←
                    stmt conn 2 (returned (find (has_account_id id) (updated s now id db).accounts))
                ok (write (AccountStatusOutcome.status_update_ok row) (updated s now id db))))
      by_status true o = tt
      by_status false o =
          OnOk-step (HoldsAfter k a) conn 2
            (returned (find (has_account_id id) (updated s now id db).accounts)) _
            λ row _. find-update_other k id s now db.accounts (other o) ∙ h

  -- A closed account stays as it is: whatever status updateAccountStatus is asked to set, for
  -- whatever id and whatever fails, the row of an account that is closed does not change.
  pub update_account_status-Holds :
      (conn : Conn) (now : ℕ) (id : Option ℕ) (s : AccountStatus)
      → Holds k a (update_account_status conn now id s db).1
  unfolding update_account_status
  update_account_status-Holds conn now id s = transaction-Holds conn _ (work id)
    where
      work : (i : Option ℕ) → OnOk (HoldsAfter k a) (do begin conn; change_found conn s now i db)
      work none = OnOk-bind (HoldsAfter k a) (begin conn) _ λ _ _. tt
      work (some i) = OnOk-bind (HoldsAfter k a) (begin conn) _ λ _ _.
          OnOk-step (HoldsAfter k a) conn 1 (ok (find (has_account_id i) db.accounts)) _
            λ found e. change_status-Holds conn s now i found (found_same e)
        where
          found_same : {x y : Option Account} → ok x ≡ ok y → x ≡ y
          found_same e = cc
