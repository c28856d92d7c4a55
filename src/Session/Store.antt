-- ===== src/Session/Store.antt =====
-- What the methods do to the rows of one account, and of the others.
use fcare.Base.{
  ℕ, ◌≡◌, refl, Bool, true, false, not, ◌||◌, Option, some, List, [], ◌∷◌, ◌==◌, arith, is_some,
  all, find, update_where, ok, err, all-update_where,
}
use fcare.Session.{Staff, RefreshToken, Db, staff_by_id, is_live, update_staff, row_missing}
use fcare.Session.Pin.{pin_hash_of}

-- Every session of the account is locked.
abbrev pub locked_row : ℕ → RefreshToken → Bool
locked_row u t = not (t.staff_id == u) || is_some t.locked_at

abbrev pub AllLocked : ℕ → Db → Type 0
AllLocked u db = all (locked_row u) db.tokens ≡ true

-- Every session of the account has ended.
abbrev pub ended_row : ℕ → RefreshToken → Bool
ended_row u t = not (t.staff_id == u) || not (is_live t)

abbrev pub AllEnded : ℕ → Db → Type 0
AllEnded u db = all (ended_row u) db.tokens ≡ true

-- The digest of the account's PIN.
abbrev pub pin_of : ℕ → Db → Option ℕ
pin_of u db = pin_hash_of (staff_by_id u db)

-- What an invariant of sessions has to survive: a lock, an end, and a session added.
module _ (u now : ℕ) (q : RefreshToken → Bool) (ts : List RefreshToken) where
  abbrev end_row : RefreshToken → RefreshToken
  end_row t = record t { revoked_at = some now }

  abbrev shut_row : RefreshToken → RefreshToken
  shut_row t = record t { revoked_at = some now; locked_at = some now }

  abbrev lock_row : RefreshToken → RefreshToken
  lock_row t = record t { locked_at = some now }

  pub end_row-locked :
      all (locked_row u) ts ≡ true → all (locked_row u) (update_where q end_row ts) ≡ true
  end_row-locked h = all-update_where (locked_row u) q end_row ts (λ t _ p. p) h

  pub end_row-ended :
      all (ended_row u) ts ≡ true → all (ended_row u) (update_where q end_row ts) ≡ true
  end_row-ended h = all-update_where (ended_row u) q end_row ts (λ t _ p. ground arith) h

  pub shut_row-locked :
      all (locked_row u) ts ≡ true → all (locked_row u) (update_where q shut_row ts) ≡ true
  shut_row-locked h = all-update_where (locked_row u) q shut_row ts (λ t _ p. ground arith) h

  pub shut_row-ended :
      all (ended_row u) ts ≡ true → all (ended_row u) (update_where q shut_row ts) ≡ true
  shut_row-ended h = all-update_where (ended_row u) q shut_row ts (λ t _ p. ground arith) h

  pub lock_row-locked :
      all (locked_row u) ts ≡ true → all (locked_row u) (update_where q lock_row ts) ≡ true
  lock_row-locked h = all-update_where (locked_row u) q lock_row ts (λ t _ p. ground arith) h

  pub lock_row-ended :
      all (ended_row u) ts ≡ true → all (ended_row u) (update_where q lock_row ts) ≡ true
  lock_row-ended h = all-update_where (ended_row u) q lock_row ts (λ t _ p. p) h

-- An update of accounts that keeps ids and PINs keeps the PIN of each account.
pub pin_hash-update_where :
    (u : ℕ) (q : Staff → Bool) (f : Staff → Staff) (xs : List Staff)
    → ((s : Staff) → (f s).id ≡ s.id)
    → ((s : Staff) → q s ≡ true → s.id ≡ u → (f s).pin_hash ≡ s.pin_hash)
    → pin_hash_of (find (λ s. s.id == u) (update_where q f xs))
      ≡ pin_hash_of (find (λ s. s.id == u) xs)
pin_hash-update_where u q f [] g k = refl
pin_hash-update_where u q f (x ∷ xs) g k =
    ground (arith, g x, k x, pin_hash-update_where u q f xs g k)

module _ (v : ℕ) (f : Staff → Staff) (db : Db) where
  pub update_staff_found :
      is_some (staff_by_id v db) ≡ true
      → update_staff v f db
        ≡ (record db { staff = update_where (λ s. s.id == v) f db.staff }, ok tt)
  unfolding update_staff
  update_staff_found e = rw e

  pub update_staff_missing :
      is_some (staff_by_id v db) ≡ false → update_staff v f db ≡ (db, err row_missing)
  unfolding update_staff
  update_staff_missing e = rw e
