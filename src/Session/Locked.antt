-- ===== src/Session/Locked.antt =====
-- What an account's sessions look like after any requests that a client without its PIN can make.
use fcare.Base.{ℕ, ◌≡◌, refl, true, false, Option, some, arith, all-find, inl, ==_refl}
use fcare.Base.Texts.{Text}
use fcare.Session.{RefreshToken, Db, Crypto, Env, PinProofPurpose}
use fcare.Session.Auth.{refresh, logout, token_found}
use fcare.Session.Pin.{verify, set_pin, lock, forget_pin, session_state}
use fcare.Session.Store.{locked_row, AllLocked, pin_of}
use fcare.Session.Lock.{IsSealed, refresh-IsSealed, logout-IsSealed, lock-IsSealed}
use fcare.Session.Sealed.{verify_wrong-IsSealed, set_pin_wrong-IsSealed, forget_pin-IsSealed}

-- A request about the sessions of one account that does not have its PIN. Each has its own clock,
-- random bytes and salt; `refresh`, `logout` and `lock` take any token.
pub data Move (crypto : Crypto) (u h : ℕ) : Db → Db → Type 0 where
  refreshed : (env : Env) (value : ℕ) {db : Db} → Move crypto u h db (refresh crypto env value db).0
  logged_out :
      (env : Env) (cookie : Option ℕ) {db : Db} → Move crypto u h db (logout crypto env cookie db).0
  locked_again :
      (env : Env) (v : ℕ) (cookie : Option ℕ) {db : Db}
      → Move crypto u h db (lock crypto env v cookie db).0
  verified_wrong :
      (env : Env) (cookie : Option ℕ) (pin : Text) (purpose : Option PinProofPurpose) {db : Db}
      → crypto.bcrypt_compare pin h ≡ false
      → Move crypto u h db (verify crypto env u cookie pin purpose db).0
  changed_wrong :
      (env : Env) (cookie : Option ℕ) (pin current : Text) {db : Db}
      → crypto.bcrypt_compare current h ≡ false
      → Move crypto u h db (set_pin crypto env u cookie pin current db).0
  forgot : (env : Env) {db : Db} → Move crypto u h db (forget_pin crypto env u db).0

pub data Moves (crypto : Crypto) (u h : ℕ) : Db → Db → Type 0 where
  none_made : {db : Db} → Moves crypto u h db db
  made :
      {db db' db'' : Db}
      → Moves crypto u h db db'
      → Move crypto u h db' db''
      → Moves crypto u h db db''

module _ {crypto : Crypto} {u h : ℕ} where
  Move-IsSealed :
      {db db' : Db} → Move crypto u h db db' → IsSealed u (some h) db → IsSealed u (some h) db'
  Move-IsSealed (refreshed env value) s = refresh-IsSealed crypto env u (some h) value _ s
  Move-IsSealed (logged_out env cookie) s = logout-IsSealed crypto env u (some h) cookie _ s
  Move-IsSealed (locked_again env v cookie) s = lock-IsSealed crypto env u (some h) v cookie _ s
  Move-IsSealed (verified_wrong env cookie pin purpose wrong) s =
      verify_wrong-IsSealed crypto env u h cookie pin purpose _ wrong s
  Move-IsSealed (changed_wrong env cookie pin current wrong) s =
      set_pin_wrong-IsSealed crypto env u h cookie pin current _ wrong s
  Move-IsSealed (forgot env) s = forget_pin-IsSealed crypto env u (some h) _ s

  Moves-IsSealed :
      {db db' : Db} → Moves crypto u h db db' → IsSealed u (some h) db → IsSealed u (some h) db'
  Moves-IsSealed none_made s = s
  Moves-IsSealed (made ms m) s = Move-IsSealed m (Moves-IsSealed ms s)

-- While every session of an account with a PIN is locked, requests without that PIN (refresh, logout,
-- lock, verify and change with a wrong PIN, forgotten PIN), in any number and order, leave every
-- session of the account that is then found by its cookie locked.
pub Moves-locked :
    (crypto : Crypto) (u h : ℕ) (db db' : Db) (env : Env) (cookie : ℕ) (t : RefreshToken)
    → AllLocked u db
    → pin_of u db ≡ some h
    → Moves crypto u h db db'
    → token_found crypto env cookie db' ≡ some t
    → t.staff_id ≡ u
    → (session_state crypto env u (some cookie) db').locked ≡ true
unfolding session_state
Moves-locked crypto u h db db' env cookie t all_locked pin ms there own =
    let s = Moves-IsSealed ms (record { locked = all_locked; guarded = inl (refl, pin) }) in
    let is_locked : locked_row u t ≡ true = all-find (locked_row u) _ db'.tokens s.locked there in
    rw there (rw own (rw (==_refl u) (ground (arith, is_locked))))
