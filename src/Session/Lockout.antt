-- ===== src/Session/Lockout.antt =====
-- Wrong PINs: what one costs, and what the last one does.
use fcare.Base.{
  ℕ, ◌+◌, ◌≡◌, ◌∙◌, refl, ap, true, false, not, Option, none, some, List, [], ◌∷◌, ◌==◌, arith, ltb,
  leb, is_some, all, find, update_where, length, Bool-cases, inl, inr,
}
use fcare.Base.Texts.{Text}
use fcare.Session.{
  Staff, Db, Crypto, Env, PinProofPurpose, staff_by_id, M, ◌>>=◌, ◌>>◌, update_staff,
  pin_attempts_exceeded, row_missing, throw, log, auth_pin_lockout, require,
}
use fcare.Session.Pin.{
  revoke_all, lock_out, after_failure, count_failure, assert_pin_matches, verify, reset_count,
}
use fcare.Session.PinFormat.{max_pin_attempts}
use fcare.Session.Refusal.{bind_ok, bind_err, bind_refused, count_failure_refuses}
use fcare.Session.Sealed.{unlock_then, revoke_all-AllEnded}
use fcare.Session.Store.{AllEnded, update_staff_found, update_staff_missing}

-- The account has this PIN and has failed this often in a row.
pub record HasFailed (u h n : ℕ) (db : Db) : Type 0 where
  pub staff : Staff
  pub there : staff_by_id u db ≡ some staff
  pub pin : staff.pin_hash ≡ some h
  pub count : staff.pin_failed_count ≡ n

module _ (crypto : Crypto) (env : Env) (u : ℕ) where
  -- The rows after `count_failure`, short of the last attempt.
  abbrev counted : Db → Db
  counted db = record db {
    staff =
        update_where (λ s. s.id == u) (λ s. record s { pin_failed_count = s.pin_failed_count + 1 })
          db.staff;
  }

  counted-HasFailed : (h n : ℕ) (db : Db) → HasFailed u h n db → HasFailed u h (n + 1) (counted db)
  counted-HasFailed h n db f = record {
    staff = record f.staff { pin_failed_count = f.staff.pin_failed_count + 1 };
    there = found_after db.staff f.there;
    pin = f.pin;
    count = ap (λ k. k + 1) f.count;
  }
    where
      found_after :
          (xs : List Staff)
          → find (λ s. s.id == u) xs ≡ some f.staff
          → find
              (λ s. s.id == u)
              (update_where
                (λ s. s.id == u)
                (λ s. record s { pin_failed_count = s.pin_failed_count + 1 })
                xs)
            ≡ some (record f.staff { pin_failed_count = f.staff.pin_failed_count + 1 })
      found_after [] e = ground arith
      found_after (x ∷ xs) e = ground (arith, found_after xs)

  abbrev step_failure : Unit {0} → M (Unit {0})
  step_failure _ d =
      (require (staff_by_id u d) row_missing >>= λ staff.
      after_failure crypto env u staff.pin_failed_count)
        d

  step_failure_lem :
      (h k : ℕ) (d : Db) → HasFailed u h k d → step_failure tt d ≡ after_failure crypto env u k d
  step_failure_lem h k d g = rw (g.there) (rw (g.count) refl)

  -- A failure adds one to the count, and what follows depends on the count.
  count_failure_lem :
      (h n : ℕ) (db : Db)
      → HasFailed u h n db
      → count_failure crypto env u db ≡ after_failure crypto env u (n + 1) (counted db)
  unfolding count_failure
  count_failure_lem h n db f =
      let known : is_some (staff_by_id u db) ≡ true = rw (f.there) refl in
      bind_ok (update_staff u (λ s. record s { pin_failed_count = s.pin_failed_count + 1 }))
        step_failure db (update_staff_found u _ db known)
      ∙ step_failure_lem h (n + 1) (counted db) (counted-HasFailed h n db f)

  -- `verify` with a wrong PIN is the failure.
  verify_wrong_lem :
      (h n : ℕ) (cookie : Option ℕ) (pin : Text) (purpose : Option PinProofPurpose) (db : Db)
      → HasFailed u h n db
      → crypto.bcrypt_compare pin h ≡ false
      → (verify crypto env u cookie pin purpose db).0
        ≡ (after_failure crypto env u (n + 1) (counted db)).0
  unfolding verify assert_pin_matches
  verify_wrong_lem h n cookie pin purpose db f wrong = rw (f.there) (
      rw (f.pin) (
        rw wrong (
          bind_refused (count_failure crypto env u)
            (λ _.
              reset_count crypto env u f.staff.pin_failed_count
              >> unlock_then crypto env u cookie purpose)
            db (count_failure_refuses crypto env u db)
          ∙ ap (λ p. p.0) (count_failure_lem h n db f))))

  update_staff-AllEnded :
      (v : ℕ) (f : Staff → Staff) (db : Db) → AllEnded u db → AllEnded u (update_staff v f db).0
  update_staff-AllEnded v f db gone = elim (Bool-cases (is_some (staff_by_id v db))) [
    | inl known ↦ rw (update_staff_found v f db known) gone
    | inr nobody ↦ rw (update_staff_missing v f db nobody) gone
  ]

  lock_out-AllEnded : (db : Db) → AllEnded u (lock_out crypto env u db).0
  unfolding lock_out
  lock_out-AllEnded db =
      let db' = (revoke_all crypto env u db).0 in
      let f = λ (s : Staff). record s { pin_failed_count = 0 } in
      elim (Bool-cases (is_some (staff_by_id u db'))) [
        | inl known ↦
            rw
              (bind_ok (update_staff u f)
                (λ _. log u auth_pin_lockout u >> throw {A = Unit {0}} pin_attempts_exceeded) db'
                (update_staff_found u f db' known))
              (revoke_all-AllEnded crypto env u db)
        | inr nobody ↦
            rw
              (bind_err (update_staff u f)
                (λ _. log u auth_pin_lockout u >> throw {A = Unit {0}} pin_attempts_exceeded) db'
                (update_staff_missing u f db' nobody))
              (revoke_all-AllEnded crypto env u db)
      ]

-- An attempt: what the request takes from outside, its cookie, and the PIN it tries.
pub record Attempt : Type 0 where
  pub env : Env
  pub cookie : Option ℕ
  pub pin : Text

module _ (crypto : Crypto) (u : ℕ) where
  unfoldable pub attempts : List Attempt → Db → Db
  attempts [] db = db
  attempts (a ∷ rest) db = attempts rest (verify crypto a.env u a.cookie a.pin none db).0

-- From fewer than five failures in a row, wrong PINs up to the fifth failure end every session of the
-- account.
pub wrong_pins-AllEnded :
    (crypto : Crypto) (u h n : ℕ) (tries : List Attempt) (db : Db)
    → HasFailed u h n db
    → all (λ a. not (crypto.bcrypt_compare a.pin h)) tries ≡ true
    → n + length tries ≡ max_pin_attempts
    → ltb n max_pin_attempts ≡ true
    → AllEnded u (attempts crypto u tries db)
unfolding attempts after_failure
wrong_pins-AllEnded crypto u h n [] db f wrong total few = ground arith
wrong_pins-AllEnded crypto u h n (a ∷ []) db f wrong total few =
    let last : leb max_pin_attempts (n + 1) ≡ true = ground arith in
    let this : crypto.bcrypt_compare a.pin h ≡ false = ground arith in
    rw (verify_wrong_lem crypto a.env u h n a.cookie a.pin none db f this, attempts)
      (rw (last, after_failure) (lock_out-AllEnded crypto a.env u (counted crypto a.env u db)))
wrong_pins-AllEnded crypto u h n (a ∷ b ∷ rest) db f wrong total few =
    let more : leb max_pin_attempts (n + 1) ≡ false = ground arith in
    let this : crypto.bcrypt_compare a.pin h ≡ false = ground arith in
    rw (verify_wrong_lem crypto a.env u h n a.cookie a.pin none db f this, attempts)
      (rw (more, after_failure)
        (wrong_pins-AllEnded crypto u h (n + 1) (b ∷ rest) (counted crypto a.env u db)
          (counted-HasFailed crypto a.env u h n db f) (ground arith) (ground arith) (ground arith)))
