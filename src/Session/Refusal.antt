-- ===== src/Session/Refusal.antt =====
-- A method that refuses stops there: what follows it is not run. A wrong PIN always refuses.
use fcare.Base.{
  ℕ, ◌+◌, ◌≡◌, refl, ap, true, false, leb, Result, ok, err, arith, Bool-cases, Option-cases, inl,
  inr,
}
use fcare.Base.Results.{is_ok}
use fcare.Session.{
  Db, Crypto, Env, AuthError, row_missing, pin_attempts_exceeded, M, ◌>>=◌, ◌>>◌, throw, require,
  log, staff_by_id, update_staff, auth_pin_lockout,
}
use fcare.Session.Pin.{revoke_all, lock_out, after_failure, count_failure}
use fcare.Session.PinFormat.{max_pin_attempts}

pub bind_ok :
    {A B : Type 0} (m : M A) (f : A → M B) (db : Db) {db' : Db} {a : A}
    → m db ≡ (db', ok a)
    → (m >>= f) db ≡ f a db'
bind_ok {A = A} {B = B} m f db e =
    ap
      (λ (p : Db × Result AuthError A). elim p.1 as (λ _. Db × Result AuthError B) [
        | ok a ↦ f a p.0
        | err e ↦ (p.0, err e)
      ])
      e

pub bind_err :
    {A B : Type 0} (m : M A) (f : A → M B) (db : Db) {db' : Db} {e : AuthError}
    → m db ≡ (db', err e)
    → (m >>= f) db ≡ (db', err e)
bind_err {A = A} {B = B} m f db e =
    ap
      (λ (p : Db × Result AuthError A). elim p.1 as (λ _. Db × Result AuthError B) [
        | ok a ↦ f a p.0
        | err e ↦ (p.0, err e)
      ])
      e

pub bind_refused :
    {A B : Type 0} (m : M A) (f : A → M B) (db : Db)
    → is_ok (m db).1 ≡ false
    → ((m >>= f) db).0 ≡ (m db).0
bind_refused {A = A} {B = B} m f db r = go (m db) r
  where
    go :
        (p : Db × Result AuthError A)
        → is_ok p.1 ≡ false
        → (elim p.1 as (λ _. Db × Result AuthError B) [ ok a ↦ f a p.0 | err e ↦ (p.0, err e) ]).0
          ≡ p.0
    go (db', ok a) q = ground arith
    go (db', err e) q = refl

pub bind_refuses :
    {A B : Type 0} (m : M A) (f : A → M B)
    → ((a : A) (db : Db) → is_ok (f a db).1 ≡ false)
    → (db : Db) → is_ok ((m >>= f) db).1 ≡ false
bind_refuses {A = A} {B = B} m f k db = go (m db)
  where
    go :
        (p : Db × Result AuthError A)
        → is_ok
            (elim p.1 as (λ _. Db × Result AuthError B) [ ok a ↦ f a p.0 | err e ↦ (p.0, err e) ]).1
          ≡ false
    go (db', ok a) = k a db'
    go (db', err e) = refl

-- What the last steps of a method give, the method gives.
pub bind_post :
    {A B : Type 0} (m : M A) (f : A → M B) (q : Db → Type 0)
    → ((a : A) (db : Db) → is_ok (f a db).1 ≡ true → q (f a db).0)
    → (db : Db) → is_ok ((m >>= f) db).1 ≡ true
    → q ((m >>= f) db).0
bind_post {A = A} {B = B} m f q k db = go (m db)
  where
    go :
        (p : Db × Result AuthError A)
        → is_ok
            (elim p.1 as (λ _. Db × Result AuthError B) [ ok a ↦ f a p.0 | err e ↦ (p.0, err e) ]).1
          ≡ true
        → q (elim p.1 as (λ _. Db × Result AuthError B) [ ok a ↦ f a p.0 | err e ↦ (p.0, err e) ]).0
    go (db', ok a) fine = k a db' fine
    go (db', err e) fine = ground arith

module _ (crypto : Crypto) (env : Env) where
  pub lock_out_refuses : (v : ℕ) (db : Db) → is_ok (lock_out crypto env v db).1 ≡ false
  unfolding lock_out
  lock_out_refuses v db =
      bind_refuses (revoke_all crypto env v)
        (λ _.
          update_staff v (λ s. record s { pin_failed_count = 0 })
          >> (log v auth_pin_lockout v >> throw {A = Unit {0}} pin_attempts_exceeded))
        (bind_refuses_update) db
    where
      bind_refuses_update :
          (a : Unit {0}) (d : Db)
          → is_ok
              ((update_staff v (λ s. record s { pin_failed_count = 0 })
                  >> (log v auth_pin_lockout v >> throw {A = Unit {0}} pin_attempts_exceeded))
                d).1
            ≡ false
      bind_refuses_update _ d =
          bind_refuses (update_staff v (λ s. record s { pin_failed_count = 0 }))
            (λ _. log v auth_pin_lockout v >> throw {A = Unit {0}} pin_attempts_exceeded)
            (λ _ _. refl) d

  pub count_failure_refuses : (v : ℕ) (db : Db) → is_ok (count_failure crypto env v db).1 ≡ false
  unfolding count_failure after_failure
  count_failure_refuses v db =
      bind_refuses (update_staff v (λ s. record s { pin_failed_count = s.pin_failed_count + 1 }))
        (λ _ d.
          (require (staff_by_id v d) row_missing >>= λ staff.
          after_failure crypto env v staff.pin_failed_count)
            d)
        (λ _ d. elim (Option-cases (staff_by_id v d)) [
          | inl gone ↦ rw gone refl
          | inr (staff, there) ↦ elim (Bool-cases (leb max_pin_attempts staff.pin_failed_count)) [
            | inl last ↦ rw there (rw last (lock_out_refuses v d))
            | inr more ↦ rw there (rw more refl)
          ]
        ])
        db
