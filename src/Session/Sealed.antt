-- ===== src/Session/Sealed.antt =====
-- A locked account stays locked: the moves that a client without its PIN can make for one of its
-- sessions, in any number and order.
use fcare.Base.{
  ℕ, ◌≡◌, refl, Bool, true, false, not, ◌&&◌, Option, none, some, List, [], ◌∷◌, ◌==◌, arith, ltb,
  is_some, if◌then◌else◌, all, update_where, all-update_where, Bool-cases, Option-cases, inl, inr,
}
use fcare.Base.Texts.{Text}
use fcare.Session.{
  Staff, RefreshToken, Db, Crypto, Env, PinProofPurpose, staff_by_id, is_live, M, ◌>>=◌, ◌>>◌,
  update_staff, session_revoked, pure, check, log, auth_pin_forgot, auth_pin_set, auth_pin_change,
}
use fcare.Session.Pin.{
  revoke_all, count_failure, assert_pin_matches, verify, set_pin, forget_pin, unlock_session,
  reset_count, failed_count_of, proof_for, check_format, check_current, is_session_of,
}
use fcare.Session.PinFormat.{validate_pin_format}
use fcare.Session.Store.{locked_row, ended_row, AllEnded, pin_of}
use fcare.Session.Refusal.{bind_refused, count_failure_refuses}
use fcare.Session.Lock.{
  IsSealed, bind-IsSealed, revoke_all-IsSealed, count_failure-IsSealed, logs-IsSealed,
  update_staff-IsSealed,
}

-- Without a given PIN, all sessions have ended.
IsSealed-ended : (u : ℕ) (db : Db) → IsSealed u none db → AllEnded u db
IsSealed-ended u db s = elim s.guarded [ inl (there, _) ↦ ground arith | inr gone ↦ gone ]

ended-IsSealed : (u : ℕ) (h : Option ℕ) (db : Db) → IsSealed u none db → IsSealed u h db
ended-IsSealed u h db s = record { locked = s.locked; guarded = inr (IsSealed-ended u db s) }

module _ (crypto : Crypto) (env : Env) (u : ℕ) where
  -- Once all sessions have ended, there is none to unlock.
  unlock_session-IsSealed :
      (cookie : Option ℕ) (db : Db)
      → IsSealed u none db
      → IsSealed u none (unlock_session crypto env u cookie db).0
  unfolding unlock_session
  unlock_session-IsSealed none db s = s
  unlock_session-IsSealed (some value) db s = record {
    locked = keeps_locked db.tokens (IsSealed-ended u db s) s.locked;
    guarded = inr (
        all-update_where (ended_row u) (is_session_of crypto env u value)
          (λ t. record t { locked_at = none }) db.tokens (λ t _ p. p) (IsSealed-ended u db s));
  }
    where
      keeps_locked :
          (ts : List RefreshToken)
          → all (ended_row u) ts ≡ true
          → all (locked_row u) ts ≡ true
          → all (locked_row u) (
              update_where
                (is_session_of crypto env u value)
                (λ t. record t { locked_at = none })
                ts)
            ≡ true
      keeps_locked [] e l = refl
      keeps_locked (t ∷ ts) e l = ground (arith, keeps_locked ts)

  -- A wrong PIN ends the method.
  assert_wrong-IsSealed :
      (h : ℕ) (pin : Text) (db : Db)
      → crypto.bcrypt_compare pin h ≡ false
      → IsSealed u (some h) db
      → {B : Type 0} (f : Unit {0} → M B)
      → IsSealed u (some h) ((assert_pin_matches crypto env u h pin >>= f) db).0
  unfolding assert_pin_matches
  assert_wrong-IsSealed h pin db wrong s f = rw wrong (
      rw (bind_refused (count_failure crypto env u) f db (count_failure_refuses crypto env u db))
        (count_failure-IsSealed crypto env u (some h) u db s))

  assert_ended-IsSealed :
      (h : ℕ) (pin : Text) (db : Db)
      → IsSealed u none db
      → IsSealed u none (assert_pin_matches crypto env u h pin db).0
  unfolding assert_pin_matches
  assert_ended-IsSealed h pin db s = elim (Bool-cases (crypto.bcrypt_compare pin h)) [
    | inl right ↦ rw right s
    | inr wrong ↦ rw wrong (count_failure-IsSealed crypto env u none u db s)
  ]

  reset_count-IsSealed :
      (failed : ℕ) (db : Db)
      → IsSealed u none db
      → IsSealed u none (reset_count crypto env u failed db).0
  reset_count-IsSealed failed db s = elim (Bool-cases (ltb 0 failed)) [
    | inl some_failed ↦
        rw some_failed
          (update_staff-IsSealed crypto env u none u _ db (λ _. refl) (inl (λ _ _ _. refl)) s)
    | inr none_failed ↦ rw none_failed s
  ]

  -- What `verify` does after the comparison.
  abbrev pub answer : Option ℕ → Option PinProofPurpose → Bool → M (Option Text)
  answer cookie purpose unlocked =
      check (not (is_some cookie && not unlocked)) session_revoked
      >> pure (proof_for crypto env u purpose)

  abbrev pub unlock_then : Option ℕ → Option PinProofPurpose → M (Option Text)
  unlock_then cookie purpose = unlock_session crypto env u cookie >>= answer cookie purpose

  answer-IsSealed :
      (h : Option ℕ) (cookie : Option ℕ) (purpose : Option PinProofPurpose) (b : Bool) (d : Db)
      → IsSealed u h d
      → IsSealed u h (answer cookie purpose b d).0
  answer-IsSealed h cookie purpose b d s = elim (Bool-cases (not (is_some cookie && not b))) [
    | inl fine ↦ rw fine s
    | inr over ↦ rw over s
  ]

  verify_ended-IsSealed :
      (cookie : Option ℕ) (pin : Text) (purpose : Option PinProofPurpose) (db : Db)
      → IsSealed u none db
      → IsSealed u none (verify crypto env u cookie pin purpose db).0
  unfolding verify
  verify_ended-IsSealed cookie pin purpose db s = elim (Option-cases (pin_of u db)) [
    | inl no_pin ↦ rw no_pin s
    | inr (h, has) ↦
        let failed = failed_count_of (staff_by_id u db) in
        rw has (
          bind-IsSealed crypto env u none (assert_pin_matches crypto env u h pin)
            (λ _. reset_count crypto env u failed >> unlock_then cookie purpose)
            (assert_ended-IsSealed h pin)
            (λ _.
              bind-IsSealed crypto env u none (reset_count crypto env u failed)
                (λ _. unlock_then cookie purpose) (reset_count-IsSealed failed)
                (λ _.
                  bind-IsSealed crypto env u none (unlock_session crypto env u cookie)
                    (answer cookie purpose) (unlock_session-IsSealed cookie)
                    (answer-IsSealed none cookie purpose)))
            db s)
  ]

  pub verify_wrong-IsSealed :
      (h : ℕ) (cookie : Option ℕ) (pin : Text) (purpose : Option PinProofPurpose) (db : Db)
      → crypto.bcrypt_compare pin h ≡ false
      → IsSealed u (some h) db
      → IsSealed u (some h) (verify crypto env u cookie pin purpose db).0
  unfolding verify
  verify_wrong-IsSealed h cookie pin purpose db wrong s = elim s.guarded [
    | inl (_, kept) ↦ rw kept (
        assert_wrong-IsSealed h pin db wrong s {B = Option Text} (λ _.
          reset_count crypto env u (failed_count_of (staff_by_id u db))
          >> unlock_then cookie purpose))
    | inr gone ↦ ended-IsSealed u (some h) _ (
        verify_ended-IsSealed cookie pin purpose db
          (record { locked = s.locked; guarded = inr gone }))
  ]

  pub revoke_all-AllEnded : (db : Db) → AllEnded u (revoke_all crypto env u db).0
  unfolding revoke_all
  revoke_all-AllEnded db = go db.tokens
    where
      go :
          (ts : List RefreshToken)
          → all (ended_row u) (
              update_where
                (λ t. t.staff_id == u && is_live t)
                (λ t. record t { revoked_at = some env.now; locked_at = some env.now })
                ts)
            ≡ true
      go [] = refl
      go (t ∷ ts) = ground (arith, go ts)

  pub forget_pin-IsSealed :
      (h : Option ℕ) (db : Db) → IsSealed u h db → IsSealed u h (forget_pin crypto env u db).0
  unfolding forget_pin
  forget_pin-IsSealed h db s =
      let f = λ (s : Staff). record s { pin_hash = none; pin_failed_count = 0 } in
      ended-IsSealed u h _ (
        bind-IsSealed crypto env u none (update_staff u f) (λ _. log u auth_pin_forgot u)
          (λ d k.
            update_staff-IsSealed crypto env u none u f d (λ _. refl) (inr (IsSealed-ended u d k))
              k)
          (λ _ d k. logs-IsSealed crypto env u none d d.consent_logs _ k)
          (revoke_all crypto env u db).0
          (record {
            locked = (revoke_all-IsSealed crypto env u h u db s).locked;
            guarded = inr (revoke_all-AllEnded db);
          }))

  -- What `set_pin` does after the comparison.
  abbrev put_pin : Option ℕ → Text → Option ℕ → M (Unit {0})
  put_pin cookie pin old = do
    update_staff u
        (λ s. record s { pin_hash = some (crypto.bcrypt_hash env.salt pin); pin_failed_count = 0 })
    unlocked ← unlock_session crypto env u cookie
    log u (if is_some old then auth_pin_change else auth_pin_set) u

  put_pin-IsSealed :
      (cookie : Option ℕ) (pin : Text) (old : Option ℕ) (db : Db)
      → IsSealed u none db
      → IsSealed u none (put_pin cookie pin old db).0
  put_pin-IsSealed cookie pin old =
      let action = if is_some old then auth_pin_change else auth_pin_set in
      let f = λ (s : Staff). record s {
        pin_hash = some (crypto.bcrypt_hash env.salt pin);
        pin_failed_count = 0;
      } in
      bind-IsSealed crypto env u none (update_staff u f)
        (λ _. unlock_session crypto env u cookie >>= λ _. log u action u)
        (λ d k.
          update_staff-IsSealed crypto env u none u f d (λ _. refl) (inr (IsSealed-ended u d k)) k)
        (λ _.
          bind-IsSealed crypto env u none (unlock_session crypto env u cookie) (λ _. log u action u)
            (unlock_session-IsSealed cookie)
            (λ _ d k. logs-IsSealed crypto env u none d d.consent_logs _ k))

  compare_and_put-IsSealed :
      (h : ℕ) (cookie : Option ℕ) (pin current : Text) (db : Db)
      → crypto.bcrypt_compare current h ≡ false
      → IsSealed u (some h) db
      → IsSealed u
          (some h)
          ((check_current crypto env u (pin_of u db) current >> put_pin cookie pin (pin_of u db))
            db).0
  unfolding assert_pin_matches
  compare_and_put-IsSealed h cookie pin current db wrong s = elim s.guarded [
    | inl (_, kept) ↦ rw kept (
        assert_wrong-IsSealed h current db wrong s {B = Unit {0}}
          (λ _. put_pin cookie pin (some h)))
    | inr gone ↦ ended-IsSealed u (some h) _ (
        bind-IsSealed crypto env u none (check_current crypto env u (pin_of u db) current)
          (λ _. put_pin cookie pin (pin_of u db))
          (λ d k. elim (Option-cases (pin_of u db)) [
            | inl no_pin ↦ rw no_pin k
            | inr (h', has) ↦ rw has (assert_ended-IsSealed h' current d k)
          ])
          (λ _. put_pin-IsSealed cookie pin (pin_of u db)) db
          (record { locked = s.locked; guarded = inr gone }))
  ]

  pub set_pin_wrong-IsSealed :
      (h : ℕ) (cookie : Option ℕ) (pin current : Text) (db : Db)
      → crypto.bcrypt_compare current h ≡ false
      → IsSealed u (some h) db
      → IsSealed u (some h) (set_pin crypto env u cookie pin current db).0
  unfolding set_pin
  set_pin_wrong-IsSealed h cookie pin current db wrong s =
      bind-IsSealed crypto env u (some h) (check_format crypto env pin)
        (λ _ d.
          (check_current crypto env u (pin_of u d) current >> put_pin cookie pin (pin_of u d)) d)
        (λ d k. elim (Option-cases (validate_pin_format pin)) [
          | inl fine ↦ rw (fine, check_format) k
          | inr (e, bad) ↦ rw (bad, check_format) k
        ])
        (λ _ d. compare_and_put-IsSealed h cookie pin current d wrong) db s
