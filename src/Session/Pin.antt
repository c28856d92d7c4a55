-- ===== src/Session/Pin.antt =====
-- apps/api/src/modules/auth/pin.service.ts: the PIN that locks the application.
use fcare.Base.{
  ℕ, ◌+◌, ◌-◌, Bool, false, not, ◌&&◌, Option, none, some, ◌==◌, ltb, leb, is_some, if◌then◌else◌,
  any, List, [], ◌∷◌, ◌++◌,
}
use fcare.Base.Texts.{Text, is_empty, text_eq}
use fcare.Base.Splits.{split}
use fcare.Session.{
  Staff, RefreshToken, Db, Crypto, Env, PinProofPurpose, backup_restore, alert_delete,
  pin_invalid_format, pin_setup_required, pin_incorrect, pin_attempts_exceeded, session_revoked,
  row_missing, M, ◌>>=◌, ◌>>◌, pure, throw, check, staff_by_id, update_staff, update_tokens, log,
  get, require, is_live, auth_pin_set, auth_pin_change, auth_pin_reset, auth_pin_forgot,
  auth_pin_lockout,
}
use fcare.Session.PinFormat.{validate_pin_format, max_pin_attempts}
use fcare.Session.Auth.{token_found}

-- 2 minutes
abbrev pub proof_ttl_ms : ℕ
proof_ttl_ms = 120000

pub record PinSessionState : Type 0 where
  pub has_pin : Bool
  pub locked : Bool

-- `.`
abbrev pub dot : ℕ
dot = 46

-- `PIN_PROOF_PURPOSES`
abbrev pub purpose_text : PinProofPurpose → Text
purpose_text backup_restore =
    66 ∷ 65 ∷ 67 ∷ 75 ∷ 85 ∷ 80 ∷ 95 ∷ 82 ∷ 69 ∷ 83 ∷ 84 ∷ 79 ∷ 82 ∷ 69 ∷ []
purpose_text alert_delete = 65 ∷ 76 ∷ 69 ∷ 82 ∷ 84 ∷ 95 ∷ 68 ∷ 69 ∷ 76 ∷ 69 ∷ 84 ∷ 69 ∷ []

abbrev pub has_pin_of : Option Staff → Bool
has_pin_of none = false
has_pin_of (some s) = is_some s.pin_hash

-- `loadPinState`: the digest of a PIN, absent also for an account that is not there
abbrev pub pin_hash_of : Option Staff → Option ℕ
pin_hash_of none = none
pin_hash_of (some s) = s.pin_hash

abbrev pub failed_count_of : Option Staff → ℕ
failed_count_of none = 0
failed_count_of (some s) = s.pin_failed_count

module _ (crypto : Crypto) where
  abbrev pub signed_text : ℕ → PinProofPurpose → ℕ → Text
  signed_text user_id purpose exp =
      crypto.id_text user_id ++ (dot ∷ (purpose_text purpose ++ (dot ∷ crypto.number_text exp)))

  abbrev pub sign : ℕ → PinProofPurpose → ℕ → Text
  sign user_id purpose exp = crypto.hmac (signed_text user_id purpose exp)

module _ (crypto : Crypto) (env : Env) where
  abbrev pub unlocked_state : ℕ → Db → PinSessionState
  unlocked_state user_id db = record {
    has_pin = has_pin_of (staff_by_id user_id db);
    locked = false;
  }

  -- The session of the cookie, if it is the user's; the account alone, if there is none.
  abbrev pub state_of_session : ℕ → Db → Option RefreshToken → PinSessionState
  state_of_session user_id db none = unlocked_state user_id db
  state_of_session user_id db (some t) =
      if t.staff_id == user_id
      then record { has_pin = has_pin_of (staff_by_id t.staff_id db); locked = is_some t.locked_at }
      else unlocked_state user_id db

  unfoldable pub session_state : ℕ → Option ℕ → Db → PinSessionState
  session_state user_id none db = unlocked_state user_id db
  session_state user_id (some cookie) db =
      state_of_session user_id db (token_found crypto env cookie db)

  abbrev pub is_session_of : ℕ → ℕ → RefreshToken → Bool
  is_session_of user_id cookie t =
      t.token_hash == crypto.hash_token cookie && (t.staff_id == user_id && is_live t)

  -- Whether there was a live session to unlock.
  unfoldable pub unlock_session : ℕ → Option ℕ → M Bool
  unlock_session user_id none = pure false
  unlock_session user_id (some cookie) = do
    db ← get
    update_tokens (is_session_of user_id cookie) (λ t. record t { locked_at = none })
    pure (any (is_session_of user_id cookie) db.tokens)

  -- Every live session of a user is revoked, and locked for the access token that is still valid.
  unfoldable pub revoke_all : ℕ → M (Unit {0})
  revoke_all user_id =
      update_tokens (λ t. t.staff_id == user_id && is_live t)
        (λ t. record t { revoked_at = some env.now; locked_at = some env.now })

  -- The last attempt ends every session.
  unfoldable pub lock_out : ℕ → M (Unit {0})
  unfolding revoke_all
  lock_out user_id = do
    revoke_all user_id
    update_staff user_id (λ s. record s { pin_failed_count = 0 })
    log user_id auth_pin_lockout user_id
    throw pin_attempts_exceeded

  unfoldable pub after_failure : ℕ → ℕ → M (Unit {0})
  unfolding lock_out
  after_failure user_id failed =
      if leb max_pin_attempts failed
      then lock_out user_id
      else throw (pin_incorrect (max_pin_attempts - failed))

  -- What follows a wrong PIN: the counter goes up by one.
  unfoldable pub count_failure : ℕ → M (Unit {0})
  unfolding after_failure
  count_failure user_id = do
    update_staff user_id (λ s. record s { pin_failed_count = s.pin_failed_count + 1 })
    db ← get
    staff ← require (staff_by_id user_id db) row_missing
    after_failure user_id staff.pin_failed_count

  unfoldable pub assert_pin_matches : ℕ → (pin_hash : ℕ) → (pin : Text) → M (Unit {0})
  unfolding count_failure
  assert_pin_matches user_id pin_hash pin =
      let failed = count_failure user_id in
      if crypto.bcrypt_compare pin pin_hash then pure tt else failed

  abbrev pub check_format : Text → M (Unit {0})
  check_format pin = elim (validate_pin_format pin) [
    | none ↦ pure tt
    | some e ↦ throw (pin_invalid_format e)
  ]

  abbrev pub check_current : ℕ → Option ℕ → Text → M (Unit {0})
  unfolding assert_pin_matches
  check_current user_id none current = pure tt
  check_current user_id (some h) current = assert_pin_matches user_id h current

  -- A PIN that is not sent as `currentPin` is the empty text.
  unfoldable pub set_pin : ℕ → Option ℕ → (pin : Text) → (current_pin : Text) → M (Unit {0})
  unfolding assert_pin_matches unlock_session
  set_pin user_id cookie pin current_pin = do
    check_format pin
    db ← get
    let old = pin_hash_of (staff_by_id user_id db)
    check_current user_id old current_pin
    update_staff user_id
        (λ s. record s { pin_hash = some (crypto.bcrypt_hash env.salt pin); pin_failed_count = 0 })
    unlocked ← unlock_session user_id cookie
    log user_id (if is_some old then auth_pin_change else auth_pin_set) user_id

  abbrev pub issue_proof : ℕ → PinProofPurpose → Text
  issue_proof user_id purpose =
      let exp = env.now + proof_ttl_ms in
      crypto.number_text exp ++ (dot ∷ sign crypto user_id purpose exp)

  abbrev pub reset_count : ℕ → ℕ → M (Unit {0})
  reset_count user_id failed =
      if ltb 0 failed
      then update_staff user_id (λ s. record s { pin_failed_count = 0 })
      else pure tt

  abbrev pub proof_for : ℕ → Option PinProofPurpose → Option Text
  proof_for user_id none = none
  proof_for user_id (some purpose) = some (issue_proof user_id purpose)

  -- A right PIN does not bring back a session that has ended.
  unfoldable pub verify : ℕ → Option ℕ → (pin : Text) → Option PinProofPurpose → M (Option Text)
  unfolding assert_pin_matches unlock_session
  verify user_id cookie pin purpose = do
    db ← get
    let staff = staff_by_id user_id db
    h ← require (pin_hash_of staff) pin_setup_required
    assert_pin_matches user_id h pin
    reset_count user_id (failed_count_of staff)
    unlocked ← unlock_session user_id cookie
    check (not (is_some cookie && not unlocked)) session_revoked
    pure (proof_for user_id purpose)

  unfoldable pub lock : ℕ → Option ℕ → M (Unit {0})
  lock user_id none = pure tt
  lock user_id (some cookie) =
      update_tokens (λ t. is_session_of user_id cookie t && not (is_some t.locked_at))
        (λ t. record t { locked_at = some env.now })

  unfoldable pub reset_pin : (admin_id staff_id : ℕ) → M (Unit {0})
  reset_pin admin_id staff_id = do
    update_staff staff_id (λ s. record s { pin_hash = none; pin_failed_count = 0 })
    log admin_id auth_pin_reset staff_id

  unfoldable pub forget_pin : ℕ → M (Unit {0})
  unfolding revoke_all
  forget_pin user_id = do
    revoke_all user_id
    update_staff user_id (λ s. record s { pin_hash = none; pin_failed_count = 0 })
    log user_id auth_pin_forgot user_id

  -- `timingSafeEqual` of two texts of one length is their equality.
  abbrev pub check_signature : ℕ → PinProofPurpose → Option ℕ → Text → Bool
  check_signature user_id purpose none signature = false
  check_signature user_id purpose (some exp) signature =
      not (is_empty signature)
      && (not (ltb exp env.now) && text_eq (sign crypto user_id purpose exp) signature)

  -- `const [expText, signature]`, with what the rest of the function does.
  abbrev pub check_parts : ℕ → PinProofPurpose → List Text → Bool
  check_parts user_id purpose (exp_text ∷ (signature ∷ rest)) =
      check_signature user_id purpose (crypto.to_number exp_text) signature
  check_parts user_id purpose _ = false

  -- The parts of an empty proof have no signature.
  unfoldable pub check_proof : ℕ → PinProofPurpose → Option Text → Bool
  unfolding split
  check_proof user_id purpose none = false
  check_proof user_id purpose (some proof) = check_parts user_id purpose (split dot proof)
