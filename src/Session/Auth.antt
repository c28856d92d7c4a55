-- ===== src/Session/Auth.antt =====
-- apps/api/src/modules/auth/auth.service.ts: login by password, refresh, consent, logout, password.
-- `signAccessToken` signs the fields of the user, so the access token of a result is its user.
use fcare.Base.{
  ℕ, ◌+◌, Bool, true, false, not, ◌&&◌, Option, none, some, [], ◌∷◌, ◌++◌, ◌==◌, ltb, is_some, find,
  ok,
}
use fcare.Base.Texts.{Text}
use fcare.Access.{AuthUser}
use fcare.Session.{
  AuthMethod, password_method, google_method, Staff, RefreshToken, Db, Crypto, Env,
  invalid_credentials, invalid_session, account_inactive, wrong_password, M, ◌>>=◌, ◌>>◌, pure,
  check, staff_by_id, staff_by_code, update_staff, update_tokens, log, get, require, is_live,
  auth_login, auth_change_password,
}

-- 7 days
abbrev pub refresh_token_ttl_ms : ℕ
refresh_token_ttl_ms = 604800000

pub record AuthSession : Type 0 where
  pub user : AuthUser
  pub refresh_token : ℕ

abbrev pub is_password : AuthMethod → Bool
is_password password_method = true
is_password google_method = false

-- A temporary password must be changed only after a login by password.
unfoldable pub to_auth_user : Staff → Bool → AuthMethod → AuthUser
to_auth_user staff consented auth_method = record {
  id = staff.id;
  staff_code = staff.staff_code;
  full_name = staff.full_name;
  roles = staff.roles;
  department_id = staff.department_id;
  consented = consented;
  must_change_password = is_password auth_method && staff.must_change_password;
}

module _ (crypto : Crypto) (env : Env) where
  abbrev pub token_found : ℕ → Db → Option RefreshToken
  token_found value db = find (λ t. t.token_hash == crypto.hash_token value) db.tokens

  unfoldable pub issue_refresh_token :
      (staff_id : ℕ) (consent_log_id : Option ℕ) → AuthMethod → (locked_at : Option ℕ) → M ℕ
  issue_refresh_token staff_id consent_log_id auth_method locked_at db = (
    record db {
      tokens =
          db.tokens
          ++ record {
            id = env.fresh_id;
            token_hash = crypto.hash_token env.random;
            staff_id = staff_id;
            consent_log_id = consent_log_id;
            auth_method = auth_method;
            locked_at = locked_at;
            revoked_at = none;
            expires_at = env.now + refresh_token_ttl_ms;
          }
            ∷ [];
    },
    ok env.random,
  )

  unfoldable pub require_staff : ℕ → M Staff
  require_staff user_id = do
    db ← get
    staff ← require (staff_by_id user_id db) account_inactive
    check staff.is_active account_inactive
    pure staff

  unfoldable pub login : Text → Text → M AuthSession
  unfolding issue_refresh_token to_auth_user
  login staff_code password = do
    db ← get
    staff ← require (staff_by_code staff_code db) invalid_credentials
    check staff.is_active invalid_credentials
    check (crypto.bcrypt_compare password staff.password_hash) invalid_credentials
    update_staff staff.id (λ s. record s { pin_failed_count = 0 })
    refresh_token ← issue_refresh_token staff.id none password_method none
    log staff.id auth_login staff.id
    pure (record { user = to_auth_user staff false password_method; refresh_token = refresh_token })

  -- The old token is revoked; the new one keeps the consent, the way of login and the lock.
  unfoldable pub rotate : RefreshToken → Staff → M AuthSession
  unfolding issue_refresh_token to_auth_user
  rotate t staff = do
    check (is_live t && not (ltb t.expires_at env.now) && staff.is_active) invalid_session
    update_tokens (λ r. r.id == t.id) (λ r. record r { revoked_at = some env.now })
    refresh_token ← issue_refresh_token t.staff_id t.consent_log_id t.auth_method t.locked_at
    pure (record {
      user = to_auth_user staff (is_some t.consent_log_id) t.auth_method;
      refresh_token = refresh_token;
    })

  -- The account of a session is there by the foreign key.
  unfoldable pub refresh : ℕ → M AuthSession
  unfolding rotate
  refresh value = do
    db ← get
    t ← require (token_found value db) invalid_session
    staff ← require (staff_by_id t.staff_id db) invalid_session
    rotate t staff

  unfoldable pub logout : Option ℕ → M (Unit {0})
  logout none = pure tt
  logout (some value) =
      update_tokens (λ r. r.token_hash == crypto.hash_token value && is_live r)
        (λ r. record r { revoked_at = some env.now })

  unfoldable pub change_password : (user_id : ℕ) (current next : Text) → M (Unit {0})
  unfolding require_staff
  change_password user_id current next = do
    staff ← require_staff user_id
    check (crypto.bcrypt_compare current staff.password_hash) wrong_password
    update_staff user_id (λ s. record s {
      password_hash = crypto.bcrypt_hash env.salt next;
      must_change_password = false;
    })
    update_tokens (λ r. r.staff_id == user_id && is_live r)
        (λ r. record r { revoked_at = some env.now })
    log user_id auth_change_password user_id

  -- The way in which the session of a cookie began; a password where there is none.
  abbrev pub method_of : Option ℕ → Db → AuthMethod
  method_of none db = password_method
  method_of (some value) db = elim (token_found value db) [
    | none ↦ password_method
    | some t ↦ t.auth_method
  ]

  abbrev pub add_consent_log : ℕ → M (Unit {0})
  add_consent_log user_id db = (
    record db {
      consent_logs = db.consent_logs ++ record { id = env.fresh_id; staff_id = user_id } ∷ [];
    },
    ok tt,
  )

  abbrev pub attach_consent : ℕ → Option ℕ → M (Unit {0})
  attach_consent user_id none = pure tt
  attach_consent user_id (some value) =
      update_tokens
        (λ r. r.staff_id == user_id && (r.token_hash == crypto.hash_token value && is_live r))
        (λ r. record r { consent_log_id = some env.fresh_id })

  unfoldable pub record_consent : ℕ → Option ℕ → M AuthUser
  unfolding require_staff to_auth_user
  record_consent user_id cookie = do
    staff ← require_staff user_id
    db ← get
    let auth_method = method_of cookie db
    add_consent_log user_id
    attach_consent user_id cookie
    pure (to_auth_user staff true auth_method)
