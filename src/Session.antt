-- ===== src/Session.antt =====
-- The accounts and sessions behind apps/api/src/modules/auth: the rows of `Staff`, `RefreshToken` and
-- `ConsentLog` that the code reads and writes, the audit log, and a method as a function of them.
-- A token, a digest and an id are numbers, since the code only compares them; a time is a number of
-- milliseconds.
pub mod PinFormat
pub mod Auth
pub mod Pin
pub mod Guards
mod Store
mod Refusal
mod Rotation
mod Allowed
mod Proofs
mod Lock
mod Sealed
mod Locked
mod Lockout
mod Tests
use fcare.Base.{
  ℕ, ◌+◌, ◌*◌, Bool, true, false, not, ◌&&◌, Option, none, some, List, [], ◌∷◌, ◌++◌, ◌==◌, is_some,
  if◌then◌else◌, find, update_where, any, Result, ok, err,
}
use fcare.Base.Texts.{Text, text_eq}
use fcare.Access.{RoleKey, AuthUser}

pub data AuthMethod : Type 0 where
  password_method google_method : AuthMethod

pub record Staff : Type 0 where
  pub id : ℕ
  pub staff_code : Text
  pub full_name : Text
  pub roles : List RoleKey
  pub department_id : Option ℕ
  pub is_active : Bool
  pub password_hash : ℕ
  pub must_change_password : Bool
  pub pin_hash : Option ℕ
  pub pin_failed_count : ℕ

pub record RefreshToken : Type 0 where
  pub id : ℕ
  pub token_hash : ℕ
  pub staff_id : ℕ
  pub consent_log_id : Option ℕ
  pub auth_method : AuthMethod
  pub locked_at : Option ℕ
  pub revoked_at : Option ℕ
  pub expires_at : ℕ

pub record ConsentLog : Type 0 where
  pub id : ℕ
  pub staff_id : ℕ

pub data AuditAction : Type 0 where
  auth_login auth_change_password : AuditAction
  auth_pin_set auth_pin_change auth_pin_reset auth_pin_forgot auth_pin_lockout : AuditAction

pub record AuditEntry : Type 0 where
  pub staff_id : ℕ
  pub action : AuditAction
  pub entity_id : ℕ

pub record Db : Type 0 where
  pub staff : List Staff
  pub tokens : List RefreshToken
  pub consent_logs : List ConsentLog
  pub audit : List AuditEntry

-- `PIN_PROOF_PURPOSES`
pub data PinProofPurpose : Type 0 where
  backup_restore alert_delete : PinProofPurpose

-- What the libraries and the run time do: sha256 of a token; bcrypt of a password or PIN with its salt;
-- `hmac`, the HMAC of a text under the secret of the proofs, in base64url; an id and a number as texts in
-- a template; and `Number` of a text, if it is an integer that is not negative.
pub record Crypto : Type 0 where
  pub hash_token : ℕ → ℕ
  pub bcrypt_hash : (salt : ℕ) → Text → ℕ
  pub bcrypt_compare : Text → ℕ → Bool
  pub hmac : Text → Text
  pub id_text : ℕ → Text
  pub number_text : ℕ → Text
  pub to_number : Text → Option ℕ

-- What a request takes from outside: the clock, the next id, random bytes and a salt.
pub record Env : Type 0 where
  pub now : ℕ
  pub fresh_id : ℕ
  pub random : ℕ
  pub salt : ℕ

pub data PinFormatError : Type 0 where
  not_six_digits too_easy : PinFormatError

pub data AuthError : Type 0 where
  invalid_credentials invalid_session account_inactive wrong_password : AuthError
  pin_setup_required pin_attempts_exceeded session_revoked : AuthError
  pin_invalid_format : PinFormatError → AuthError
  pin_incorrect : (left : ℕ) → AuthError
  row_missing : AuthError

abbrev pub M : Type 0 → Type 0
M A = Db → Db × Result AuthError A

infixl 5 ◌>>=◌ ◌>>◌
abbrev pub ◌>>=◌ : {A B : Type 0} → M A → (A → M B) → M B
◌>>=◌ m f db = let (db', r) = m db in elim r [ ok a ↦ f a db' | err e ↦ (db', err e) ]

abbrev pub ◌>>◌ : {B : Type 0} → M (Unit {0}) → M B → M B
m >> k = m >>= λ _. k

abbrev pub pure : {A : Type 0} → A → M A
pure a db = (db, ok a)

abbrev pub throw : {A : Type 0} → AuthError → M A
throw e db = (db, err e)

abbrev pub check : Bool → AuthError → M (Unit {0})
check true e = pure tt
check false e = throw e

abbrev pub found {ℓ} : {A : Type ℓ} → Option A → Bool
found o = is_some o

-- `findUnique` by id, and by staff code
abbrev pub staff_by_id : ℕ → Db → Option Staff
staff_by_id id db = find (λ s. s.id == id) db.staff

abbrev pub staff_by_code : Text → Db → Option Staff
staff_by_code code db = find (λ s. text_eq s.staff_code code) db.staff

-- `staff.update({ where: { id }, data })`, which throws if there is no such row
unfoldable pub update_staff : ℕ → (Staff → Staff) → M (Unit {0})
update_staff id f db =
    if is_some (staff_by_id id db)
    then (record db { staff = update_where (λ s. s.id == id) f db.staff }, ok tt)
    else (db, err row_missing)

abbrev pub update_tokens : (RefreshToken → Bool) → (RefreshToken → RefreshToken) → M (Unit {0})
update_tokens fits f db = (record db { tokens = update_where fits f db.tokens }, ok tt)

abbrev pub log : (staff_id : ℕ) → AuditAction → (entity_id : ℕ) → M (Unit {0})
log staff_id action entity_id db =
    let entry : AuditEntry = record {
      staff_id = staff_id;
      action = action;
      entity_id = entity_id;
    } in
    (record db { audit = db.audit ++ entry ∷ [] }, ok tt)

abbrev pub get : M Db
get db = (db, ok db)

-- A row that must be there, or the given error.
abbrev pub require : {A : Type 0} → Option A → AuthError → M A
require none e = throw e
require (some a) e = pure a

abbrev pub is_live : RefreshToken → Bool
is_live t = not (is_some t.revoked_at)
