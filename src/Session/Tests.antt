-- ===== src/Session/Tests.antt =====
-- A lecturer with a PIN and one session, and the theorems at the requests of that session.
use fcare.Base.{
  ℕ, ◌+◌, ◌-◌, ap, arith, ◌≡◌, refl, true, false, Option, none, some, [], ◌∷◌, ◌==◌, leb, err,
  length,
}
use fcare.Base.Texts.{Text}
use fcare.Access.{lecturer, AuthUser}
use fcare.Session.{
  password_method, Staff, RefreshToken, Db, Crypto, Env, alert_delete, backup_restore,
  invalid_session, update_staff,
}
use fcare.Session.Auth.{refresh, logout, change_password}
use fcare.Session.Pin.{session_state, check_proof, issue_proof, proof_ttl_ms, sign, signed_text}
use fcare.Session.Guards.{Request, Route, patch, guard_chain}
use fcare.Session.Store.{AllEnded}
use fcare.Session.Locked.{Moves, none_made, made, refreshed, Moves-locked}
use fcare.Session.Lockout.{Attempt, attempts, wrong_pins-AllEnded}
use fcare.Session.Rotation.{refresh-refresh, refresh-logout, change_password-AllEnded}
use fcare.Session.Allowed.{IsAllowed, guard_chain-allows}
use fcare.Session.Proofs.{IsDocumented, check_proof-issue_proof, check_proof-foreign}

abbrev sum : Text → ℕ
sum [] = 0
sum (c ∷ t) = c + sum t

abbrev first : Text → ℕ
first [] = 0
first (c ∷ t) = c

abbrev read_number : Text → Option ℕ
read_number (c ∷ []) = some (c - 100)
read_number _ = none

-- A stand-in for the libraries: a text's digest is its length or the sum of its units, and a number is
-- written as one unit.
abbrev plain : Crypto
plain = record {
  hash_token = λ value. value + 1000;
  bcrypt_hash = λ salt text. length text;
  bcrypt_compare = λ text digest. length text == digest;
  hmac = λ text. (100 + sum text) ∷ [];
  id_text = λ id. (100 + id) ∷ [];
  number_text = λ n. (100 + n) ∷ [];
  to_number = read_number;
}

documented : IsDocumented plain
documented = record {
  number_back = λ n. ground arith;
  number_dotless = λ n. ground arith;
  id_dotless = λ i. ground arith;
  id_apart = λ i j e. ground (arith, ap first e);
  hmac_dotless = λ t. ground arith;
  hmac_there = λ t. refl;
}

abbrev noon : Env
noon = record { now = 1000; fresh_id = 8; random = 77; salt = 0 }

abbrev later : Env
later = record { now = 2000; fresh_id = 9; random = 78; salt = 0 }

abbrev teacher : Staff
teacher = record {
  id = 7;
  staff_code = b'G' ∷ [];
  full_name = [];
  roles = lecturer ∷ [];
  department_id = some 1;
  is_active = true;
  password_hash = 8;
  must_change_password = false;
  pin_hash = some 6;
  pin_failed_count = 3;
}

abbrev session_of : Option ℕ → RefreshToken
session_of locked_at = record {
  id = 1;
  token_hash = 1042;
  staff_id = 7;
  consent_log_id = some 5;
  auth_method = password_method;
  locked_at = locked_at;
  revoked_at = none;
  expires_at = 5000;
}

abbrev db_with : Option ℕ → Db
db_with locked_at = record {
  staff = teacher ∷ [];
  tokens = session_of locked_at ∷ [];
  consent_logs = [];
  audit = [];
}

-- The lock is inherited by the session that a refresh opens.
refresh-Moves : Moves plain 7 6 (db_with (some 900)) (refresh plain noon 42 (db_with (some 900))).0
refresh-Moves = made none_made (refreshed noon 42)

Moves-locked_example :
    (session_state plain later 7 (some 77) (refresh plain noon 42 (db_with (some 900))).0).locked
    ≡ true
unfolding refresh
Moves-locked_example =
    Moves-locked plain 7 6 (db_with (some 900)) (refresh plain noon 42 (db_with (some 900))).0 later
      77 (record (session_of (some 900)) { id = 8; token_hash = 1077; expires_at = 604801000 }) refl
      refl refresh-Moves refl refl

abbrev wrong : Attempt
wrong = record { env = noon; cookie = some 42; pin = b'1' ∷ [] }

wrong_pins-AllEnded_example : AllEnded 7 (attempts plain 7 (wrong ∷ wrong ∷ []) (db_with none))
wrong_pins-AllEnded_example =
    wrong_pins-AllEnded plain 7 6 3 (wrong ∷ wrong ∷ []) (db_with none)
      (record { staff = teacher; there = refl; pin = refl; count = refl }) refl refl refl

refresh-refresh_example :
    (refresh plain later 42 (refresh plain noon 42 (db_with none)).0).1 ≡ err invalid_session
unfolding refresh
refresh-refresh_example = refresh-refresh plain noon later 42 (db_with none) refl

refresh-logout_example :
    (refresh plain later 42 (logout plain noon (some 42) (db_with none)).0).1 ≡ err invalid_session
refresh-logout_example = refresh-logout plain noon later 42 (db_with none)

abbrev secret : Text
secret = 1 ∷ 2 ∷ 3 ∷ 4 ∷ 5 ∷ 6 ∷ 7 ∷ 8 ∷ []

change_password-AllEnded_example :
    AllEnded 7 (change_password plain noon 7 secret (b'n' ∷ []) (db_with none)).0
unfolding change_password update_staff
change_password-AllEnded_example =
    change_password-AllEnded plain noon 7 secret (b'n' ∷ []) (db_with none) refl

abbrev user : AuthUser
user = record {
  id = 7;
  staff_code = b'G' ∷ [];
  full_name = [];
  roles = lecturer ∷ [];
  department_id = some 1;
  consented = true;
  must_change_password = false;
}

abbrev patch_request : Request
patch_request = record {
  method = patch;
  user = some user;
  access_cookie = some (b'J' ∷ []);
  refresh_cookie = some 42;
  authorization = false;
  xml_http_request = true;
  proof = none;
}

abbrev plain_route : Route
plain_route = record {
  is_public = false;
  skip_consent = false;
  skip_pin = false;
  proof_purpose = none;
}

guard_chain-allows_example :
    (known : AuthUser) × (some user ≡ some known)
    × IsAllowed plain noon (db_with none) patch_request known
unfolding guard_chain session_state
guard_chain-allows_example =
    guard_chain-allows plain noon (db_with none) plain_route patch_request refl refl

check_proof-issue_proof_example :
    check_proof plain later 7 alert_delete (some (issue_proof plain noon 7 alert_delete))
    ≡ leb 2000 (1000 + proof_ttl_ms)
check_proof-issue_proof_example = check_proof-issue_proof plain noon later 7 alert_delete documented

-- The digests of the two purposes differ.
apart :
    sign plain 7 backup_restore (1000 + proof_ttl_ms)
      ≡ sign plain 7 alert_delete (1000 + proof_ttl_ms)
    → signed_text plain 7 backup_restore (1000 + proof_ttl_ms)
      ≡ signed_text plain 7 alert_delete (1000 + proof_ttl_ms)
apart e = ground (arith, ap first e)

other_purpose : ¬ ((◌≡◌ {A = ℕ} 7 7) × (backup_restore ≡ alert_delete))
other_purpose (_, e) = cc

check_proof-foreign_example :
    check_proof plain later 7 backup_restore (some (issue_proof plain noon 7 alert_delete)) ≡ false
check_proof-foreign_example =
    check_proof-foreign plain noon later 7 7 alert_delete backup_restore documented apart
      other_purpose
