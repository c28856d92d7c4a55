-- ===== src/Session/Allowed.antt =====
-- What the guards promise the handler that they let a request through to.
use fcare.Base.{
  ℕ, ◌≡◌, Bool, true, false, not, ◌&&◌, ◌||◌, Option, none, some, [], ◌∷◌, arith, is_some,
}
use fcare.Base.Texts.{Text}
use fcare.Base.Results.{is_ok}
use fcare.Access.{AuthUser}
use fcare.Session.{Db, Crypto, Env}
use fcare.Session.Pin.{session_state}
use fcare.Session.Guards.{
  Request, Route, guard_chain, csrf_guard, jwt_auth_guard, consent_guard, pin_guard,
  pin_proof_guard, is_mutating,
}

-- A request that changes something and brings a session's cookie was sent by a script of the page, unless it
-- carries an authorization header.
abbrev pub brings_cookie : Option Text → Option ℕ → Bool
brings_cookie (some []) refresh = false
brings_cookie (some (c ∷ access)) refresh = true
brings_cookie none refresh = is_some refresh

abbrev pub is_forged : Request → Bool
is_forged request =
    is_mutating request.method
    && not request.authorization
    && brings_cookie request.access_cookie request.refresh_cookie
    && not request.xml_http_request

module _ (crypto : Crypto) (env : Env) where
  -- What holds of a user on a route without marks.
  pub record IsAllowed (db : Db) (request : Request) (user : AuthUser) : Type 0 where
    pub not_forged : is_forged request ≡ false
    pub consented : user.consented ≡ true
    pub password_kept : user.must_change_password ≡ false
    pub has_pin : (session_state crypto env user.id request.refresh_cookie db).has_pin ≡ true
    pub unlocked : (session_state crypto env user.id request.refresh_cookie db).locked ≡ false

-- A request that passes the guards of a route without marks has a user, who has consented, is not
-- made to change the password, has a PIN and no locked session at its cookie; and it is not forged.
pub guard_chain-allows :
    (crypto : Crypto) (env : Env) (db : Db) (route : Route) (request : Request)
    → route.is_public || (route.skip_consent || route.skip_pin) ≡ false
    → is_ok (guard_chain crypto env db route request) ≡ true
    → (user : AuthUser) × (request.user ≡ some user) × IsAllowed crypto env db request user
unfolding guard_chain csrf_guard jwt_auth_guard consent_guard pin_guard pin_proof_guard
guard_chain-allows crypto env db route request plain fine = ground (arith, fine, plain)
