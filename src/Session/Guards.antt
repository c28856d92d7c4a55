-- ===== src/Session/Guards.antt =====
-- apps/api/src/common/guards: what a request passes before its handler runs. A request that the JWT
-- library accepts has a user; the marks of a route are the decorators on its handler or class.
use fcare.Base.{
  ℕ, Bool, true, false, not, ◌||◌, Option, none, some, is_some, if◌then◌else◌, Result, ok, err,
}
use fcare.Access.{AuthUser}
use fcare.Session.{Db, Crypto, Env, PinProofPurpose}
use fcare.Base.Texts.{Text, is_empty}
use fcare.Session.Pin.{PinSessionState, session_state, check_proof}

pub data Method : Type 0 where
  get post put patch delete other_method : Method

-- What the guards read of a request; a refresh cookie or a header that is empty counts as missing.
pub record Request : Type 0 where
  pub method : Method
  pub user : Option AuthUser
  pub access_cookie : Option Text
  pub refresh_cookie : Option ℕ
  pub authorization : Bool
  pub xml_http_request : Bool
  pub proof : Option Text

pub record Route : Type 0 where
  pub is_public : Bool
  pub skip_consent : Bool
  pub skip_pin : Bool
  pub proof_purpose : Option PinProofPurpose

pub data GuardError : Type 0 where
  csrf_rejected unauthenticated password_change_required consent_required : GuardError
  pin_setup_required app_locked pin_proof_required : GuardError

-- `Boolean(access ?? refresh)`: an access cookie that is empty hides the other one.
abbrev pub uses_cookie_auth : Request → Bool
uses_cookie_auth request = elim request.access_cookie [
  | none ↦ is_some request.refresh_cookie
  | some access ↦ not (is_empty access)
]

abbrev pub is_mutating : Method → Bool
is_mutating post = true
is_mutating put = true
is_mutating patch = true
is_mutating delete = true
is_mutating _ = false

unfoldable pub csrf_guard : Request → Result GuardError (Unit {0})
csrf_guard request =
    if not (is_mutating request.method)
    then ok tt
    else if request.authorization || not (uses_cookie_auth request)
    then ok tt
    else if request.xml_http_request
    then ok tt
    else err csrf_rejected

-- `passport` refuses a request without a valid access token on a route that is not public.
unfoldable pub jwt_auth_guard : Route → Request → Result GuardError (Unit {0})
jwt_auth_guard route request =
    if route.is_public || is_some request.user then ok tt else err unauthenticated

abbrev pub consent_of : AuthUser → Result GuardError (Unit {0})
consent_of user =
    if user.must_change_password
    then err password_change_required
    else if not user.consented
    then err consent_required
    else ok tt

unfoldable pub consent_guard : Route → Request → Result GuardError (Unit {0})
consent_guard route request =
    if route.is_public || route.skip_consent
    then ok tt
    else elim request.user [ none ↦ ok tt | some user ↦ consent_of user ]

abbrev pub pin_check : PinSessionState → Result GuardError (Unit {0})
pin_check state =
    if not state.has_pin
    then err pin_setup_required
    else if state.locked
    then err app_locked
    else ok tt

module _ (crypto : Crypto) (env : Env) where
  unfoldable pub pin_guard : Db → Route → Request → Result GuardError (Unit {0})
  pin_guard db route request =
      if route.is_public || (route.skip_consent || route.skip_pin)
      then ok tt
      else elim request.user [
        | none ↦ ok tt
        | some user ↦ pin_check (session_state crypto env user.id request.refresh_cookie db)
      ]

  abbrev pub proof_check : Option AuthUser → PinProofPurpose → Option Text → Bool
  proof_check none purpose proof = false
  proof_check (some user) purpose proof = check_proof crypto env user.id purpose proof

  unfoldable pub pin_proof_guard : Route → Request → Result GuardError (Unit {0})
  pin_proof_guard route request = elim route.proof_purpose [
    | none ↦ ok tt
    | some purpose ↦
        if proof_check request.user purpose request.proof then ok tt else err pin_proof_required
  ]

  infixl 5 ◌then_guard◌
  abbrev pub ◌then_guard◌ :
      Result GuardError (Unit {0}) → Result GuardError (Unit {0}) → Result GuardError (Unit {0})
  ok _ then_guard next = next
  err e then_guard next = err e

  -- The guards of `app.module.ts` in their order, then the one that a route adds. The rate limit
  -- before them and the policies behind them are other libraries' decisions.
  unfoldable pub guard_chain : Db → Route → Request → Result GuardError (Unit {0})
  unfolding csrf_guard jwt_auth_guard consent_guard pin_guard pin_proof_guard
  guard_chain db route request =
      csrf_guard request
      then_guard jwt_auth_guard route request
      then_guard consent_guard route request
      then_guard pin_guard db route request
      then_guard pin_proof_guard route request
