-- ===== src/Session/Rotation.antt =====
-- What has ended cannot be refreshed: a token that was used, a session that was logged out, and the
-- sessions from before a new password.
use fcare.Base.{
  ℕ, ◌≡◌, ◌∙◌, refl, Bool, true, false, not, ◌&&◌, ◌||◌, none, some, List, [], ◌∷◌, ◌==◌, arith,
  ltb, all, update_where, find-update_where, find-append, find_fits, all-find, err, Bool-cases,
  Option-cases, inl, inr, ==_refl,
}
use fcare.Base.Results.{is_ok}
use fcare.Base.Texts.{Text}
use fcare.Session.{
  Staff, RefreshToken, Db, Crypto, Env, invalid_session, staff_by_id, is_live, M, ◌>>◌,
  update_staff, log, auth_change_password, check, wrong_password, update_tokens,
}
use fcare.Session.Auth.{token_found, rotate, refresh, logout, change_password, require_staff}
use fcare.Session.Store.{ended_row, AllEnded}
use fcare.Session.Refusal.{bind_post}

module _ (crypto : Crypto) where
  -- A token whose row is revoked.
  refresh-revoked :
      (env : Env) (value : ℕ) (db : Db) (t : RefreshToken)
      → token_found crypto env value db ≡ some t
      → is_live t ≡ false
      → (refresh crypto env value db).1 ≡ err invalid_session
  unfolding refresh rotate
  refresh-revoked env value db t there over = elim (Option-cases (staff_by_id t.staff_id db)) [
    | inl nobody ↦ rw there (rw nobody refl)
    | inr (staff, known) ↦ rw there (rw known (rw over refl))
  ]

  refresh-unknown :
      (env : Env) (value : ℕ) (db : Db)
      → token_found crypto env value db ≡ none
      → (refresh crypto env value db).1 ≡ err invalid_session
  unfolding refresh
  refresh-unknown env value db missing = rw missing refl

  -- A token that was exchanged is still the first of its digest, and revoked.
  rotate-token_found :
      (env : Env) (value : ℕ) (db : Db) (t : RefreshToken) (staff : Staff)
      → token_found crypto env value db ≡ some t
      → is_ok (rotate crypto env t staff db).1 ≡ true
      → token_found crypto env value (rotate crypto env t staff db).0
        ≡ some (record t { revoked_at = some env.now })
  unfolding rotate
  rotate-token_found env value db t staff there =
      elim (Bool-cases (is_live t && not (ltb t.expires_at env.now) && staff.is_active)) [
        | inl good ↦
            let revoked : token_found crypto env value (record db {
              tokens =
                  update_where (λ r. r.id == t.id) (λ r. record r { revoked_at = some env.now })
                    db.tokens;
            })
                ≡ some (record t { revoked_at = some env.now }) =
              find-update_where (λ r. r.token_hash == crypto.hash_token value) (λ r. r.id == t.id) _
                db.tokens (λ _. refl) there
              ∙ rw (==_refl t.id) refl in
            rw good (λ _. find-append (λ r. r.token_hash == crypto.hash_token value) _ _ revoked)
        | inr bad ↦ rw bad (λ fine. ground (arith, fine))
      ]

  refresh-token_found :
      (env : Env) (value : ℕ) (db : Db)
      → is_ok (refresh crypto env value db).1 ≡ true
      → (t : RefreshToken) × (token_found crypto env value (refresh crypto env value db).0
          ≡ some (record t { revoked_at = some env.now }))
  unfolding refresh
  refresh-token_found env value db = elim (Option-cases (token_found crypto env value db)) [
    | inl missing ↦ rw missing (λ fine. ground (arith, fine))
    | inr (t, there) ↦ elim (Option-cases (staff_by_id t.staff_id db)) [
      | inl nobody ↦ rw there (rw nobody (λ fine. ground (arith, fine)))
      | inr (staff, known) ↦
          rw there (rw known (λ fine. (t, rotate-token_found env value db t staff there fine)))
    ]
  ]

-- A refresh token that has just been exchanged is refused when it comes again, at any time.
pub refresh-refresh :
    (crypto : Crypto) (env later : Env) (value : ℕ) (db : Db)
    → is_ok (refresh crypto env value db).1 ≡ true
    → (refresh crypto later value (refresh crypto env value db).0).1 ≡ err invalid_session
refresh-refresh crypto env later value db fine =
    let (t, there) = refresh-token_found crypto env value db fine in
    refresh-revoked crypto later value _ (record t { revoked_at = some env.now }) there refl

-- After a logout with a refresh token, that token is refused.
pub refresh-logout :
    (crypto : Crypto) (env later : Env) (value : ℕ) (db : Db)
    → (refresh crypto later value (logout crypto env (some value) db).0).1 ≡ err invalid_session
unfolding logout
refresh-logout crypto env later value db =
    elim (Option-cases (token_found crypto later value db')) [
      | inl missing ↦ refresh-unknown crypto later value db' missing
      | inr (t, there) ↦ refresh-revoked crypto later value db' t there (
          ground (
            arith,
            all-find no_live _ db'.tokens all_over there,
            find_fits (λ r. r.token_hash == crypto.hash_token value) db'.tokens there,
          ))
    ]
  where
    no_live : RefreshToken → Bool
    no_live r = not (r.token_hash == crypto.hash_token value) || not (is_live r)

    db' : Db
    db' = (logout crypto env (some value) db).0

    go :
        (ts : List RefreshToken)
        → all no_live (
            update_where
              (λ r. r.token_hash == crypto.hash_token value && is_live r)
              (λ r. record r { revoked_at = some env.now })
              ts)
          ≡ true
    go [] = refl
    go (t ∷ ts) = ground (arith, go ts)

    all_over : all no_live db'.tokens ≡ true
    all_over = go db.tokens

-- A change of password that succeeds ends every session of the account.
pub change_password-AllEnded :
    (crypto : Crypto) (env : Env) (u : ℕ) (current next : Text) (db : Db)
    → is_ok (change_password crypto env u current next db).1 ≡ true
    → AllEnded u (change_password crypto env u current next db).0
unfolding change_password
change_password-AllEnded crypto env u current next db fine =
    bind_post (require_staff crypto env u) compared (AllEnded u)
      (λ staff.
        bind_post (check (crypto.bcrypt_compare current staff.password_hash) wrong_password)
          (λ _. updated) (AllEnded u)
          (λ _.
            bind_post (update_staff u put_password) (λ _. ended) (AllEnded u)
              (λ _ d _. go d.tokens)))
      db fine
  where
    put_password : Staff → Staff
    put_password s = record s {
      password_hash = crypto.bcrypt_hash env.salt next;
      must_change_password = false;
    }

    ended : M (Unit {0})
    ended =
        update_tokens (λ r. r.staff_id == u && is_live r)
          (λ r. record r { revoked_at = some env.now })
        >> log u auth_change_password u

    updated : M (Unit {0})
    updated = update_staff u put_password >> ended

    compared : Staff → M (Unit {0})
    compared staff =
        check (crypto.bcrypt_compare current staff.password_hash) wrong_password >> updated

    go :
        (ts : List RefreshToken)
        → all (ended_row u) (
            update_where
              (λ r. r.staff_id == u && is_live r)
              (λ r. record r { revoked_at = some env.now })
              ts)
          ≡ true
    go [] = refl
    go (t ∷ ts) = ground (arith, go ts)
