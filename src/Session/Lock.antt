-- ===== src/Session/Lock.antt =====
-- A locked account stays locked: whatever requests arrive, without its PIN and without a new login
-- none of its sessions is unlocked.
use fcare.Base.{
  ℕ, ◌+◌, ◌≡◌, ◌⊎◌, ◌∙◌, refl, true, not, ◌&&◌, Option, none, some, List, ◌==◌, arith, ltb, leb,
  is_some, all, update_where, Result, ok, err, all-snoc, all-find, ==_iff, Bool-cases, Option-cases,
  inl, inr,
}
use fcare.Session.{
  Staff, RefreshToken, ConsentLog, AuditEntry, Db, Crypto, Env, staff_by_id, is_live, M, ◌>>=◌,
  ◌>>◌, AuthError, update_staff, row_missing, pin_attempts_exceeded, throw, require, log,
  auth_pin_lockout,
}
use fcare.Session.Auth.{refresh, rotate, token_found, logout}
use fcare.Session.Pin.{revoke_all, lock_out, after_failure, count_failure, lock}
use fcare.Session.PinFormat.{max_pin_attempts}
use fcare.Session.Store.{
  locked_row, AllLocked, ended_row, AllEnded, pin_of, end_row-locked, end_row-ended,
  shut_row-locked, pin_hash-update_where, update_staff_found, update_staff_missing, shut_row-ended,
  lock_row-locked, lock_row-ended,
}

-- Every session of the account is locked, and either its PIN is still the given one, or all of its
-- sessions have ended.
pub record IsSealed (u : ℕ) (h : Option ℕ) (db : Db) : Type 0 where
  pub locked : AllLocked u db
  pub guarded : ((is_some h ≡ true) × (pin_of u db ≡ h)) ⊎ AllEnded u db

module _ (crypto : Crypto) (env : Env) (u : ℕ) (h : Option ℕ) where
  rotate-IsSealed :
      (db : Db) (t : RefreshToken) (staff : Staff)
      → locked_row u t ≡ true
      → (AllEnded u db → ended_row u t ≡ true)
      → IsSealed u h db
      → IsSealed u h (rotate crypto env t staff db).0
  unfolding rotate
  rotate-IsSealed db t staff p e s =
      elim (Bool-cases (is_live t && not (ltb t.expires_at env.now) && staff.is_active)) [
        | inr stale ↦ rw stale s
        | inl fresh ↦
            let same = λ (t' : RefreshToken). t'.id == t.id in
            rw fresh (record {
              locked =
                  all-snoc (locked_row u) _ _ (end_row-locked u env.now same db.tokens s.locked) p;
              guarded = elim s.guarded [
                | inl kept ↦ inl kept
                | inr gone ↦ inr (
                    all-snoc (ended_row u) _ _ (end_row-ended u env.now same db.tokens gone)
                      (ground (arith, e gone)))
              ];
            })
      ]

  -- An update of sessions that keeps them locked, and ended if they had ended.
  pub tokens-IsSealed :
      (db : Db) (ts : List RefreshToken)
      → (all (locked_row u) db.tokens ≡ true → all (locked_row u) ts ≡ true)
      → (all (ended_row u) db.tokens ≡ true → all (ended_row u) ts ≡ true)
      → IsSealed u h db
      → IsSealed u h (record db { tokens = ts })
  tokens-IsSealed db ts f g s = record {
    locked = f s.locked;
    guarded = elim s.guarded [ inl kept ↦ inl kept | inr gone ↦ inr (g gone) ];
  }

  -- The logs are no part of it.
  pub logs-IsSealed :
      (db : Db) (logs : List ConsentLog) (entries : List AuditEntry)
      → IsSealed u h db
      → IsSealed u h (record db { consent_logs = logs; audit = entries })
  logs-IsSealed db logs entries s = record { locked = s.locked; guarded = s.guarded }

  pub refresh-IsSealed :
      (value : ℕ) (db : Db) → IsSealed u h db → IsSealed u h (refresh crypto env value db).0
  unfolding refresh
  refresh-IsSealed value db s = elim (Option-cases (token_found crypto env value db)) [
    | inl missing ↦ rw missing s
    | inr (t, there) ↦ elim (Option-cases (staff_by_id t.staff_id db)) [
      | inl nobody ↦ rw there (rw nobody s)
      | inr (staff, known) ↦ rw there (
          rw known (
            rotate-IsSealed db t staff (all-find (locked_row u) _ db.tokens s.locked there)
              (λ gone. all-find (ended_row u) _ db.tokens gone there) s))
    ]
  ]

  pub logout-IsSealed :
      (cookie : Option ℕ) (db : Db) → IsSealed u h db → IsSealed u h (logout crypto env cookie db).0
  unfolding logout
  logout-IsSealed none db s = s
  logout-IsSealed (some value) db s =
      tokens-IsSealed db _ (end_row-locked u env.now _ db.tokens)
        (end_row-ended u env.now _ db.tokens) s

  pub lock-IsSealed :
      (v : ℕ) (cookie : Option ℕ) (db : Db)
      → IsSealed u h db
      → IsSealed u h (lock crypto env v cookie db).0
  unfolding lock
  lock-IsSealed v none db s = s
  lock-IsSealed v (some value) db s =
      tokens-IsSealed db _ (lock_row-locked u env.now _ db.tokens)
        (lock_row-ended u env.now _ db.tokens) s

  pub revoke_all-IsSealed :
      (v : ℕ) (db : Db) → IsSealed u h db → IsSealed u h (revoke_all crypto env v db).0
  unfolding revoke_all
  revoke_all-IsSealed v db s =
      tokens-IsSealed db _ (shut_row-locked u env.now _ db.tokens)
        (shut_row-ended u env.now _ db.tokens) s

  -- An update of accounts that leaves the PIN of the sealed one.
  pub staff-IsSealed :
      (v : ℕ) (f : Staff → Staff) (db : Db)
      → ((s : Staff) → (f s).id ≡ s.id)
      → ((s : Staff) → s.id ≡ v → s.id ≡ u → (f s).pin_hash ≡ s.pin_hash) ⊎ AllEnded u db
      → IsSealed u h db
      → IsSealed u h (record db { staff = update_where (λ s. s.id == v) f db.staff })
  staff-IsSealed v f db g k s = record { locked = s.locked; guarded = still k s.guarded }
    where
      still :
          ((s : Staff) → s.id ≡ v → s.id ≡ u → (f s).pin_hash ≡ s.pin_hash) ⊎ AllEnded u db
          → ((is_some h ≡ true) × (pin_of u db ≡ h)) ⊎ AllEnded u db
          → ((is_some h ≡ true)
              × (pin_of u (record db { staff = update_where (λ s. s.id == v) f db.staff }) ≡ h))
            ⊎ AllEnded u db
      still (inr gone) kept = inr gone
      still (inl same) (inr gone) = inr gone
      still (inl same) (inl (there, kept)) = inl (
        there,
        pin_hash-update_where u (λ s. s.id == v) f db.staff g (λ s e. same s ((==_iff s.id v).0 e))
            ∙ kept,
      )

  -- A method keeps the seal if its steps do.
  pub bind-IsSealed :
      {A B : Type 0} (m : M A) (f : A → M B)
      → ((db : Db) → IsSealed u h db → IsSealed u h (m db).0)
      → ((a : A) (db : Db) → IsSealed u h db → IsSealed u h (f a db).0)
      → (db : Db) → IsSealed u h db
      → IsSealed u h ((m >>= f) db).0
  bind-IsSealed {A = A} {B = B} m f km kf db s = go (m db) (km db s)
    where
      go :
          (p : Db × Result AuthError A)
          → IsSealed u h p.0
          → IsSealed u h
              (elim p.1 as (λ _. Db × Result AuthError B) [
                | ok a ↦ f a p.0
                | err e ↦ (p.0, err e)
              ]).0
      go (db', ok a) s' = kf a db' s'
      go (db', err e) s' = s'

  pub update_staff-IsSealed :
      (v : ℕ) (f : Staff → Staff) (db : Db)
      → ((s : Staff) → (f s).id ≡ s.id)
      → ((s : Staff) → s.id ≡ v → s.id ≡ u → (f s).pin_hash ≡ s.pin_hash) ⊎ AllEnded u db
      → IsSealed u h db
      → IsSealed u h (update_staff v f db).0
  update_staff-IsSealed v f db g k s = elim (Bool-cases (is_some (staff_by_id v db))) [
    | inr nobody ↦ rw (update_staff_missing v f db nobody) s
    | inl known ↦ rw (update_staff_found v f db known) (staff-IsSealed v f db g k s)
  ]

  lock_out-IsSealed :
      (v : ℕ) (db : Db) → IsSealed u h db → IsSealed u h (lock_out crypto env v db).0
  unfolding lock_out
  lock_out-IsSealed v db s =
      bind-IsSealed (revoke_all crypto env v)
        (λ _.
          update_staff v (λ s. record s { pin_failed_count = 0 })
          >> (log v auth_pin_lockout v >> throw {A = Unit {0}} pin_attempts_exceeded))
        (revoke_all-IsSealed v)
        (λ _ db' s'.
          bind-IsSealed (update_staff v (λ s. record s { pin_failed_count = 0 }))
            (λ _. log v auth_pin_lockout v >> throw {A = Unit {0}} pin_attempts_exceeded)
            (λ d. update_staff-IsSealed v _ d (λ _. refl) (inl (λ _ _ _. refl)))
            (λ _ d. logs-IsSealed d _ _) db' s')
        db s

  pub count_failure-IsSealed :
      (v : ℕ) (db : Db) → IsSealed u h db → IsSealed u h (count_failure crypto env v db).0
  unfolding count_failure after_failure
  count_failure-IsSealed v db s =
      bind-IsSealed (update_staff v (λ s. record s { pin_failed_count = s.pin_failed_count + 1 }))
        (λ _ d.
          (require (staff_by_id v d) row_missing >>= λ staff.
          after_failure crypto env v staff.pin_failed_count)
            d)
        (λ d. update_staff-IsSealed v _ d (λ _. refl) (inl (λ _ _ _. refl)))
        (λ _ d s'. elim (Option-cases (staff_by_id v d)) [
          | inl gone ↦ rw gone s'
          | inr (staff, there) ↦ elim (Bool-cases (leb max_pin_attempts staff.pin_failed_count)) [
            | inl last ↦ rw there (rw last (lock_out-IsSealed v d s'))
            | inr more ↦ rw there (rw more s')
          ]
        ])
        db s
