-- ===== src/Session/Proofs.antt =====
-- The proof that a PIN was entered just now: what `verify` issues, `checkProof` reads.
use fcare.Base.{
  ℕ, ◌+◌, ◌≡◌, refl, sym, ap, ◌∙◌, false, not, ◌&&◌, some, List, [], ◌∷◌, arith, leb, ltb, contains,
  length, Bool-cases, inl, inr,
}
use fcare.Base.Texts.{Text, is_empty, text_eq, text_eq_refl, text_eq→eq}
use fcare.Base.Splits.{split, split-joined, split-whole}
use fcare.Session.{Crypto, Env, PinProofPurpose, backup_restore, alert_delete}
use fcare.Session.Pin.{
  dot, purpose_text, signed_text, sign, issue_proof, check_proof, check_parts, check_signature,
  proof_ttl_ms,
}

-- What the library and the run time document: a number's text reads back; the texts of numbers and ids,
-- and base64url, have no dot; ids have different texts; and no digest is empty.
pub record IsDocumented (crypto : Crypto) : Type 0 where
  pub number_back : (n : ℕ) → crypto.to_number (crypto.number_text n) ≡ some n
  pub number_dotless : (n : ℕ) → contains (crypto.number_text n) dot ≡ false
  pub id_dotless : (i : ℕ) → contains (crypto.id_text i) dot ≡ false
  pub id_apart : (i j : ℕ) → crypto.id_text i ≡ crypto.id_text j → i ≡ j
  pub hmac_dotless : (t : Text) → contains (crypto.hmac t) dot ≡ false
  pub hmac_there : (t : Text) → is_empty (crypto.hmac t) ≡ false

purpose_dotless : (p : PinProofPurpose) → contains (purpose_text p) dot ≡ false
purpose_dotless backup_restore = refl
purpose_dotless alert_delete = refl

purpose_apart : (p q : PinProofPurpose) → purpose_text p ≡ purpose_text q → p ≡ q
purpose_apart backup_restore backup_restore e = refl
purpose_apart alert_delete alert_delete e = refl
purpose_apart backup_restore alert_delete e =
    let clash : 14 ≡ 12 = ap (λ (t : Text). length t) e in ground (arith, clash)
purpose_apart alert_delete backup_restore e =
    let clash : 12 ≡ 14 = ap (λ (t : Text). length t) e in ground (arith, clash)

module _ (crypto : Crypto) (laws : IsDocumented crypto) where
  signed_text-split :
      (user_id : ℕ) (purpose : PinProofPurpose) (exp : ℕ)
      → split dot (signed_text crypto user_id purpose exp)
        ≡ crypto.id_text user_id ∷ purpose_text purpose ∷ crypto.number_text exp ∷ []
  signed_text-split user_id purpose exp =
      split-joined dot (crypto.id_text user_id) _ (laws.id_dotless user_id)
      ∙ ap (λ parts. crypto.id_text user_id ∷ parts)
          (split-joined dot (purpose_text purpose) _ (purpose_dotless purpose)
            ∙ ap (λ parts. purpose_text purpose ∷ parts)
                (split-whole dot (crypto.number_text exp) (laws.number_dotless exp)))

  -- What is signed tells the user and the purpose.
  signed_text-apart :
      (user_id other : ℕ) (purpose wanted : PinProofPurpose) (exp : ℕ)
      → signed_text crypto user_id purpose exp ≡ signed_text crypto other wanted exp
      → (user_id ≡ other) × (purpose ≡ wanted)
  signed_text-apart user_id other purpose wanted exp e =
      let parts =
        sym (signed_text-split user_id purpose exp)
        ∙ ap (split dot) e
        ∙ signed_text-split other wanted exp in
      (laws.id_apart user_id other (ap first parts), purpose_apart purpose wanted (ap second parts))
    where
      first : List Text → Text
      first [] = []
      first (t ∷ ts) = t

      second : List Text → Text
      second (t ∷ (u ∷ ts)) = u
      second _ = []

  -- The check reads the expiry and the signature of an issued proof.
  check_proof-parts :
      (env later : Env) (user_id other : ℕ) (purpose wanted : PinProofPurpose)
      → let exp = env.now + proof_ttl_ms in
        check_proof crypto later other wanted (some (issue_proof crypto env user_id purpose)) ≡ (
          not (ltb exp later.now)
          && text_eq (sign crypto other wanted exp) (sign crypto user_id purpose exp))
  unfolding check_proof
  check_proof-parts env later user_id other purpose wanted =
      let exp = env.now + proof_ttl_ms in
      let signature = sign crypto user_id purpose exp in
      ap (check_parts crypto later other wanted) (
        split-joined dot (crypto.number_text exp) signature (laws.number_dotless exp)
        ∙ ap (λ parts. crypto.number_text exp ∷ parts)
            (split-whole dot signature (laws.hmac_dotless _)))
      ∙ ap (λ read. check_signature crypto later other wanted read signature) (laws.number_back exp)
      ∙ rw (laws.hmac_there (signed_text crypto user_id purpose exp)) refl

-- The proof that `verify` issues is accepted for its user and purpose for two minutes and no longer, where
-- the run time writes and reads numbers and digests as documented.
pub check_proof-issue_proof :
    (crypto : Crypto) (env later : Env) (user_id : ℕ) (purpose : PinProofPurpose)
    → IsDocumented crypto
    → check_proof crypto later user_id purpose (some (issue_proof crypto env user_id purpose))
      ≡ leb later.now (env.now + proof_ttl_ms)
check_proof-issue_proof crypto env later user_id purpose laws =
    check_proof-parts crypto laws env later user_id user_id purpose purpose
    ∙ rw (text_eq_refl (sign crypto user_id purpose (env.now + proof_ttl_ms))) (ground arith)

-- A proof that `verify` issues is refused at any time for another user or another purpose, where the run
-- time writes and reads ids, numbers and digests as documented and the two signed texts do not collide.
pub check_proof-foreign :
    (crypto : Crypto) (env later : Env) (user_id other : ℕ) (purpose wanted : PinProofPurpose)
    → IsDocumented crypto
    → (sign crypto other wanted (env.now + proof_ttl_ms)
          ≡ sign crypto user_id purpose (env.now + proof_ttl_ms)
        → signed_text crypto other wanted (env.now + proof_ttl_ms)
          ≡ signed_text crypto user_id purpose (env.now + proof_ttl_ms))
    → ¬ ((other ≡ user_id) × (wanted ≡ purpose))
    → check_proof crypto later other wanted (some (issue_proof crypto env user_id purpose)) ≡ false
check_proof-foreign crypto env later user_id other purpose wanted laws collides differs =
    let exp = env.now + proof_ttl_ms in
    let own = sign crypto user_id purpose exp in
    let asked = sign crypto other wanted exp in
    check_proof-parts crypto laws env later user_id other purpose wanted
    ∙ elim (Bool-cases (text_eq asked own)) [
      | inr apart ↦ rw apart (ground arith)
      | inl same ↦ absurd (
          differs (
            signed_text-apart crypto laws other user_id wanted purpose exp
              (collides (text_eq→eq asked own same))))
    ]
