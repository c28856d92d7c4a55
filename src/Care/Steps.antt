-- ===== src/Care/Steps.antt =====
-- Any sequence of requests of the alerts service and of the care logs service.
use fcare.Base.{ℕ, Bool, ◌≡◌, ◌==◌, count}
use fcare.Base.Texts.{Text}
use fcare.Access.{AuthUser}
use fcare.Alert.Rows.{School, Outside}
use fcare.Alert.Steps.{Step, Step-IsConsistent}
use fcare.Care.{
  CreateCareLogDto, UpdateCareLogDto, create_care_log, update_care_log, remove_care_log,
}
use fcare.Care.Marks.{Step-AllCared, Step-one_log}
use fcare.Care.Kept.{IsCaredFor, create-IsCaredFor, update-IsCaredFor}
use fcare.Care.Unlogged.{remove-IsCaredFor}

-- A request of the two services that writes; a new log takes an id that no log has.
pub data CareStep : School → School → Type 0 where
  handled : {db db' : School} → Step db db' → CareStep db db'
  logged :
      (out : Outside) (user : AuthUser) (dto : CreateCareLogDto) {db : School}
      → count (λ c. c.id == out.fresh_id) db.care_logs ≡ 0
      → CareStep db (create_care_log out user dto db).0
  edited :
      (detect_pii : Text → Bool) (user : AuthUser) (id : ℕ) (dto : UpdateCareLogDto) {db : School}
      → CareStep db (update_care_log detect_pii user id dto db).0
  unlogged : (user : AuthUser) (id : ℕ) {db : School} → CareStep db (remove_care_log user id db).0

pub data CareSteps : School → School → Type 0 where
  no_care : {db : School} → CareSteps db db
  then_care : {db db' db'' : School} → CareSteps db db' → CareStep db' db'' → CareSteps db db''

CareStep-IsCaredFor : {db db' : School} → CareStep db db' → IsCaredFor db → IsCaredFor db'
CareStep-IsCaredFor (handled step) s = record {
  consistent = Step-IsConsistent step s.consistent;
  one_log = Step-one_log step s.one_log;
  marks = Step-AllCared step s.marks;
}
CareStep-IsCaredFor (logged out user dto {db} fresh) s = create-IsCaredFor out user dto db fresh s
CareStep-IsCaredFor (edited detect_pii user id dto {db}) s =
    update-IsCaredFor detect_pii user id dto db s
CareStep-IsCaredFor (unlogged user id {db}) s = remove-IsCaredFor user id db s

-- Whatever requests to raise, acknowledge, resolve or delete alerts (one or several) and to create, edit
-- or delete care logs arrive, in any order, each as one step: an alert that is marked as cared
-- for by its lecturer has a care log that the lecturer of its section wrote on it, if it was so before;
-- alerts stay consistent, and care logs keep different ids.
pub CareSteps-IsCaredFor : {db db' : School} → CareSteps db db' → IsCaredFor db → IsCaredFor db'
CareSteps-IsCaredFor no_care s = s
CareSteps-IsCaredFor (then_care steps step) s =
    CareStep-IsCaredFor step (CareSteps-IsCaredFor steps s)
