-- ===== src/Alert/Recipients.antt =====
-- apps/api/src/modules/alerts/escalation.service.ts: who is told of an alert.
use fcare.Base.{
  ℕ, Bool, false, not, ◌&&◌, Option, none, some, List, [], ◌∷◌, ◌++◌, ◌==◌, leb, opt_eq,
  if◌then◌else◌, keep, map, any, find, contains,
}
use fcare.Access.{
  RoleKey, head_of_dept, training_officer, sa_officer, sa_head, some_role, sa_min_alert_level,
}
use fcare.Access.Scope.{Student}
use fcare.Alert.Rows.{School, StaffMember}

pub record RecipientGroup : Type 0 where
  pub min_level : ℕ
  pub members : List ℕ

-- `[...new Set(values)]`: each value at its first place.
abbrev pub collect : List ℕ → List ℕ → List ℕ
collect seen [] = seen
collect seen (x ∷ xs) = collect (if contains seen x then seen else seen ++ x ∷ []) xs

abbrev pub distinct : List ℕ → List ℕ
distinct values = collect [] values

abbrev pub ids : List StaffMember → List ℕ
ids members = map (λ s. s.id) members

-- Whether a member of staff teaches one of the student's sections.
abbrev pub teaches_student : Option Student → StaffMember → Bool
teaches_student none s = false
teaches_student (some student) s = any (λ c. opt_eq c.lecturer_id (some s.id)) student.enrolled

abbrev pub student_by_id : ℕ → School → Option Student
student_by_id id db = find (λ s. s.id == id) db.students

unfoldable pub find_active_staff_by_roles :
    List RoleKey → (department : Option ℕ) → School → List StaffMember
find_active_staff_by_roles role_keys none db =
    keep (λ s. s.is_active && some_role role_keys s.roles) db.staff
find_active_staff_by_roles role_keys (some department) db =
    keep
      (λ s.
        s.is_active && (opt_eq s.department_id (some department) && some_role role_keys s.roles))
      db.staff

unfoldable pub find_heads_of_student_dept : ℕ → School → List StaffMember
unfolding find_active_staff_by_roles
find_heads_of_student_dept student_id db = elim (student_by_id student_id db) [
  | none ↦ []
  | some student ↦ find_active_staff_by_roles (head_of_dept ∷ []) (some student.department_id) db
]

abbrev pub others : Option ℕ → List StaffMember → List ℕ
others exclude_id members = ids (keep (λ m. not (opt_eq (some m.id) exclude_id)) members)

unfoldable pub preview_recipient_groups : ℕ → Option ℕ → School → List RecipientGroup
unfolding find_active_staff_by_roles find_heads_of_student_dept
preview_recipient_groups student_id exclude_id db =
    let teaching =
      keep (λ s. s.is_active && teaches_student (student_by_id student_id db) s) db.staff in
    let student_affairs = find_active_staff_by_roles (sa_officer ∷ sa_head ∷ []) none db in
    let heads = find_heads_of_student_dept student_id db in
    let training = find_active_staff_by_roles (training_officer ∷ []) none db in
    record { min_level = 1; members = others exclude_id teaching }
    ∷ record { min_level = sa_min_alert_level; members = others exclude_id student_affairs }
    ∷ record { min_level = 3; members = others exclude_id heads }
    ∷ record { min_level = 4; members = others exclude_id training }
    ∷ []

-- The members of the groups that are told at a level.
abbrev pub told : ℕ → List RecipientGroup → List ℕ
told level [] = []
told level (g ∷ groups) =
    let rest = told level groups in if leb g.min_level level then g.members ++ rest else rest

unfoldable pub compute_recipient_ids : (student_id level : ℕ) → Option ℕ → School → List ℕ
unfolding preview_recipient_groups
compute_recipient_ids student_id level raised_by_id db =
    distinct (told level (preview_recipient_groups student_id raised_by_id db))
