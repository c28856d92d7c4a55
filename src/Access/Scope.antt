-- ===== src/Access/Scope.antt =====
-- apps/api/src/common/utils/dept-scope.ts: which students and sections a user may see.
-- A Prisma `where` fragment is the test of a row that it stands for; `{}` passes every row.
-- `NO_DEPARTMENT` equals no department's id, so a missing department passes no row.
pub mod Laws
use fcare.Base.{
  ℕ, Bool, true, false, not, ◌&&◌, ◌||◌, Option, none, some, List, [], ◌∷◌, ◌==◌, if◌then◌else◌,
  any, opt_eq,
}
use fcare.Access.{
  RoleKey, admin, head_of_dept, training_officer, sa_officer, sa_head, has_role, some_role,
  AuthUser,
}

abbrev pub unscoped_roles : List RoleKey
unscoped_roles = admin ∷ training_officer ∷ sa_officer ∷ sa_head ∷ []

-- What the filters read of a class section, through its subject too.
pub record Section : Type 0 where
  pub id : ℕ
  pub lecturer_id : Option ℕ
  pub subject_department_id : ℕ
  pub term : ℕ

-- What the filters read of a student: the sections of the enrolments.
pub record Student : Type 0 where
  pub id : ℕ
  pub department_id : ℕ
  pub enrolled : List Section

unfoldable pub is_dept_scoped : AuthUser → Bool
is_dept_scoped user = not (some_role unscoped_roles user.roles)

unfoldable pub sees_whole_department : AuthUser → Bool
unfolding is_dept_scoped
sees_whole_department user = is_dept_scoped user && has_role user.roles head_of_dept

-- `departmentId: user.departmentId ?? NO_DEPARTMENT`
abbrev pub own_department : AuthUser → ℕ → Bool
own_department user department = opt_eq user.department_id (some department)

unfoldable pub dept_filter : AuthUser → ℕ → Bool
unfolding is_dept_scoped
dept_filter user department =
    if not (is_dept_scoped user) then true else own_department user department

-- `classSection: { lecturerId: user.id }`
abbrev pub teaches : AuthUser → Section → Bool
teaches user section = opt_eq section.lecturer_id (some user.id)

unfoldable pub student_scope : AuthUser → Student → Bool
unfolding sees_whole_department
student_scope user student =
    let taught = any (teaches user) student.enrolled in
    if not (is_dept_scoped user)
    then true
    else if not (sees_whole_department user)
    then taught
    else own_department user student.department_id || taught

unfoldable pub section_scope : AuthUser → Section → Bool
unfolding sees_whole_department
section_scope user section =
    if not (is_dept_scoped user)
    then true
    else if not (sees_whole_department user)
    then teaches user section
    else own_department user section.subject_department_id || teaches user section

-- `isStudentInScope`: whether the query of the one student finds a row.
unfoldable pub is_student_in_scope : List Student → AuthUser → ℕ → Bool
unfolding student_scope
is_student_in_scope students user student_id =
    if not (is_dept_scoped user)
    then true
    else any (λ s. s.id == student_id && student_scope user s) students

-- A row of staff, for the statistics by lecturer.
unfoldable pub lecturer_stats_scope : AuthUser → (staff_id : ℕ) → (department : Option ℕ) → Bool
unfolding sees_whole_department
lecturer_stats_scope user staff_id department =
    if not (is_dept_scoped user)
    then true
    else if sees_whole_department user
    then elim department [ none ↦ false | some d ↦ own_department user d ]
    else staff_id == user.id

unfoldable pub is_pure_lecturer : AuthUser → Bool
unfolding sees_whole_department
is_pure_lecturer user = is_dept_scoped user && not (sees_whole_department user)

unfoldable pub own_department_sections : AuthUser → Section → Bool
own_department_sections user section =
    teaches user section && own_department user section.subject_department_id

unfoldable pub stats_student_scope : AuthUser → Student → Bool
unfolding is_pure_lecturer student_scope own_department_sections
stats_student_scope user student =
    if not (is_pure_lecturer user)
    then student_scope user student
    else any (own_department_sections user) student.enrolled

-- The branch of the taught class must fit the same enrolment as the given condition.
unfoldable pub student_scope_within : AuthUser → (Section → Bool) → Student → Bool
unfolding sees_whole_department
student_scope_within user enrollment student =
    let taught = any (λ s. enrollment s && teaches user s) student.enrolled in
    if not (is_dept_scoped user)
    then true
    else if not (sees_whole_department user)
    then taught
    else own_department user student.department_id || taught

unfoldable pub stats_section_scope : AuthUser → Section → Bool
unfolding is_pure_lecturer section_scope own_department_sections
stats_section_scope user section =
    if not (is_pure_lecturer user)
    then section_scope user section
    else own_department_sections user section
