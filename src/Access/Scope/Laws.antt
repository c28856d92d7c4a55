-- ===== src/Access/Scope/Laws.antt =====
-- How the scopes compare: the statistics never show more, and another role never shows less.
use fcare.Base.{Bool, true, ◌&&◌, ◌≡◌, ◌↔◌, ◌∷◌, arith, any, any_mono}
use fcare.Access.{RoleKey, AuthUser}
use fcare.Access.Scope.{
  Section, Student, teaches, student_scope, section_scope, is_pure_lecturer,
  own_department_sections, stats_student_scope, student_scope_within, stats_section_scope,
}

-- Whoever the statistics show of students or sections, the user may see outside them too; and a
-- scope within a condition on the enrolment shows no other students.
pub stats_scope-le :
    (user : AuthUser) (student : Student) (section : Section) (enrollment : Section → Bool)
    → (stats_student_scope user student ≡ true → student_scope user student ≡ true)
      × (stats_section_scope user section ≡ true → section_scope user section ≡ true)
      × (student_scope_within user enrollment student ≡ true → student_scope user student ≡ true)
unfolding stats_student_scope stats_section_scope student_scope_within
stats_scope-le user student section enrollment =
    let own =
      any_mono (own_department_sections user) (teaches user) student.enrolled
        (λ s h. ground arith) in
    let within =
      any_mono (λ s. enrollment s && teaches user s) (teaches user) student.enrolled
        (λ s h. ground arith) in
    (ground (arith, own), ground arith, ground (arith, within))

-- A user with one more role.
abbrev pub with_role : RoleKey → AuthUser → AuthUser
with_role role user = record user { roles = role ∷ user.roles }

-- Another role never hides a student or a section that the user saw before.
pub scope-with_role :
    (role : RoleKey) (user : AuthUser) (student : Student) (section : Section)
    → (student_scope user student ≡ true → student_scope (with_role role user) student ≡ true)
      × (section_scope user section ≡ true → section_scope (with_role role user) section ≡ true)
unfolding student_scope section_scope
scope-with_role role user student section = (ground arith, ground arith)

-- A lecturer without a wider role sees exactly the students of the sections that he or she sees.
pub student_scope-pure_lecturer :
    (user : AuthUser) (student : Student)
    → is_pure_lecturer user ≡ true
    → (student_scope user student ≡ true) ↔ (any (section_scope user) student.enrolled ≡ true)
unfolding is_pure_lecturer student_scope section_scope
student_scope-pure_lecturer user student h = (
  λ e.
      any_mono (teaches user) (section_scope user) student.enrolled (λ s t. ground arith)
        (ground arith),
  λ e. ground (
    arith,
    any_mono (section_scope user) (teaches user) student.enrolled (λ s t. ground arith) e,
  ),
)
