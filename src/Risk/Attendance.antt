-- ===== src/Risk/Attendance.antt =====
-- The points of attendance: their range, and that more absences never give fewer points.
use fcare.Base.{
  ℕ, ◌≤◌, ◌≡◌, refl, ◌∙◌, ◌↔◌, ◌&&◌, Bool, true, List, [], ◌∷◌, map, max, Permᴰ, arith, leb, length,
  all,
}
use fcare.Risk.{absent_point, max_of, attendance_score, all_absent_three}
use fcare.Risk.Counts.{length-perm_of}

absent_point_le : (n : ℕ) → absent_point n ≤ 3
unfolding absent_point
absent_point_le n = ground arith

absent_point_mono : (m n : ℕ) → m ≤ n → absent_point m ≤ absent_point n
unfolding absent_point
absent_point_mono m n h = ground arith

worst_le : (xs : List ℕ) → max_of (map absent_point xs) ≤ 3
worst_le [] = omega arith
worst_le (x ∷ xs) = omega (arith, absent_point_le x, worst_le xs)

-- The same lecturers, each with at least as many absences.
pub data AtMost : List ℕ → List ℕ → Type 0 where
  none_left : AtMost [] []
  one_more : {m n : ℕ} {ms ns : List ℕ} → m ≤ n → AtMost ms ns → AtMost (m ∷ ms) (n ∷ ns)

pub AtMost-length : {ms ns : List ℕ} → AtMost ms ns → length ms ≡ length ns
AtMost-length none_left = refl
AtMost-length (one_more h r) = omega (arith, AtMost-length r)

AtMost-worst :
    {ms ns : List ℕ} → AtMost ms ns → max_of (map absent_point ms) ≤ max_of (map absent_point ns)
AtMost-worst none_left = omega arith
AtMost-worst (one_more {m} {n} h r) = omega (arith, absent_point_mono m n h, AtMost-worst r)

AtMost-all : {ms ns : List ℕ} (k : ℕ) → AtMost ms ns → all (leb k) ms ≡ true → all (leb k) ns ≡ true
AtMost-all k none_left e = refl
AtMost-all k (one_more {m} {n} {ms} {ns} h r) e = ground (arith, AtMost-all k r)

-- More absences, recorded by the same lecturers, never give fewer points.
pub attendance_score_mono :
    (ms ns : List ℕ) → AtMost ms ns → attendance_score ms ≤ attendance_score ns
unfolding attendance_score
attendance_score_mono ms ns r = ground (
  arith,
  AtMost-length r,
  AtMost-worst r,
  AtMost-all 3 r,
  AtMost-all 2 r,
  worst_le ms,
  worst_le ns,
)

pub attendance_score_le : (xs : List ℕ) → attendance_score xs ≤ 12
unfolding attendance_score
attendance_score_le xs = ground (arith, worst_le xs)

-- Twelve points, the most, exactly when all of two or more lecturers record three absences.
pub attendance_score-max_iff :
    (xs : List ℕ) → (attendance_score xs ≡ 12) ↔ (all_absent_three xs ≡ true)
unfolding attendance_score all_absent_three
attendance_score-max_iff xs = (λ h. ground (arith, worst_le xs), λ h. ground arith)

max_swap : (a b c : ℕ) → max a (max b c) ≡ max b (max a c)
max_swap a b c = omega arith

and_swap : (a b c : Bool) → (a && (b && c)) ≡ (b && (a && c))
and_swap a b c = ground arith

worst-perm :
    {xs ys : List ℕ} → Permᴰ xs ys → max_of (map absent_point xs) ≡ max_of (map absent_point ys)
worst-perm Permᴰ.nil = refl
worst-perm (Permᴰ.cons e p) = λ i. max (absent_point (e i)) (worst-perm p i)
worst-perm (Permᴰ.swap {a} {b} {l} e f) =
    max_swap (absent_point a) (absent_point b) (max_of (map absent_point l))
    ∙ (λ i. max (absent_point (f i)) (max (absent_point (e i)) (max_of (map absent_point l))))
worst-perm (Permᴰ.trans p q) = worst-perm p ∙ worst-perm q

all-perm : {xs ys : List ℕ} (k : ℕ) → Permᴰ xs ys → all (leb k) xs ≡ all (leb k) ys
all-perm k Permᴰ.nil = refl
all-perm k (Permᴰ.cons e p) = λ i. leb k (e i) && all-perm k p i
all-perm k (Permᴰ.swap {a} {b} {l} e f) =
    and_swap (leb k a) (leb k b) (all (leb k) l)
    ∙ (λ i. leb k (f i) && (leb k (e i) && all (leb k) l))
all-perm k (Permᴰ.trans p q) = all-perm k p ∙ all-perm k q

pub attendance_score-perm :
    {xs ys : List ℕ} → Permᴰ xs ys → attendance_score xs ≡ attendance_score ys
unfolding attendance_score
attendance_score-perm p = rw (length-perm_of p, worst-perm p, all-perm 3 p, all-perm 2 p) refl

pub all_absent_three-perm :
    {xs ys : List ℕ} → Permᴰ xs ys → all_absent_three xs ≡ all_absent_three ys
unfolding all_absent_three
all_absent_three-perm p = rw (length-perm_of p, all-perm 3 p) refl
