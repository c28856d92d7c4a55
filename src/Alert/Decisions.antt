-- ===== src/Alert/Decisions.antt =====
-- What a decision promises: no level is lowered, and saying the same twice changes nothing.
use fcare.Base.{
  ℕ, ◌≤◌, ◌≡◌, refl, max, true, ◌||◌, Option, none, some, [], ◌∷◌, ◌++◌, arith, Bool-cases, inl,
  inr,
}
use fcare.Base.Texts.{is_empty, Text, trim, includes, includes-append}
use fcare.Alert.{
  OpenAlert, clamp_level, decide_raise, merged_reason, attendance_level_for, ReviewAction,
  upgrade_to, create_at, refresh_at, unchanged, skip_row, OpenAttendanceAlert, decide_action,
  update_start, update_end,
}
use fcare.Alert.Service.{level_of}

abbrev pub open_level : Option OpenAlert → ℕ
open_level none = 0
open_level (some a) = a.level

-- The level after a raise is the greatest of the requested level, the system's level (both brought
-- into 1 to 4) and the level that is open.
pub decide_raise-level :
    (requested system : ℕ) (open_alert : Option OpenAlert)
    → level_of (decide_raise requested system open_alert)
      ≡ max (max (clamp_level requested) (clamp_level system)) (open_level open_alert)
unfolding decide_raise
decide_raise-level requested system none = ground arith
decide_raise-level requested system (some a) = ground arith

-- What a text includes, it includes behind anything else.
includes-behind : (s t part : Text) → includes t part ≡ true → includes (s ++ t) part ≡ true
unfolding includes
includes-behind [] t part h = h
includes-behind (c ∷ s) t part h = ground (arith, includes-behind s t part h)

included_at_end :
    (current day next : Text)
    → includes (current ++ (update_start ++ (day ++ (update_end ++ next)))) next ≡ true
included_at_end current day next = includes-behind current _ next (
    includes-behind update_start _ next
      (includes-behind day _ next (includes-behind update_end next next (includes-append [] next))))

-- The same reason a second time, on any day, leaves the reason as it is.
pub merged_reason-merged_reason :
    (current addition day later : Text)
    → merged_reason (merged_reason current addition day) addition later
      ≡ merged_reason current addition day
unfolding merged_reason
merged_reason-merged_reason current addition day later =
    elim (Bool-cases (is_empty (trim addition) || includes current (trim addition))) [
      | inl known ↦ rw known (rw known refl)
      | inr new ↦
          let there = included_at_end current day (trim addition) in
          rw new (rw there (ground arith))
    ]

-- What `decide_action` makes of the level of an open alert.
abbrev pub level_after : ReviewAction → OpenAttendanceAlert → ℕ
level_after skip_row existing = existing.level
level_after unchanged existing = existing.level
level_after (create_at level) existing = level
level_after (upgrade_to level) existing = level
level_after (refresh_at level) existing = level

-- The review of a row neither lowers an open alert nor takes one below level 3 past it.
pub decide_action-level :
    (absent : Option ℕ) (existing : OpenAttendanceAlert)
    → (existing.level ≤ level_after (decide_action absent (some existing)) existing)
      × (level_after (decide_action absent (some existing)) existing ≤ max 3 existing.level)
unfolding decide_action attendance_level_for
decide_action-level none existing = ground arith
decide_action-level (some n) existing = ground arith
