-- ===== src/Session/PinFormat.antt =====
-- packages/shared-types/src/pin.ts: which PIN a user may choose, and the limits of the PIN.
use fcare.Base.{
  ℕ, ◌+◌, Bool, true, false, not, ◌&&◌, ◌||◌, Option, none, some, List, [], ◌∷◌, ◌==◌, leb,
  if◌then◌else◌, all, any, length,
}
use fcare.Base.Texts.{Text}
use fcare.Session.{PinFormatError, not_six_digits, too_easy}

abbrev pub pin_length : ℕ
pin_length = 6

abbrev pub max_pin_attempts : ℕ
max_pin_attempts = 5

abbrev pub idle_lock_minutes_options : List ℕ
idle_lock_minutes_options = 3 ∷ 5 ∷ 10 ∷ 15 ∷ 30 ∷ 60 ∷ []

-- `isIdleLockMinutes`, of a number
unfoldable pub is_idle_lock_minutes : ℕ → Bool
is_idle_lock_minutes value = any (λ m. m == value) idle_lock_minutes_options

abbrev pub is_digit : ℕ → Bool
is_digit c = leb b'0' c && leb c b'9'

-- `isSequential(pin, 1)`: each unit is the one before plus one.
pub is_rising : Text → Bool
is_rising [] = true
is_rising (c ∷ []) = true
is_rising (c ∷ d ∷ s) = d == c + 1 && is_rising (d ∷ s)

-- `isSequential(pin, -1)`
pub is_falling : Text → Bool
is_falling [] = true
is_falling (c ∷ []) = true
is_falling (c ∷ d ∷ s) = c == d + 1 && is_falling (d ∷ s)

-- `/^(\d)\1+$/`, of digits: the first one is repeated to the end.
pub is_repeated : Text → Bool
is_repeated [] = false
is_repeated (c ∷ []) = false
is_repeated (c ∷ d ∷ s) = is_digit c && all (λ x. x == c) (d ∷ s)

-- `null` is a PIN that may be chosen.
unfoldable pub validate_pin_format : Text → Option PinFormatError
unfolding is_rising is_falling is_repeated
validate_pin_format pin =
    if not (length pin == pin_length && all is_digit pin)
    then some not_six_digits
    else if is_repeated pin || is_rising pin || is_falling pin
    then some too_easy
    else none
