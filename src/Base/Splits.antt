-- ===== src/Base/Splits.antt =====
-- JavaScript's `split` of a text at a separator of one unit.
use fcare.Base.Tests.{◌==◌, if◌then◌else◌, ==_refl}
use fcare.Base.Lists.{contains}
use fcare.Base.Texts.{Text}
use Prim.Native.Nat.{ℕ}
use mathlib.Core.Path.{◌≡◌, refl}
use mathlib.Core.Bool.{Bool, true, false, ◌||◌}
use mathlib.Core.List.{List, [], ◌∷◌, ◌++◌}
use native.Mathlib.Omega.{arith}

-- A unit before the first part.
abbrev pub push : ℕ → List Text → List Text
push c [] = (c ∷ []) ∷ []
push c (part ∷ rest) = (c ∷ part) ∷ rest

-- `text.split(separator)`
unfoldable pub split : ℕ → Text → List Text
split separator [] = [] ∷ []
split separator (c ∷ s) =
    let rest = split separator s in if c == separator then [] ∷ rest else push c rest

or_falls : (a b : Bool) → (a || b) ≡ false → (a ≡ false) × (b ≡ false)
or_falls true b h = (h, ground (arith, h))
or_falls false b h = (refl, h)

-- A part without a separator, the separator, and what follows.
pub split-joined :
    (separator : ℕ) (s t : Text)
    → contains s separator ≡ false
    → split separator (s ++ separator ∷ t) ≡ s ∷ split separator t
unfolding split
split-joined separator [] t h = rw (==_refl separator) refl
split-joined separator (c ∷ s) t h =
    let (other, rest) = or_falls (c == separator) _ h in
    rw other (rw (split-joined separator s t rest) refl)

pub split-whole :
    (separator : ℕ) (s : Text) → contains s separator ≡ false → split separator s ≡ s ∷ []
unfolding split
split-whole separator [] h = refl
split-whole separator (c ∷ s) h =
    let (other, rest) = or_falls (c == separator) _ h in
    rw other (rw (split-whole separator s rest) refl)
