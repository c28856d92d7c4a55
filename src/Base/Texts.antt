-- ===== src/Base/Texts.antt =====
-- Text as the list of its UTF-16 units, with `length`, `trim` and `includes` of JavaScript.
use Prim.Native.Nat.{ℕ}
use mathlib.Core.Path.{◌≡◌, refl}
use mathlib.Core.Bool.{Bool, true, false, ◌&&◌, ◌||◌}
use mathlib.Core.List.{List, [], ◌∷◌, ◌++◌, reverse}
use native.Mathlib.Omega.{arith}
use fcare.Base.Tests.{◌==◌, leb, if◌then◌else◌}

abbrev pub Text : Type 0
Text = List ℕ

abbrev pub is_empty : Text → Bool
is_empty [] = true
is_empty (c ∷ s) = false

-- White space and line ends: what `trim` removes.
pub is_space : ℕ → Bool
is_space c =
    (leb 9 c && leb c 13)
    || c == 32
    || c == 160
    || c == 0x1680
    || (leb 0x2000 c && leb c 0x200a)
    || c == 0x2028
    || c == 0x2029
    || c == 0x202f
    || c == 0x205f
    || c == 0x3000
    || c == 0xfeff

pub trim_start : Text → Text
unfolding is_space
trim_start [] = []
trim_start (c ∷ s) = if is_space c then trim_start s else c ∷ s

unfoldable pub trim : Text → Text
unfolding trim_start
trim s = reverse (trim_start (reverse (trim_start s)))

abbrev pub text_eq : Text → Text → Bool
text_eq [] [] = true
text_eq (c ∷ s) (d ∷ t) = c == d && text_eq s t
text_eq _ _ = false

pub text_eq_refl : (s : Text) → text_eq s s ≡ true
text_eq_refl [] = refl
text_eq_refl (c ∷ s) = ground (arith, text_eq_refl s)

pub text_eq→eq : (s t : Text) → text_eq s t ≡ true → s ≡ t
text_eq→eq [] [] h = refl
text_eq→eq (c ∷ s) (d ∷ t) h = ground (arith, text_eq→eq s t)
text_eq→eq [] (d ∷ t) h = cc
text_eq→eq (c ∷ s) [] h = cc

abbrev pub is_prefix : Text → Text → Bool
is_prefix [] t = true
is_prefix (c ∷ s) [] = false
is_prefix (c ∷ s) (d ∷ t) = c == d && is_prefix s t

-- `text.includes(part)`
unfoldable pub includes : Text → Text → Bool
includes [] part = is_prefix part []
includes (c ∷ s) part = is_prefix part (c ∷ s) || includes s part

includes_head : (s t : Text) → is_prefix t s ≡ true → includes s t ≡ true
unfolding includes
includes_head [] t h = h
includes_head (c ∷ s) t h = ground arith

prefix_self : (s : Text) → is_prefix s s ≡ true
prefix_self [] = refl
prefix_self (c ∷ s) = ground (arith, prefix_self s)

-- A text includes what stands at its end.
pub includes-append : (s t : Text) → includes (s ++ t) t ≡ true
unfolding includes
includes-append [] [] = refl
includes-append [] (c ∷ t) = includes_head (c ∷ t) (c ∷ t) (prefix_self (c ∷ t))
includes-append (c ∷ s) t = ground (arith, includes-append s t)
