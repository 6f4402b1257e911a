-- ===== src/Base/Texts.antt =====
-- Text as the list of its code points, with the functions of Go's `strings` that the code uses.
use Prim.Native.Nat.{ℕ, ◌+◌}
use Prim.Native.Char.{code}
use Prim.Native.String.{String}
use mathlib.Core.Path.{◌≡◌, refl, sym, ap, ◌∙◌}
use mathlib.Core.Logic.{◌↔◌}
use mathlib.Core.Bool.{Bool, true, false, not, ◌&&◌, ◌||◌}
use mathlib.Core.List.{List, [], ◌∷◌, ◌++◌, reverse, reverse-append, map}
use mathlib.Core.Option.{Option, none, some}
use native.Mathlib.Omega.{arith}
use wcs_transfer.Base.Tests.{leb, ◌==◌, if◌then◌else◌}

abbrev pub Text : Type 0
Text = List ℕ

abbrev pub codes : String → Text
codes String.[] = []
codes (String.◌∷◌ c s) = code c ∷ codes s

abbrev pub text_eq : Text → Text → Bool
text_eq [] [] = true
text_eq (a ∷ s) (b ∷ t) = a == b && text_eq s t
text_eq _ _ = false

abbrev pub is_empty : Text → Bool
is_empty [] = true
is_empty (_ ∷ _) = false

-- `unicode.IsSpace`
abbrev pub is_space : ℕ → Bool
is_space c =
    (leb 9 c && leb c 13)
    || c == 32
    || c == 0x85
    || c == 0xa0
    || c == 0x1680
    || (leb 0x2000 c && leb c 0x200a)
    || c == 0x2028
    || c == 0x2029
    || c == 0x202f
    || c == 0x205f
    || c == 0x3000

unfoldable pub trim_left : Text → Text
trim_left [] = []
trim_left (c ∷ s) = if is_space c then trim_left s else c ∷ s

-- `strings.TrimSpace`
unfoldable pub trim_space : Text → Text
unfolding trim_left
trim_space s = reverse (trim_left (reverse (trim_left s)))

-- `strings.ToLower`, on the letters of ASCII.
unfoldable pub lower : ℕ → ℕ
lower c = if leb b'A' c && leb c b'Z' then c + 32 else c

unfoldable pub to_lower : Text → Text
unfolding lower
to_lower = map lower

-- `strings.CutPrefix`: what follows the prefix, if it is there.
unfoldable pub cut_prefix : Text → Text → Option Text
cut_prefix [] s = some s
cut_prefix (a ∷ p) [] = none
cut_prefix (a ∷ p) (b ∷ s) = let rest = cut_prefix p s in if a == b then rest else none

pub text_eq_iff : (s t : Text) → (text_eq s t ≡ true) ↔ (s ≡ t)
text_eq_iff [] [] = ground arith
text_eq_iff [] (b ∷ t) = ground arith
text_eq_iff (a ∷ s) [] = ground arith
text_eq_iff (a ∷ s) (b ∷ t) = ground (arith, text_eq_iff s t)

-- Some code point is no space.
abbrev has_ink : Text → Bool
has_ink [] = false
has_ink (c ∷ s) = not (is_space c) || has_ink s

has_ink-append : (s t : Text) → has_ink (s ++ t) ≡ (has_ink t || has_ink s)
has_ink-append [] t = ground arith
has_ink-append (c ∷ s) t = ground (arith, has_ink-append s t)

has_ink-reverse : (s : Text) → has_ink (reverse s) ≡ has_ink s
has_ink-reverse [] = refl
has_ink-reverse (c ∷ s) =
    ap has_ink (reverse-append (c ∷ []) s)
    ∙ has_ink-append (reverse s) (c ∷ [])
    ∙ ground (arith, has_ink-reverse s)

has_ink-trim_left : (s : Text) → has_ink (trim_left s) ≡ has_ink s
unfolding trim_left
has_ink-trim_left [] = refl
has_ink-trim_left (c ∷ s) = ground (arith, has_ink-trim_left s)

is_empty-trim_left : (s : Text) → is_empty (trim_left s) ≡ not (has_ink s)
unfolding trim_left
is_empty-trim_left [] = refl
is_empty-trim_left (c ∷ s) = ground (arith, is_empty-trim_left s)

is_empty-append : (s : Text) (c : ℕ) → is_empty (s ++ c ∷ []) ≡ false
is_empty-append [] c = refl
is_empty-append (d ∷ s) c = refl

is_empty-reverse : (s : Text) → is_empty (reverse s) ≡ is_empty s
is_empty-reverse [] = refl
is_empty-reverse (c ∷ s) = ap is_empty (reverse-append (c ∷ []) s) ∙ is_empty-append (reverse s) c

is_empty-trim_space : (s : Text) → is_empty (trim_space s) ≡ not (has_ink s)
unfolding trim_space
is_empty-trim_space s =
    is_empty-reverse (trim_left (reverse (trim_left s)))
    ∙ is_empty-trim_left (reverse (trim_left s))
    ∙ ap not (has_ink-reverse (trim_left s) ∙ has_ink-trim_left s)

has_ink-trim_space : (s : Text) → has_ink (trim_space s) ≡ has_ink s
unfolding trim_space
has_ink-trim_space s =
    has_ink-reverse (trim_left (reverse (trim_left s)))
    ∙ has_ink-trim_left (reverse (trim_left s))
    ∙ has_ink-reverse (trim_left s)
    ∙ has_ink-trim_left s

-- Trimming again makes nothing blank.
pub is_empty-trim_trim : (s : Text) → is_empty (trim_space (trim_space s)) ≡ is_empty (trim_space s)
is_empty-trim_trim s =
    is_empty-trim_space (trim_space s) ∙ ap not (has_ink-trim_space s) ∙ sym (is_empty-trim_space s)
