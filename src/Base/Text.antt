-- ===== src/Base/Text.antt =====
-- Equality of texts, and their beginnings.
use Prim.Native.String.{String}
use mathlib.Core.Bool.{Bool, false, ◌||◌}
use mathlib.Core.List.{List, [], ◌∷◌}
use text.Mathlib.Text
use text.Mathlib.Text.{◌==◌}
pub use text.Mathlib.TextEquality.{eq_iff}

infix 50 ◌===◌
abbrev pub ◌===◌ : String → String → Bool
a === b = a == b

-- `s.startsWith(t)`
unfoldable pub starts_with : String → String → Bool
starts_with s t = Text.starts_with s t

-- `ts.some(t => s.startsWith(t))`
unfoldable pub starts_with_any : String → List String → Bool
unfolding starts_with
starts_with_any s [] = false
starts_with_any s (t ∷ ts) = starts_with s t || starts_with_any s ts

-- Whether the text is in the list.
unfoldable pub is_one_of : String → List String → Bool
is_one_of s [] = false
is_one_of s (t ∷ ts) = s === t || is_one_of s ts
