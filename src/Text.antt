-- ===== src/Text.antt =====
-- Python's `str` as the list of its code points, with the `str` methods that the program calls.
pub mod Space
pub mod Split
pub mod Lines
use es_kaq_translator_v.Base.{
  ℕ, Bool, true, false, List, [], ◌∷◌, ◌++◌, Option, none, some, ◌==◌, ◌=?◌, if◌then◌else◌, drop,
  length, ◌&&◌,
}
use es_kaq_translator_v.Base.{Eq, list_eq, nat_eq}
use Prim.Native.Char.{code}
use Prim.Native.String.{String}

abbrev pub Text : Type 0
Text = List ℕ

instance abbrev pub text_eq : Eq Text
text_eq = list_eq

-- A literal of the source. `String` has its own `[]` and `∷`.
abbrev pub text : String → Text
text String.[] = []
text (String.◌∷◌ c s) = code c ∷ text s

-- `s.startswith(p)`
unfoldable pub starts_with : Text → Text → Bool
starts_with s [] = true
starts_with [] (c ∷ p) = false
starts_with (d ∷ s) (c ∷ p) = c == d && starts_with s p

-- `sep.join(parts)`
unfoldable pub join : Text → List Text → Text
join sep [] = []
join sep (t ∷ []) = t
join sep (t ∷ u ∷ ts) = t ++ (sep ++ join sep (u ∷ ts))

-- `s.removeprefix(p)`
pub remove_prefix : Text → Text → Text
unfolding starts_with
remove_prefix s p = if starts_with s p then drop (length p) s else s
