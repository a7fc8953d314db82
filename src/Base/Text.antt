-- ===== src/Base/Text.antt =====
-- Texts as lists of code points, for the code that looks inside them. `toLowerCase` is that of
-- ASCII letters, so the texts that it is used on are taken to be ASCII.
pub mod Words
use Prim.Native.Char.{code}
use easytrade.Base.{ℕ, suc, ◌+◌, Bool, true, false, ◌&&◌}
use easytrade.Base.{Option, none, some, List, [], ◌∷◌, ◌++◌, map, leb, String}
use easytrade.Base.{◌==◌, nat_eq, if◌then◌else◌}
use mathlib.Core.Option

abbrev pub Text : Type 0
Text = List ℕ

abbrev pub codes : String → Text
codes String.[] = []
codes (String.◌∷◌ c s) = code c ∷ codes s

-- `===`
abbrev pub same_text : Text → Text → Bool
same_text [] [] = true
same_text [] (_ ∷ _) = false
same_text (_ ∷ _) [] = false
same_text (a ∷ s) (b ∷ t) = a == b && same_text s t

unfoldable pub lower_code : ℕ → ℕ
lower_code c = if leb b'A' c && leb c b'Z' then c + 32 else c

-- `s.toLowerCase()`
unfoldable pub to_lower : Text → Text
unfolding lower_code
to_lower = map lower_code

-- `s.startsWith(needle)`
unfoldable pub starts_with : Text → Text → Bool
starts_with s [] = true
starts_with [] (c ∷ needle) = false
starts_with (d ∷ s) (c ∷ needle) = d == c && starts_with s needle

-- `s.indexOf(needle)`, with `none` for -1
unfoldable pub index_of : Text → Text → Option ℕ
index_of [] needle = if starts_with [] needle then some 0 else none
index_of (d ∷ s) needle =
    let later = Option.map suc (index_of s needle) in
    if starts_with (d ∷ s) needle then some 0 else later

-- `s.includes(needle)`
unfoldable pub contains : Text → Text → Bool
contains s needle = elim (index_of s needle) [ none ↦ false | some _ ↦ true ]

-- A letter before the first of a list of words.
abbrev pub push_letter : ℕ → List Text → List Text
push_letter c [] = (c ∷ []) ∷ []
push_letter c (w ∷ ws) = (c ∷ w) ∷ ws

-- `s.split(separator)`, for a separator of one letter
unfoldable pub split : ℕ → Text → List Text
split c [] = [] ∷ []
split c (d ∷ s) = let rest = split c s in if d == c then [] ∷ rest else push_letter d rest

-- `words.join(separator)`
unfoldable pub join : Text → List Text → Text
join separator [] = []
join separator (w ∷ []) = w
join separator (w ∷ (v ∷ ws)) = w ++ (separator ++ join separator (v ∷ ws))

-- `.map(([head, ...tail]) => …)` over words, which throws at a word without a letter: `upper` and
-- `rest` are what the letter and the others become.
unfoldable pub titles : (ℕ → Text) → (Text → Text) → List Text → Option (List Text)
titles upper rest [] = some []
titles upper rest ([] ∷ ws) = none
titles upper rest ((c ∷ w) ∷ ws) =
    Option.map (λ ts. (upper c ++ rest w) ∷ ts) (titles upper rest ws)
