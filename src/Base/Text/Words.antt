-- ===== src/Base/Text/Words.antt =====
-- Texts that are words with separators between them, split and joined.
use easytrade.Base.{ℕ, ◌≡◌, refl, ap, ◌∙◌, false, some, List, [], ◌∷◌}
use easytrade.Base.{◌++◌, map, All, ◌==◌, nat_eq, arith}
use easytrade.Base.Text.{Text, split, join, titles}

-- A word with a letter, and without the separator.
abbrev pub IsWord : ℕ → Text → Type 0
IsWord c [] = ⊥
IsWord c (d ∷ w) = All (λ e. (e == c) ≡ false) (d ∷ w)

split_word : (c : ℕ) (w : Text) → All (λ e. (e == c) ≡ false) w → split c w ≡ w ∷ []
unfolding split
split_word c [] h = refl
split_word c (d ∷ w) (h, hs) = rw (h, split_word c w hs)

split_next :
    (c : ℕ) (w s : Text) → All (λ e. (e == c) ≡ false) w → split c (w ++ (c ∷ s)) ≡ w ∷ split c s
unfolding split
split_next c [] s h = ground arith
split_next c (d ∷ w) s (h, hs) = rw (h, split_next c w s hs)

IsWord-All : (c : ℕ) (w : Text) → IsWord c w → All (λ e. (e == c) ≡ false) w
IsWord-All c [] h = elim h [ ]
IsWord-All c (d ∷ w) h = h

-- The words of a text that is joined from words are these.
pub split-join :
    (c : ℕ) (w : Text) (ws : List Text)
    → All (IsWord c) (w ∷ ws)
    → split c (join (c ∷ []) (w ∷ ws)) ≡ w ∷ ws
unfolding join
split-join c w [] (h, _) = split_word c w (IsWord-All c w h)
split-join c w (v ∷ ws) (h, hs) =
    split_next c w (join (c ∷ []) (v ∷ ws)) (IsWord-All c w h)
    ∙ ap (λ l. w ∷ l) (split-join c v ws hs)

-- A word with its first letter and its other letters changed.
abbrev pub title : (ℕ → Text) → (Text → Text) → Text → Text
title upper rest [] = []
title upper rest (c ∷ w) = upper c ++ rest w

pub titles-words :
    (upper : ℕ → Text) (rest : Text → Text) (c : ℕ) (ws : List Text)
    → All (IsWord c) ws
    → titles upper rest ws ≡ some (map (title upper rest) ws)
unfolding titles
titles-words upper rest c [] h = refl
titles-words upper rest c ([] ∷ ws) (h, _) = elim h [ ]
titles-words upper rest c ((d ∷ w) ∷ ws) (_, hs) = rw (titles-words upper rest c ws hs)
