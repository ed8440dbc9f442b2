-- ===== src/Ingest/Examples.antt =====
-- The caps at a text whose runes take one, two, three and four bytes.
use touchgrass.Base.{◌≤◌, ◌≡◌, refl, true, not, ◌||◌, leb, Text, bytes, [], ◌∷◌, length, All, arith}
use touchgrass.Ingest.{rune_width, rune_starts, take, truncate}
use touchgrass.Ingest.Caps.{is_in, truncate-longest}

abbrev mixed : Text
mixed = bytes "aé€😀b"

starts_of_mixed : rune_starts 0 0 mixed ≡ 0 ∷ 1 ∷ 3 ∷ 6 ∷ 10 ∷ []
unfolding rune_starts rune_width
starts_of_mixed = refl

-- Surrogates, overlong forms and stray bytes count as runes of one byte.
starts_of_invalid :
    rune_starts 0 0 (0xed ∷ 0xa0 ∷ 0x80 ∷ 0xe0 ∷ 0x80 ∷ 0xc3 ∷ []) ≡ 0 ∷ 1 ∷ 2 ∷ 3 ∷ 4 ∷ 5 ∷ []
unfolding rune_starts rune_width
starts_of_invalid = refl

truncate-longest_example :
    (length (truncate mixed 5) ≤ 5)
    × (truncate mixed 5 ≡ take (length (truncate mixed 5)) mixed)
    × (is_in (length (truncate mixed 5)) (rune_starts 0 0 mixed) ≡ true)
    × All (λ k. (not (leb k 5) || leb k (length (truncate mixed 5))) ≡ true) (rune_starts 0 0 mixed)
truncate-longest_example = truncate-longest mixed 5 (omega arith)
