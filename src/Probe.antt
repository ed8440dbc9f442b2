-- ===== src/Probe.antt =====
-- The live target in an nginx file (internal/probe/nginx.go).
pub mod Reads
mod Examples
use touchgrass.Base.{
  ℕ, Bool, true, false, not, ◌&&◌, ◌||◌, ◌==◌, if◌then◌else◌, Text, bytes, is_empty, contains,
  has_prefix, Option, none, some, List, [], ◌∷◌, select,
}

-- A file as `bufio.Scanner` reads it: its lines up to the end, or up to a read error.
pub record ConfFile : Type 0 where
  pub lines : List Text

-- The class `\s` of Go's regular expressions.
abbrev pub is_blank_char : ℕ → Bool
is_blank_char c = c == 32 || (c == 9 || (c == 10 || (c == 12 || c == 13)))

-- `[^;]+;`: what stands before the first semicolon, if there is one.
unfoldable pub until_semicolon : Text → Option Text
until_semicolon [] = none
until_semicolon (c ∷ s) =
    let rest = until_semicolon s in
    if c == b';' then some [] else elim rest [ none ↦ none | some t ↦ some (c ∷ t) ]

-- `\s+([^;]+);` after `server`, with the last blank seen. The blanks are taken greedily; where
-- nothing but a semicolon follows them, the match gives its last blank back to the group.
unfoldable pub target_after : Option ℕ → ℕ → Text → Option Text
target_after before last [] = none
target_after before last (c ∷ s) =
    let more = target_after (some last) c s in
    if is_blank_char c
    then more
    else if c == b';'
    then elim before [ none ↦ none | some earlier ↦ some (last ∷ []) ]
    else until_semicolon (c ∷ s)

abbrev drop_server : Text → Text
drop_server (a ∷ b ∷ c ∷ d ∷ e ∷ f ∷ s) = s
drop_server s = []

-- The match of `server\s+([^;]+);` that starts right here.
unfoldable pub match_here : Text → Option Text
unfolding has_prefix target_after
match_here s =
    if has_prefix s (bytes "server")
    then elim (drop_server s) [
      | [] ↦ none
      | c ∷ rest ↦ if is_blank_char c then target_after none c rest else none
    ]
    else none

-- `FindStringSubmatch`: the group of the leftmost match.
unfoldable pub find_target : Text → Option Text
unfolding match_here
find_target [] = none
find_target (c ∷ s) =
    let rest = find_target s in elim (match_here (c ∷ s)) [ some t ↦ some t | none ↦ rest ]

-- `strings.ReplaceAll(match, " ", "")`
unfoldable pub strip_spaces : Text → Text
unfolding select
strip_spaces t = select (λ c. not (c == 32)) t

-- The loop over the lines: the first that contains the marker decides.
unfoldable pub live_in : List Text → Text → Option Text
unfolding find_target strip_spaces contains
live_in [] marker = none
live_in (l ∷ ls) marker =
    let rest = live_in ls marker in
    if contains l marker
    then elim (find_target l) [ none ↦ none | some t ↦ some (strip_spaces t) ]
    else rest

-- `LiveTarget`, of a file that could be opened; every error is `none`.
abbrev pub live_target : ConfFile → Text → Option Text
live_target file marker = live_in file.lines marker
