-- ===== src/Probe/Reads.antt =====
-- A server line that a deploy script writes is read back (internal/probe/nginx.go).
use touchgrass.Base.{
  ℕ, ◌≡◌, refl, Bool, true, false, not, ◌&&◌, ◌==◌, Text, bytes, contains, has_prefix, none, some,
  List, [], ◌∷◌, ◌++◌, All, select, arith,
}
use touchgrass.Probe.{
  is_blank_char, until_semicolon, target_after, match_here, find_target, strip_spaces, live_in,
  live_target,
}

-- Characters of a host and port: no blank and no semicolon.
abbrev pub is_host_char : ℕ → Bool
is_host_char c = not (is_blank_char c) && not (c == b';')

-- Spaces, `server`, a space, the host and a semicolon.
abbrev pub server_line : Text → Text → Text → Text
server_line indent host tail = indent ++ (bytes "server " ++ (host ++ (bytes ";" ++ tail)))

until_semicolon_lem :
    (host tail : Text)
    → All (λ c. is_host_char c ≡ true) host
    → until_semicolon (host ++ (bytes ";" ++ tail)) ≡ some host
unfolding until_semicolon
until_semicolon_lem [] tail h = refl
until_semicolon_lem (c ∷ s) tail h = ground (arith, h.0, until_semicolon_lem s tail h.1)

target_after_lem :
    (c : ℕ) (s tail : Text)
    → All (λ d. is_host_char d ≡ true) (c ∷ s)
    → target_after none 32 (c ∷ (s ++ (bytes ";" ++ tail))) ≡ some (c ∷ s)
unfolding target_after
target_after_lem c s tail h = ground (arith, h.0, until_semicolon_lem (c ∷ s) tail h)

find_target_lem :
    (indent : Text) (c : ℕ) (s tail : Text)
    → All (λ d. d ≡ 32) indent
    → All (λ d. is_host_char d ≡ true) (c ∷ s)
    → find_target (server_line indent (c ∷ s) tail) ≡ some (c ∷ s)
unfolding find_target match_here has_prefix
find_target_lem [] c s tail w h = ground (arith, target_after_lem c s tail h)
find_target_lem (d ∷ indent) c s tail w h =
    ground (arith, w.0, find_target_lem indent c s tail w.1 h)

strip_spaces_lem : (host : Text) → All (λ c. is_host_char c ≡ true) host → strip_spaces host ≡ host
unfolding strip_spaces select
strip_spaces_lem [] h = refl
strip_spaces_lem (c ∷ s) h = ground (arith, h.0, strip_spaces_lem s h.1)

live_in_lem :
    (before after : List Text) (line marker host : Text)
    → All (λ l. contains l marker ≡ false) before
    → contains line marker ≡ true
    → find_target line ≡ some host
    → strip_spaces host ≡ host
    → live_in (before ++ line ∷ after) marker ≡ some host
unfolding live_in
live_in_lem [] after line marker host b m f e = ground arith
live_in_lem (l ∷ before) after line marker host b m f e =
    ground (arith, b.0, live_in_lem before after line marker host b.1 m f e)

-- In a file whose first line with the marker is a server line, indented by spaces, for a host with
-- no blank and no semicolon, the live target is that host, whatever follows it on the line and in
-- the file.
pub live_target-server_line :
    (before after : List Text) (indent tail marker : Text) (c : ℕ) (s : Text)
    → All (λ l. contains l marker ≡ false) before
    → All (λ d. d ≡ 32) indent
    → All (λ d. is_host_char d ≡ true) (c ∷ s)
    → contains (server_line indent (c ∷ s) tail) marker ≡ true
    → live_target (record { lines = before ++ server_line indent (c ∷ s) tail ∷ after }) marker
      ≡ some (c ∷ s)
live_target-server_line before after indent tail marker c s b w h m =
    live_in_lem before after (server_line indent (c ∷ s) tail) marker (c ∷ s) b m
      (find_target_lem indent c s tail w h) (strip_spaces_lem (c ∷ s) h)
