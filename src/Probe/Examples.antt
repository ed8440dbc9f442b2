-- ===== src/Probe/Examples.antt =====
-- The reading of an nginx file at a concrete file.
use touchgrass.Base.{◌≡◌, refl, true, false, Text, bytes, some, [], ◌∷◌, contains}
use touchgrass.Probe.{live_target}
use touchgrass.Probe.Reads.{server_line, live_target-server_line}

abbrev comment : Text
comment = bytes "# touchgrass"

abbrev other_line : Text
other_line = bytes "upstream app {"

abbrev tail : Text
tail = bytes " # live"

other_line-contains : contains other_line (bytes "# live") ≡ false
unfolding contains
other_line-contains = refl

line-contains : contains (server_line (bytes "  ") (bytes "app:80") tail) (bytes "# live") ≡ true
unfolding contains
line-contains = refl

live_target-server_line_example :
    live_target
      (record {
        lines = other_line ∷ server_line (bytes "  ") (bytes "app:80") tail ∷ comment ∷ [];
      })
      (bytes "# live")
    ≡ some (bytes "app:80")
live_target-server_line_example =
    live_target-server_line (other_line ∷ []) (comment ∷ []) (bytes "  ") tail (bytes "# live") b'a'
      (bytes "pp:80") (other_line-contains, tt) (refl, (refl, tt))
      (refl, (refl, (refl, (refl, (refl, (refl, tt)))))) line-contains
