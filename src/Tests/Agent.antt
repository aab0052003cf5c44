-- ===== src/Tests/Agent.antt =====
-- The snapshots of an agent at concrete inputs.
use constellate.Common.{◌≡◌, List, [], ◌∷◌, length}
use constellate.Vt.Screen.{Cell}
use constellate.Agent.Encode.{encode_row}
use constellate.Agent.Encode.RoundTrip.{padded, written, blank, padded-encode_row}

abbrev row : List Cell
row = record { rune = b'a'; fg = 2; bg = 0; attrs = 0 } ∷ blank ∷ blank ∷ []

padded-encode_row_example : padded (length row) (written (encode_row row)) ≡ row
padded-encode_row_example = padded-encode_row row
