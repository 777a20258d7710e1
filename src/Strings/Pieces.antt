-- ===== src/Strings/Pieces.antt =====
-- The pieces of a text that is split.
use stornas.Base.{String, List, [], ◌∷◌, ◌<>◌}

abbrev pub whole : String → List String
whole s = s ∷ []

abbrev pub start : List String → List String
start ps = "" ∷ ps

-- One more character in front of the first piece.
abbrev pub push : String → List String → List String
push c [] = c ∷ []
push c (p ∷ ps) = (c <> p) ∷ ps

abbrev pub last_piece : List String → String
last_piece [] = ""
last_piece (p ∷ []) = p
last_piece (p ∷ q ∷ qs) = last_piece (q ∷ qs)
