-- ===== src/Program/LogWriter.antt =====
-- The writer that logs what other code writes (pkg/utils/logwriter.go), on the bytes of a text.
use helm_operator.Base.{List, [], if◌then◌else◌, length, ℕ, ◌==◌, ◌∷◌}

-- The bytes without a newline at the end.
unfoldable pub cut_newline : List ℕ → List ℕ
cut_newline [] = []
cut_newline (b ∷ []) = if b == 10 then [] else b ∷ []
cut_newline (b ∷ c ∷ bs) = b ∷ cut_newline (c ∷ bs)

-- `Write`: what is logged, and the count that is returned.
abbrev pub write : List ℕ → List ℕ × ℕ
write p = (cut_newline p, length p)
