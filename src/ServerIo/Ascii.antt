-- ===== src/ServerIo/Ascii.antt =====
-- strstr on lists of bytes.
use echo_server_cpp.Prelude.{ℕ, Option, none, some, List, [], ◌∷◌, if◌then◌else◌}
use echo_server_cpp.Prelude.Ascii.{starts_with}

-- The text from the first occurrence of the pattern on.
unfoldable pub find_text : List ℕ → List ℕ → Option (List ℕ)
find_text pat [] = if starts_with pat [] then some [] else none
find_text pat (b ∷ bs) =
    let rest = find_text pat bs in if starts_with pat (b ∷ bs) then some (b ∷ bs) else rest
