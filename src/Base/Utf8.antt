-- ===== src/Base/Utf8.antt =====
-- Texts of Rust: the characters of a text are code points, and its bytes encode them in UTF-8.
use Prim.Native.Nat.{ℕ, ◌+◌, ◌/◌, ◌%◌, ◌<◌}
use mathlib.Core.List.{List, [], ◌∷◌, ◌++◌}
use mathlib.Core.Path.{◌≡◌, refl, ap}
use move_language_server.Base.Lists.{All}
use move_language_server.Base.Tests.{ltb, lt→ltb, if◌then◌else◌}
use move_language_server.Base.Text.{Bytes}

unfoldable pub encode_char : ℕ → Bytes
encode_char c =
    if ltb c 128
    then c ∷ []
    else if ltb c 2048
    then (192 + c / 64) ∷ (128 + c % 64) ∷ []
    else if ltb c 65536
    then (224 + c / 4096) ∷ (128 + c / 64 % 64) ∷ (128 + c % 64) ∷ []
    else (240 + c / 262144) ∷ (128 + c / 4096 % 64) ∷ (128 + c / 64 % 64) ∷ (128 + c % 64) ∷ []

unfoldable pub encode : List ℕ → Bytes
unfolding encode_char
encode [] = []
encode (c ∷ text) = encode_char c ++ encode text

abbrev pub Ascii : List ℕ → Type 0
Ascii = All (λ c. c < 128)

pub encode_char-Ascii : (c : ℕ) → c < 128 → encode_char c ≡ c ∷ []
unfolding encode_char
encode_char-Ascii c h = rw (lt→ltb c 128 h) refl

-- Characters of ASCII are their bytes.
pub encode-Ascii : (xs ys : List ℕ) → Ascii xs → encode (xs ++ ys) ≡ xs ++ encode ys
unfolding encode
encode-Ascii [] ys h = refl
encode-Ascii (c ∷ xs) ys (h, hs) =
    rw (encode_char-Ascii c h) (ap (λ t. c ∷ t) (encode-Ascii xs ys hs))
