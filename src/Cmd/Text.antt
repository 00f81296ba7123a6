-- ===== src/Cmd/Text.antt =====
-- The functions of Go's `strings` package that the commands (cmd) use on their flags.
use Prim.Native.Char.{Char, code}
use Prim.Native.String.{String, [], ◌∷◌}
use distsched.Base.{ℕ, ◌==◌, leb, Bool, true, false, ◌&&◌, ◌||◌, Option, none, some, if◌then◌else◌}
use mathlib.Core.List as L
use mathlib.Core.List.{List}

-- The characters with Unicode's property White_Space.
unfoldable pub is_space : Char → Bool
is_space c =
    let n = code c in
    leb 9 n && leb n 13
    || n == 32
    || n == 133
    || n == 160
    || n == 5760
    || leb 8192 n && leb n 8202
    || n == 8232
    || n == 8233
    || n == 8239
    || n == 8287
    || n == 12288

abbrev pub is_empty : String → Bool
is_empty [] = true
is_empty (c ∷ s) = false

unfoldable pub trim_left : String → String
trim_left [] = []
trim_left (c ∷ s) = let rest = trim_left s in if is_space c then rest else c ∷ s

unfoldable pub trim_right : String → String
trim_right [] = []
trim_right (c ∷ s) = let rest = trim_right s in if is_space c && is_empty rest then [] else c ∷ rest

-- `strings.TrimSpace`
unfoldable pub trim_space : String → String
trim_space s = trim_right (trim_left s)

abbrev pub onto_first : Char → List String → List String
onto_first c L.[] = L.◌∷◌ (c ∷ []) L.[]
onto_first c (L.◌∷◌ s ss) = L.◌∷◌ (c ∷ s) ss

-- `strings.Split` at the characters with the code `sep`.
unfoldable pub split : ℕ → String → List String
split sep [] = L.◌∷◌ [] L.[]
split sep (c ∷ s) =
    let rest = split sep s in if code c == sep then L.◌∷◌ [] rest else onto_first c rest

abbrev pub before : Char → Option (String × String) → Option (String × String)
before c none = none
before c (some (s, t)) = some (c ∷ s, t)

-- `strings.Cut` at the first character with the code `sep`.
unfoldable pub cut : ℕ → String → Option (String × String)
cut sep [] = none
cut sep (c ∷ s) = let rest = cut sep s in if code c == sep then some ([], s) else before c rest

abbrev after_prefix : String → String → Option String
after_prefix [] s = some s
after_prefix (c ∷ p) [] = none
after_prefix (c ∷ p) (d ∷ s) =
    let rest = after_prefix p s in if code c == code d then rest else none

-- `strings.TrimPrefix`, the prefix first.
unfoldable pub trim_prefix : String → String → String
trim_prefix p s = elim (after_prefix p s) [ none ↦ s | some t ↦ t ]
