-- ===== src/Cmd/Members.antt =====
-- cmd/scheduler/main.go: the members of a cluster, written and parsed.
use Prim.Native.Char.{Char, char, code}
use Prim.Native.String.{String, [], ◌∷◌}
use mathlib.Core.List as L
use mathlib.Core.List.{List}
use distsched.Base.{ℕ, ◌≡◌, refl, ap, ◌∙◌, ◌==◌, false, some, arith, All}
use distsched.Scheduler.State.{Member}
use distsched.Cmd.{parse_members, parse_parts}
use distsched.Cmd.Text.{
  is_space, is_empty, trim_left, trim_right, trim_space, split, cut, onto_first, before,
}

-- A text without spaces, commas, and characters with the code `sep`.
abbrev pub IsPlain : ℕ → String → Type 0
IsPlain sep [] = Unit {0}
IsPlain sep (c ∷ s) =
    (is_space c ≡ false) × (code c == 44 ≡ false) × (code c == sep ≡ false) × IsPlain sep s

-- An ID has no `=`, and neither it nor the address is empty.
pub record IsProper (m : Member) : Type 0 where
  pub id_plain : IsPlain 61 m.id
  pub id_there : is_empty m.id ≡ false
  pub address_plain : IsPlain 44 m.address
  pub address_there : is_empty m.address ≡ false

abbrev pub joined : String → String → String
joined [] t = t
joined (c ∷ s) t = c ∷ joined s t

abbrev pub equals : Char
equals = char 61 tt

abbrev pub comma : Char
comma = char 44 tt

-- `id=addr`
abbrev pub written : Member → String
written m = joined m.id (equals ∷ m.address)

-- `id=addr,id=addr`
abbrev pub format : List Member → String
format L.[] = []
format (L.◌∷◌ m L.[]) = written m
format (L.◌∷◌ m (L.◌∷◌ n ms)) = joined (written m) (comma ∷ format (L.◌∷◌ n ms))

abbrev IsSolid : String → Type 0
IsSolid [] = Unit {0}
IsSolid (c ∷ s) = (is_space c ≡ false) × IsSolid s

solid : (sep : ℕ) (s : String) → IsPlain sep s → IsSolid s
solid sep [] h = tt
solid sep (c ∷ s) h = (h.0, solid sep s h.3)

joined-IsSolid : (s t : String) → IsSolid s → IsSolid t → IsSolid (joined s t)
joined-IsSolid [] t h k = k
joined-IsSolid (c ∷ s) t h k = (h.0, joined-IsSolid s t h.1 k)

trim_left-solid : (s : String) → IsSolid s → trim_left s ≡ s
unfolding trim_left
trim_left-solid [] h = refl
trim_left-solid (c ∷ s) h = rw (h.0) refl

trim_right-solid : (s : String) → IsSolid s → trim_right s ≡ s
unfolding trim_right
trim_right-solid [] h = refl
trim_right-solid (c ∷ s) h = rw (h.0) (ap (λ t. c ∷ t) (trim_right-solid s h.1))

trim_space-solid : (s : String) → IsSolid s → trim_space s ≡ s
unfolding trim_space
trim_space-solid s h = ap trim_right (trim_left-solid s h) ∙ trim_right-solid s h

split-plain :
    (sep : ℕ) (s t : String)
    → IsPlain sep s
    → split 44 (joined s (comma ∷ t)) ≡ L.◌∷◌ s (split 44 t)
unfolding split
split-plain sep [] t h = refl
split-plain sep (c ∷ s) t h = rw (h.1) (ap (onto_first c) (split-plain sep s t h.3))

split-last : (sep : ℕ) (s : String) → IsPlain sep s → split 44 s ≡ L.◌∷◌ s L.[]
unfolding split
split-last sep [] h = refl
split-last sep (c ∷ s) h = rw (h.1) (ap (onto_first c) (split-last sep s h.3))

cut-plain : (s t : String) → IsPlain 61 s → cut 61 (joined s (equals ∷ t)) ≡ some (s, t)
unfolding cut
cut-plain [] t h = refl
cut-plain (c ∷ s) t h = rw (h.2) (ap (before c) (cut-plain s t h.3))

joined-there : (s t : String) → is_empty s ≡ false → is_empty (joined s t) ≡ false
joined-there [] t h = ground arith
joined-there (c ∷ s) t h = refl

none_left : parse_parts L.[] ≡ some L.[]
unfolding parse_parts
none_left = refl

nothing_given : parse_members [] ≡ some L.[]
unfolding parse_members trim_space trim_left trim_right
nothing_given = refl

-- The part of one member has no commas.
joined-IsPlain : (s t : String) → IsPlain 61 s → IsPlain 44 t → IsPlain 44 (joined s (equals ∷ t))
unfolding is_space
joined-IsPlain [] t h k = (refl, refl, refl, k)
joined-IsPlain (c ∷ s) t h k = (h.0, h.1, h.1, joined-IsPlain s t h.3 k)

module _ (m : Member) (p : IsProper m) where
  written-IsPlain : IsPlain 44 (written m)
  written-IsPlain = joined-IsPlain m.id m.address p.id_plain p.address_plain

  written-there : is_empty (written m) ≡ false
  written-there = joined-there m.id (equals ∷ m.address) p.id_there

  parse_parts-written :
      (ps : List String) (ms : List Member)
      → parse_parts ps ≡ some ms
      → parse_parts (L.◌∷◌ (written m) ps) ≡ some (L.◌∷◌ m ms)
  unfolding parse_parts
  parse_parts-written ps ms h =
      let whole = trim_space-solid (written m) (solid 44 (written m) written-IsPlain) in
      rw
        (
          whole,
          written-there,
          cut-plain m.id m.address p.id_plain,
          p.id_there,
          p.address_there,
          h,
          trim_space-solid m.id (solid 61 m.id p.id_plain),
          trim_space-solid m.address (solid 44 m.address p.address_plain),
        )
        refl

format-IsSolid : (ms : List Member) → All IsProper ms → IsSolid (format ms)
unfolding is_space
format-IsSolid L.[] h = tt
format-IsSolid (L.◌∷◌ m L.[]) h = solid 44 (written m) (written-IsPlain m h.0)
format-IsSolid (L.◌∷◌ m (L.◌∷◌ n ms)) h =
    joined-IsSolid (written m) (comma ∷ format (L.◌∷◌ n ms))
      (solid 44 (written m) (written-IsPlain m h.0)) (refl, format-IsSolid (L.◌∷◌ n ms) h.1)

format-there : (m : Member) (ms : List Member) → IsProper m → is_empty (format (L.◌∷◌ m ms)) ≡ false
format-there m L.[] p = written-there m p
format-there m (L.◌∷◌ n ms) p =
    joined-there (written m) (comma ∷ format (L.◌∷◌ n ms)) (written-there m p)

parse_parts-format :
    (m : Member) (ms : List Member)
    → All IsProper (L.◌∷◌ m ms)
    → parse_parts (split 44 (format (L.◌∷◌ m ms))) ≡ some (L.◌∷◌ m ms)
parse_parts-format m L.[] h =
    ap parse_parts (split-last 44 (written m) (written-IsPlain m h.0))
    ∙ parse_parts-written m h.0 L.[] L.[] none_left
parse_parts-format m (L.◌∷◌ n ms) h =
    ap parse_parts (split-plain 44 (written m) (format (L.◌∷◌ n ms)) (written-IsPlain m h.0))
    ∙ parse_parts-written m h.0 (split 44 (format (L.◌∷◌ n ms))) (L.◌∷◌ n ms)
        (parse_parts-format n ms h.1)

-- The members of a cluster, written as `id=addr,id=addr`, are parsed back in their order, where no ID
-- or address is empty or has a space or a comma, and no ID has a `=`.
pub parse_members-format :
    (ms : List Member) → All IsProper ms → parse_members (format ms) ≡ some ms
unfolding parse_members
parse_members-format L.[] h = nothing_given
parse_members-format (L.◌∷◌ m ms) h =
    rw
      (
        trim_space-solid (format (L.◌∷◌ m ms)) (format-IsSolid (L.◌∷◌ m ms) h),
        format-there m ms h.0,
      )
      (parse_parts-format m ms h)
