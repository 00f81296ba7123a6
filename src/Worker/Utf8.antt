-- ===== src/Worker/Utf8.antt =====
-- internal/worker/executor.go: the output as the text that the report's `string` field has to be. A
-- `string` of a protobuf message is valid UTF-8 (RFC 3629), which `is_utf8` decides.
use distsched.Base.{
  ℕ, zero, suc, ◌≡◌, refl, ap, ◌∙◌, Bool, true, false, ◌&&◌, List, [], ◌∷◌, ◌++◌, Option, none,
  some, length, take, ltb, leb, ◌==◌, if◌then◌else◌, arith, length-append, lt→ltb, Option-cases,
  inl, inr,
}
use distsched.Worker.Executor.{suffix, truncate}

-- How many bytes of a character are still to come, and between what bounds the next one lies.
pub record Pending : Type 0 where
  pub more : ℕ
  pub low : ℕ
  pub high : ℕ

abbrev pub start : Pending
start = record { more = 0; low = 0; high = 127 }

-- After the first byte of a character of two bytes.
abbrev continued : Pending
continued = record { more = 1; low = 128; high = 191 }

abbrev finished : Pending
finished = record { more = 0; low = 128; high = 191 }

abbrev pub between : ℕ → ℕ → ℕ → Bool
between lo hi c = leb lo c && leb c hi

-- The first byte of a character.
unfoldable pub lead : ℕ → Option Pending
lead c =
    if between 0 127 c
    then some start
    else if between 194 223 c
    then some (record { more = 1; low = 128; high = 191 })
    else if c == 224
    then some (record { more = 2; low = 160; high = 191 })
    else if c == 237
    then some (record { more = 2; low = 128; high = 159 })
    else if between 225 239 c
    then some (record { more = 2; low = 128; high = 191 })
    else if c == 240
    then some (record { more = 3; low = 144; high = 191 })
    else if between 241 243 c
    then some (record { more = 3; low = 128; high = 191 })
    else if c == 244
    then some (record { more = 3; low = 128; high = 143 })
    else none

unfoldable pub next_byte : ℕ → Pending → Option Pending
next_byte c p = elim p.more [
  | zero ↦ lead c
  | suc n ↦
      (if between p.low p.high c then some (record { more = n; low = 128; high = 191 }) else none)
]

-- What is pending after the bytes; `none` where they are not the beginning of any text.
unfoldable pub scan : List ℕ → Pending → Option Pending
scan [] p = some p
scan (c ∷ cs) p = elim (next_byte c p) [ none ↦ none | some q ↦ scan cs q ]

-- No character is left unfinished.
abbrev pub is_complete : Option Pending → Bool
is_complete none = false
is_complete (some p) = p.more == 0

abbrev pub is_utf8 : List ℕ → Bool
is_utf8 s = is_complete (scan s start)

scan-append : (xs ys : List ℕ) (p q : Pending) → scan xs p ≡ some q → scan (xs ++ ys) p ≡ scan ys q
unfolding scan
scan-append [] ys p q h = ground arith
scan-append (c ∷ cs) ys p q h = elim (Option-cases (next_byte c p)) [
  | inl e ↦ absurd (ground arith)
  | inr (r, e) ↦ rw (e, scan) (scan-append cs ys r q (ground arith))
]

at_boundary :
    (cs : List ℕ) (p q : Pending)
    → p.more ≡ 0
    → q.more ≡ 0
    → is_complete (scan cs p) ≡ is_complete (scan cs q)
unfolding scan next_byte
at_boundary [] p q h k = ground arith
at_boundary (c ∷ cs) p q h k = rw (h, k) refl

whole : (p : List ℕ) → is_utf8 p ≡ true → (q : Pending) × (scan p start ≡ some q) × (q.more ≡ 0)
whole p h = elim (Option-cases (scan p start)) [
  | inl e ↦ absurd (ground arith)
  | inr (q, e) ↦ (q, e, ground arith)
]

-- The first byte of a character of two bytes.
lead-two : (c : ℕ) → between 194 223 c ≡ true → lead c ≡ some continued
unfolding lead
lead-two c h = ground arith

first-two :
    (c : ℕ) (q : Pending) → between 194 223 c ≡ true → q.more ≡ 0 → next_byte c q ≡ some continued
unfolding next_byte
first-two c q h z = rw z (lead-two c h)

second-two : (d : ℕ) → between 128 191 d ≡ true → next_byte d continued ≡ some finished
unfolding next_byte
second-two d h = rw h refl

scan-step :
    (c : ℕ) (cs : List ℕ) (p q : Pending) → next_byte c p ≡ some q → scan (c ∷ cs) p ≡ scan cs q
unfolding scan
scan-step c cs p q h = rw (h, scan) refl

cut_short :
    (c : ℕ) (q : Pending)
    → between 194 223 c ≡ true
    → q.more ≡ 0
    → is_complete (scan (c ∷ suffix) q) ≡ false
unfolding scan next_byte
cut_short c q h z = ap is_complete (scan-step c suffix q continued (first-two c q h z))

two_bytes :
    (c d : ℕ) (rest : List ℕ) (q : Pending)
    → between 194 223 c ≡ true
    → between 128 191 d ≡ true
    → q.more ≡ 0
    → is_complete (scan (c ∷ d ∷ rest) q) ≡ is_complete (scan rest start)
two_bytes c d rest q h k z =
    ap is_complete (scan-step c (d ∷ rest) q continued (first-two c q h z))
    ∙ ap is_complete (scan-step d rest continued finished (second-two d k))
    ∙ at_boundary rest finished start refl refl

take-last :
    (n : ℕ) (p : List ℕ) (c : ℕ) (rest : List ℕ)
    → length p ≡ n
    → take (suc n) (p ++ c ∷ rest) ≡ p ++ c ∷ []
take-last zero [] c rest h = refl
take-last zero (x ∷ xs) c rest h = absurd (omega arith)
take-last (suc n) [] c rest h = absurd (omega arith)
take-last (suc n) (x ∷ xs) c rest h = ap (λ l. x ∷ l) (take-last n xs c rest (omega arith))

append-one : (p : List ℕ) (c : ℕ) (ys : List ℕ) → (p ++ c ∷ []) ++ ys ≡ p ++ c ∷ ys
append-one [] c ys = refl
append-one (x ∷ xs) c ys = ap (λ l. x ∷ l) (append-one xs c ys)

truncate_cut :
    (c d : ℕ) (p rest : List ℕ) → length p ≡ 8191 → truncate (p ++ c ∷ d ∷ rest) ≡ p ++ c ∷ suffix
unfolding truncate
truncate_cut c d p rest n =
    let s = p ++ c ∷ d ∷ rest in
    let long : ltb 8192 (length s) ≡ true =
      lt→ltb 8192 (length s) (omega (arith, n, length-append p (c ∷ d ∷ rest))) in
    rw (long, truncate)
      (ap (λ l. l ++ suffix) (take-last 8191 p c (d ∷ rest) n) ∙ append-one p c suffix)

-- Where a process writes 8191 bytes of valid UTF-8, then any character of two bytes and then any valid
-- UTF-8, what it writes is valid UTF-8, and the truncated output is not.
pub truncate_splits :
    (c d : ℕ) (p rest : List ℕ)
    → between 194 223 c ≡ true
    → between 128 191 d ≡ true
    → length p ≡ 8191
    → is_utf8 p ≡ true
    → is_utf8 rest ≡ true
    → let s = p ++ c ∷ d ∷ rest in (is_utf8 s ≡ true) × (is_utf8 (truncate s) ≡ false)
truncate_splits c d p rest first second n h k =
    let (q, e, z) = whole p h in
    (
      ap is_complete (scan-append p (c ∷ d ∷ rest) start q e)
          ∙ two_bytes c d rest q first second z
          ∙ k,
      ap is_utf8 (truncate_cut c d p rest n)
          ∙ ap is_complete (scan-append p (c ∷ suffix) start q e)
          ∙ cut_short c q first z,
    )
