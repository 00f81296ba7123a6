-- ===== src/Worker/Output.antt =====
-- internal/worker/executor.go: the output that a report carries.
use distsched.Base.{
  ℕ, zero, suc, ◌≤◌, ◌<◌, ◌≡◌, refl, ap, ◌∙◌, List, [], ◌∷◌, ◌++◌, length, take, ltb, arith,
  length-append, ltb→lt, ltb_false→le, Bool-cases, inl, inr,
}
use distsched.Queue.Length.{length-take}
use distsched.Worker.Executor.{suffix, truncate}

take-append : (n : ℕ) (xs ys : List ℕ) → n ≤ length xs → take n (xs ++ ys) ≡ take n xs
take-append zero xs ys h = refl
take-append (suc n) [] ys h = absurd (omega arith)
take-append (suc n) (x ∷ xs) ys h = ap (λ l. x ∷ l) (take-append n xs ys (omega arith))

take-take : (n : ℕ) (xs : List ℕ) → take n (take n xs) ≡ take n xs
take-take zero xs = refl
take-take (suc n) [] = refl
take-take (suc n) (x ∷ xs) = ap (λ l. x ∷ l) (take-take n xs)

-- The output that a report carries has at most 8206 bytes, begins with the first 8192 bytes of what the
-- process wrote, and is all of it where that is no longer than 8192 bytes.
pub truncate_bounded :
    (s : List ℕ)
    → (length (truncate s) ≤ 8206)
      × (take 8192 (truncate s) ≡ take 8192 s)
      × (length s ≤ 8192 → truncate s ≡ s)
unfolding truncate
truncate_bounded s = elim (Bool-cases (ltb 8192 (length s))) [
  | inl e ↦
      let long : 8192 < length s = ltb→lt 8192 (length s) e in
      let n : length (take 8192 s) ≡ 8192 = length-take 8192 s (omega (arith, long)) in
      rw (e, truncate)
        (
          omega (arith, length-append (take 8192 s) suffix),
          take-append 8192 (take 8192 s) suffix (omega arith) ∙ take-take 8192 s,
          λ h. absurd (omega (arith, long, h)),
        )
  | inr e ↦ rw (e, truncate) (omega (arith, ltb_false→le 8192 (length s) e), refl, λ h. refl)
]
