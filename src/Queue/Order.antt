-- ===== src/Queue/Order.antt =====
-- internal/queue/queue.go: the order of the items, by priority, then age, then job ID.
use Prim.Native.String.{String, [], ◌∷◌}
use Prim.Native.String.compare
use distsched.Base.{
  ℤ, ltb_ℤ, eqb_ℤ, ◌⊎◌, inl, inr, sym, subst, ◌∙◌, ◌≡◌, ◌≢◌, refl, true, false, arith, str_lt,
  Bool-cases,
}
use mathlib.Core.Bool.{false≢true}
use text.Mathlib.TextEquality.{codes_equal}
use distsched.Queue.{Item, less}

str_asym : (s t : String) → str_lt s t ≡ true → str_lt t s ≡ false
str_asym [] [] h = ground (arith, compare.nil-nil)
str_asym [] (d ∷ t) h = ground (arith, compare.nil-cons d t, compare.cons-nil d t)
str_asym (c ∷ s) [] h = ground (arith, compare.nil-cons c s, compare.cons-nil c s)
str_asym (c ∷ s) (d ∷ t) h =
    ground (arith, compare.cons-cons c d s t, compare.cons-cons d c t s, str_asym s t)

str_trans : (s t u : String) → str_lt t s ≡ false → str_lt u t ≡ false → str_lt u s ≡ false
str_trans [] t [] h k = ground (arith, compare.nil-nil)
str_trans [] t (e ∷ u) h k = ground (arith, compare.cons-nil e u)
str_trans (c ∷ s) [] u h k = ground (arith, compare.nil-cons c s)
str_trans (c ∷ s) (d ∷ t) [] h k = ground (arith, compare.nil-cons d t)
str_trans (c ∷ s) (d ∷ t) (e ∷ u) h k = ground (
  arith,
  compare.cons-cons d c t s,
  compare.cons-cons e d u t,
  compare.cons-cons e c u s,
  str_trans s t u,
)

-- Of two items at most one comes before the other.
pub less_asym : (a b : Item) → less a b ≡ true → less b a ≡ false
unfolding less
less_asym a b h = ground (arith, str_asym a.job_id b.job_id)

-- `a` comes first, or the two are the same to the order.
abbrev First : Item → Item → Type 0
First a b =
    (ltb_ℤ b.priority a.priority ≡ true)
    ⊎ (a.priority ≡ b.priority)
      × ((ltb_ℤ a.created_at b.created_at ≡ true)
          ⊎ (a.created_at ≡ b.created_at) × (str_lt b.job_id a.job_id ≡ false))

int_first : (x y : ℤ) → (ltb_ℤ x y ≡ true) ⊎ (x ≡ y) ⊎ (ltb_ℤ y x ≡ true)
int_first x y = ground arith

int_trans : (x y z : ℤ) → ltb_ℤ x y ≡ true → ltb_ℤ y z ≡ true → ltb_ℤ x z ≡ true
int_trans x y z h k = ground arith

eqb_self : (x : ℤ) → eqb_ℤ x x ≡ true
eqb_self x = ground arith

less_by_priority : (a b : Item) → ltb_ℤ b.priority a.priority ≡ true → less a b ≡ true
unfolding less
less_by_priority a b h = ground arith

less_by_age :
    (a b : Item)
    → a.priority ≡ b.priority
    → ltb_ℤ a.created_at b.created_at ≡ true
    → less a b ≡ true
unfolding less
less_by_age a b e h = rw (e, eqb_self b.priority) (ground arith)

less_by_id :
    (a b : Item)
    → a.priority ≡ b.priority
    → a.created_at ≡ b.created_at
    → less a b ≡ str_lt a.job_id b.job_id
unfolding less
less_by_id a b e f = rw (e, eqb_self b.priority, f, eqb_self b.created_at) refl

First-of : (a b : Item) → less b a ≡ false → First a b
First-of a b h = elim (int_first b.priority a.priority) [
  | inl above ↦ inl above
  | inr (inl e) ↦ elim (int_first a.created_at b.created_at) [
    | inl older ↦ inr (sym e, inl older)
    | inr (inl f) ↦ inr (sym e, inr (f, sym (less_by_id b a e (sym f)) ∙ h))
    | inr (inr younger) ↦ absurd (false≢true (sym h ∙ less_by_age b a e younger))
  ]
  | inr (inr below) ↦ absurd (false≢true (sym h ∙ less_by_priority b a below))
]

of-First : (a b : Item) → First a b → less b a ≡ false
of-First a b (inl above) = less_asym a b (less_by_priority a b above)
of-First a b (inr (e, inl older)) = less_asym a b (less_by_age a b e older)
of-First a b (inr (e, inr (f, s))) = less_by_id b a (sym e) (sym f) ∙ s

First-trans : (a b c : Item) → First a b → First b c → First a c
First-trans a b c (inl x) (inl y) = inl (int_trans c.priority b.priority a.priority y x)
First-trans a b c (inl x) (inr (e, y)) = inl (subst (λ p. ltb_ℤ p a.priority ≡ true) e x)
First-trans a b c (inr (e, x)) (inl y) = inl (subst (λ p. ltb_ℤ c.priority p ≡ true) (sym e) y)
First-trans a b c (inr (e, inl x)) (inr (f, inl y)) =
    inr (e ∙ f, inl (int_trans a.created_at b.created_at c.created_at x y))
First-trans a b c (inr (e, inl x)) (inr (f, inr (g, y))) =
    inr (e ∙ f, inl (subst (λ t. ltb_ℤ a.created_at t ≡ true) g x))
First-trans a b c (inr (e, inr (g, x))) (inr (f, inl y)) =
    inr (e ∙ f, inl (subst (λ t. ltb_ℤ t c.created_at ≡ true) (sym g) y))
First-trans a b c (inr (e, inr (g, x))) (inr (f, inr (k, y))) =
    inr (e ∙ f, inr (g ∙ k, str_trans a.job_id b.job_id c.job_id x y))

-- What does not come before another does not come before what follows that one.
pub less_trans : (a b c : Item) → less b a ≡ false → less c b ≡ false → less c a ≡ false
less_trans a b c h k = of-First a c (First-trans a b c (First-of a b h) (First-of b c k))

str_total : (s t : String) → str_lt s t ≡ false → str_lt t s ≡ false → s ≡ t
str_total [] [] h k = refl
str_total [] (d ∷ t) h k = ground (arith, compare.nil-cons d t)
str_total (c ∷ s) [] h k = ground (arith, compare.nil-cons c s)
str_total (c ∷ s) (d ∷ t) h k =
    ground
      (arith, compare.cons-cons c d s t, compare.cons-cons d c t s, str_total s t, codes_equal c d)

First-total : (a b : Item) → First a b → First b a → a.job_id ≡ b.job_id
First-total a b (inl x) k = absurd (ground arith)
First-total a b (inr (e, x)) (inl y) = absurd (ground arith)
First-total a b (inr (e, inl x)) (inr (g, y)) = absurd (ground arith)
First-total a b (inr (e, inr (f, x))) (inr (g, inl y)) = absurd (ground arith)
First-total a b (inr (e, inr (f, x))) (inr (g, inr (k, y))) = str_total a.job_id b.job_id y x

-- Of two items with different job IDs, one comes before the other.
pub less_total : (a b : Item) → a.job_id ≢ b.job_id → less b a ≡ false → less a b ≡ true
less_total a b d h = elim (Bool-cases (less a b)) [
  | inl e ↦ e
  | inr e ↦ absurd (d (First-total a b (First-of a b h) (First-of b a e)))
]
