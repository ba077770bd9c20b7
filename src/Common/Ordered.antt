-- ===== src/Common/Ordered.antt =====
-- Ordered lists of keys as sets: a subset is no longer, and of one length it is equal.
use stargate.Common.{
  ℕ, ◌≤◌, ◌<◌, ◌≡◌, ◌⊎◌, refl, Bool, true, false, ◌&&◌, List, [], ◌∷◌, arith, ◌==◌, ==→eq, ==-self,
  length, all, All, All-contains, contains, IsOrdered, Subset, Bool-cases, inl, inr,
}

&&-right : (b c : Bool) → (b && c) ≡ true → c ≡ true
&&-right true c h = h
&&-right false c h = cc

pub all-Subset :
    (xs ys : List ℕ) (p : ℕ → Bool)
    → ((a : ℕ) → p a ≡ contains ys a)
    → all p xs ≡ true
    → Subset xs ys
all-Subset [] ys p e h a c = cc
all-Subset (x ∷ xs) ys p e h a c =
    ground (arith, e x, ==→eq x a, all-Subset xs ys p e (&&-right (p x) _ h) a)

-- every member of an ordered list but its head lies beyond the head
Subset-tail :
    (x y : ℕ) (xs ys : List ℕ)
    → y < x
    → All (λ a. x < a) xs
    → Subset (x ∷ xs) (y ∷ ys)
    → Subset (x ∷ xs) ys
Subset-tail x y xs ys lt h s a c = ground (arith, s a c, All-contains x xs a h)

Subset-tails :
    (x : ℕ) (xs ys : List ℕ) → All (λ a. x < a) xs → Subset (x ∷ xs) (x ∷ ys) → Subset xs ys
Subset-tails x xs ys h s a c = ground (arith, s a, All-contains x xs a h c)

head_member : (x : ℕ) (xs : List ℕ) → contains (x ∷ xs) x ≡ true
head_member x xs = rw (==-self x)

tail_member : (x a : ℕ) (xs : List ℕ) → contains xs a ≡ true → contains (x ∷ xs) a ≡ true
tail_member x a xs c = ground arith

member_above :
    (x y : ℕ) (xs ys : List ℕ)
    → All (λ a. y < a) ys
    → (x == y) ≡ false
    → contains (y ∷ ys) x ≡ true
    → y < x
member_above x y xs ys h other c = ground (arith, All-contains y ys x h)

Subset-cases :
    (x y : ℕ) (xs ys : List ℕ)
    → IsOrdered (x ∷ xs)
    → IsOrdered (y ∷ ys)
    → Subset (x ∷ xs) (y ∷ ys)
    → ((x ≡ y) × Subset xs ys) ⊎ Subset (x ∷ xs) ys
Subset-cases x y xs ys hx hy s = elim (Bool-cases (x == y)) [
  | inl same ↦ inl (==→eq x y same, Subset-tails x xs ys hx.0 (rw (← ==→eq x y same) at s))
  | inr other ↦
      inr
        (Subset-tail x y xs ys (member_above x y xs ys hy.0 other (s x (head_member x xs))) hx.0 s)
]

-- A set that is contained in another is no larger.
pub length-Subset :
    (xs ys : List ℕ) → IsOrdered xs → IsOrdered ys → Subset xs ys → length xs ≤ length ys
length-Subset [] ys hx hy s = omega arith
length-Subset (x ∷ xs) [] hx hy s = ground (arith, s x (head_member x xs))
length-Subset (x ∷ xs) (y ∷ ys) hx hy s = elim (Subset-cases x y xs ys hx hy s) [
  | inl same ↦ omega (arith, length-Subset xs ys hx.1 hy.1 same.1)
  | inr more ↦ omega (arith, length-Subset (x ∷ xs) ys hx hy.1 more)
]

-- A set that is contained in another of its size is that set.
pub eq_of_Subset :
    (xs ys : List ℕ) → IsOrdered xs → IsOrdered ys → Subset xs ys → length xs ≡ length ys → xs ≡ ys
eq_of_Subset [] [] hx hy s e = refl
eq_of_Subset [] (y ∷ ys) hx hy s e = absurd (omega arith)
eq_of_Subset (x ∷ xs) [] hx hy s e = absurd (omega arith)
eq_of_Subset (x ∷ xs) (y ∷ ys) hx hy s e = elim (Subset-cases x y xs ys hx hy s) [
  | inl same ↦ cc (same.0, eq_of_Subset xs ys hx.1 hy.1 same.1 (omega arith))
  | inr more ↦ absurd (omega (arith, length-Subset (x ∷ xs) ys hx hy.1 more))
]

pub all_of_Subset :
    (xs ys : List ℕ) (p : ℕ → Bool)
    → ((a : ℕ) → p a ≡ contains ys a)
    → Subset xs ys
    → all p xs ≡ true
all_of_Subset [] ys p e s = refl
all_of_Subset (x ∷ xs) ys p e s =
    rw (e x, s x (head_member x xs)) (all_of_Subset xs ys p e (λ a c. s a (tail_member x a xs c)))
