-- ===== src/Delta/Index/Arrays.antt =====
-- Reads and writes in range, for the arrays of delta_index.go.
use ai_experimental_search.Base.{
  ℕ, zero, suc, ◌<◌, ◌≡◌, ◌⊎◌, inl, inr, refl, some, List, [], ◌∷◌, lt→ltb, length, get_elem?, set,
  replicate, All, arith,
}
use ai_experimental_search.Delta.Index.{write}

pub get_in_range : (l : List ℕ) (i : ℕ) → i < length l → (v : ℕ) × (get_elem? l i ≡ some v)
get_in_range [] i h = absurd (omega (arith, h))
get_in_range (x ∷ l) zero h = (x, refl)
get_in_range (x ∷ l) (suc i) h = get_in_range l i (omega (arith, h))

pub All-get :
    (bound : ℕ) (l : List ℕ) (i v : ℕ)
    → All (λ (x : ℕ). x < bound) l
    → get_elem? l i ≡ some v
    → v < bound
All-get bound [] i v a e = cc
All-get bound (x ∷ l) zero v (a, as_) e = let same : x ≡ v = cc in omega (arith, a, same)
All-get bound (x ∷ l) (suc i) v (a, as_) e = All-get bound l i v as_ e

pub All-set :
    (bound : ℕ) (l : List ℕ) (i v : ℕ)
    → All (λ (x : ℕ). x < bound) l
    → v < bound
    → All (λ (x : ℕ). x < bound) (set l i v)
All-set bound [] i v a h = tt
All-set bound (x ∷ l) zero v (a, as_) h = (h, as_)
All-set bound (x ∷ l) (suc i) v (a, as_) h = (a, All-set bound l i v as_ h)

pub All-replicate : (bound n : ℕ) → 0 < bound → All (λ (x : ℕ). x < bound) (replicate n 0)
All-replicate bound zero h = tt
All-replicate bound (suc n) h = (h, All-replicate bound n h)

pub length-set : (l : List ℕ) (i v : ℕ) → length (set l i v) ≡ length l
length-set [] i v = refl
length-set (x ∷ l) zero v = refl
length-set (x ∷ l) (suc i) v = omega (arith, length-set l i v)

pub write_in_range : (l : List ℕ) (i v : ℕ) → i < length l → write l i v ≡ some (set l i v)
write_in_range l i v h = rw (lt→ltb i (length l) h) refl

-- Every place of the one list has what it has in the other one, or 0.
abbrev pub IsCut : List ℕ → List ℕ → Type 0
IsCut new old =
    (i v : ℕ) → get_elem? old i ≡ some v → (get_elem? new i ≡ some v) ⊎ (get_elem? new i ≡ some 0)

pub IsCut-set : (l : List ℕ) (i : ℕ) → IsCut (set l i 0) l
IsCut-set [] i j v e = inl e
IsCut-set (x ∷ l) zero zero v e = inr refl
IsCut-set (x ∷ l) zero (suc j) v e = inl e
IsCut-set (x ∷ l) (suc i) zero v e = inl e
IsCut-set (x ∷ l) (suc i) (suc j) v e = IsCut-set l i j v e

pub IsCut-trans : (a b c : List ℕ) → IsCut a b → IsCut b c → IsCut a c
IsCut-trans a b c f g i v e = elim (g i v e) [
  | inl h ↦ f i v h
  | inr h ↦ elim (f i 0 h) [ inl k ↦ inr k | inr k ↦ inr k ]
]
