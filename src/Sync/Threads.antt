-- ===== src/Sync/Threads.antt =====
-- Threads are numbered; a state gives each its place in the code.
use libnumakit.Prelude.{
  ℕ, zero, suc, ◌≤◌, ◌<◌, ◌≡◌, ◌≢◌, Bool, true, false, ◌||◌, List, [], ◌∷◌, ◌++◌, length, arith,
  ◌==◌, if◌then◌else◌, refl, Bool-cases, inl, inr,
}

abbrev pub update {ℓ} : {A : Type ℓ} → (ℕ → A) → ℕ → A → ℕ → A
update f i a j = if i == j then a else f j

-- A list of threads.
abbrev pub member : ℕ → List ℕ → Bool
member i [] = false
member i (j ∷ q) = i == j || member i q

abbrev pub Distinct : List ℕ → Type 0
Distinct [] = Unit
Distinct (i ∷ q) = (member i q ≡ false) × Distinct q

abbrev pub Below : ℕ → List ℕ → Type 0
Below n [] = Unit
Below n (i ∷ q) = (i < n) × Below n q

unfoldable pub erase : ℕ → List ℕ → List ℕ
erase i [] = []
erase i (j ∷ q) = if i == j then q else j ∷ erase i q

pub length-erase : (i : ℕ) (q : List ℕ) → member i q ≡ true → length q ≡ suc (length (erase i q))
unfolding erase
length-erase i [] h = cc
length-erase i (j ∷ q) h = ground (arith, length-erase i q)

pub member-erase_ne : (i j : ℕ) (q : List ℕ) → i ≢ j → member j (erase i q) ≡ member j q
unfolding erase
member-erase_ne i j [] ne = refl
member-erase_ne i j (k ∷ q) ne = ground (arith, member-erase_ne i j q)

pub member-erase_self : (i : ℕ) (q : List ℕ) → Distinct q → member i (erase i q) ≡ false
unfolding erase
member-erase_self i [] d = refl
member-erase_self i (k ∷ q) d = ground (arith, member-erase_self i q)

pub erase-Distinct : (i : ℕ) (q : List ℕ) → Distinct q → Distinct (erase i q)
unfolding erase
erase-Distinct i [] d = tt
erase-Distinct i (k ∷ q) d = ground (arith, erase-Distinct i q, member-erase_ne i k q)

pub erase-Below : (n i : ℕ) (q : List ℕ) → Below n q → Below n (erase i q)
unfolding erase
erase-Below n i [] b = tt
erase-Below n i (k ∷ q) b = ground (arith, erase-Below n i q)

pub member-Below : (n i : ℕ) (q : List ℕ) → Below n q → member i q ≡ true → i < n
member-Below n i [] b h = cc
member-Below n i (k ∷ q) b h = ground (arith, member-Below n i q)

Below-pred : (n : ℕ) (q : List ℕ) → Below (suc n) q → member n q ≡ false → Below n q
Below-pred n [] b h = tt
Below-pred n (k ∷ q) b h = ground (arith, Below-pred n q)

-- Distinct threads below `n` are at most `n`.
pub length-le_of_Below : (n : ℕ) (q : List ℕ) → Distinct q → Below n q → length q ≤ n
length-le_of_Below zero [] d b = omega arith
length-le_of_Below zero (k ∷ q) d b = absurd (omega arith)
length-le_of_Below (suc n) q d b = elim (Bool-cases (member n q)) [
  | inl there ↦ omega (
    arith,
    length-erase n q there,
    length-le_of_Below n (erase n q) (erase-Distinct n q d)
        (Below-pred n (erase n q) (erase-Below (suc n) n q b) (member-erase_self n q d)),
  )
  | inr away ↦ omega (arith, length-le_of_Below n q d (Below-pred n q b away))
]

pub member-append : (i j : ℕ) (q : List ℕ) → member i (q ++ j ∷ []) ≡ (member i q || i == j)
member-append i j [] = ground arith
member-append i j (k ∷ q) = ground (arith, member-append i j q)

pub append-Distinct :
    (i : ℕ) (q : List ℕ) → Distinct q → member i q ≡ false → Distinct (q ++ i ∷ [])
append-Distinct i [] d h = (refl, tt)
append-Distinct i (k ∷ q) d h = ground (arith, append-Distinct i q, member-append k i q)

pub append-Below : (n i : ℕ) (q : List ℕ) → Below n q → i < n → Below n (q ++ i ∷ [])
append-Below n i [] b h = (h, tt)
append-Below n i (k ∷ q) b h = (b.0, append-Below n i q b.1 h)
