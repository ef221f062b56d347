-- ===== src/Prelude/Lists.antt =====
-- Lists measured and cut by native numbers, under the library's names, and predicates on lists.
use Prim.Native.Nat.{ℕ, zero, suc, ◌≤◌, ◌<◌}
use mathlib.Core.Path.{◌≡◌, refl, sym, ap, subst}
use mathlib.Core.Logic.{◌⊎◌, inl, inr}
use mathlib.Core.Bool.{Bool, true, false, not, ◌&&◌, ◌||◌}
use mathlib.Core.List.{List, [], ◌∷◌, ◌++◌, map, Memᴰ}
use native.Mathlib.Omega.{arith}
use lakshmana_core.Prelude.Tests.{if◌then◌else◌, Bool-cases}

module _ {ℓ} {A : Type ℓ} where
  abbrev pub length : List A → ℕ
  length [] = 0
  length (x ∷ xs) = suc (length xs)

  abbrev pub take : ℕ → List A → List A
  take zero xs = []
  take (suc n) [] = []
  take (suc n) (x ∷ xs) = x ∷ take n xs

  abbrev pub drop : ℕ → List A → List A
  drop zero xs = xs
  drop (suc n) [] = []
  drop (suc n) (x ∷ xs) = drop n xs

  -- `[x for x in xs if p(x)]`
  abbrev pub select : (A → Bool) → List A → List A
  select p [] = []
  select p (x ∷ xs) = let rest = select p xs in if p x then x ∷ rest else rest

  -- `any(p(x) for x in xs)`
  abbrev pub any : (A → Bool) → List A → Bool
  any p [] = false
  any p (x ∷ xs) = p x || any p xs

  -- `all(p(x) for x in xs)`
  abbrev pub all : (A → Bool) → List A → Bool
  all p [] = true
  all p (x ∷ xs) = p x && all p xs

  pub take-nil : (n : ℕ) → take n [] ≡ []
  take-nil zero = refl
  take-nil (suc n) = refl

  pub length-take-le : (n : ℕ) (xs : List A) → length (take n xs) ≤ n
  length-take-le zero xs = omega arith
  length-take-le (suc n) [] = omega arith
  length-take-le (suc n) (x ∷ xs) = omega (arith, length-take-le n xs)

-- A predicate that holds of every element.
abbrev pub All {ℓ κ} : {A : Type ℓ} → (A → Type κ) → List A → Type κ
All P [] = Unit
All P (x ∷ xs) = P x × All P xs

module _ {ℓ κ} {A : Type ℓ} (P : A → Type κ) where
  pub All-take : (n : ℕ) (xs : List A) → All P xs → All P (take n xs)
  All-take zero xs h = tt
  All-take (suc n) [] h = tt
  All-take (suc n) (x ∷ xs) h = (h.0, All-take n xs h.1)

  pub All-drop : (n : ℕ) (xs : List A) → All P xs → All P (drop n xs)
  All-drop zero xs h = h
  All-drop (suc n) [] h = tt
  All-drop (suc n) (x ∷ xs) h = All-drop n xs h.1

  pub All-take_drop : (n : ℕ) (xs : List A) → All P (take n xs) → All P (drop n xs) → All P xs
  All-take_drop zero xs h k = k
  All-take_drop (suc n) [] h k = tt
  All-take_drop (suc n) (x ∷ xs) h k = (h.0, All-take_drop n xs h.1 k)

  pub All-append : (xs ys : List A) → All P xs → All P ys → All P (xs ++ ys)
  All-append [] ys h k = k
  All-append (x ∷ xs) ys h k = (h.0, All-append xs ys h.1 k)

module _ {ℓ κ ι} {A : Type ℓ} (P : A → Type κ) (Q : A → Type ι) where
  pub All-map : (xs : List A) → ((a : A) → P a → Q a) → All P xs → All Q xs
  All-map [] f h = tt
  All-map (x ∷ xs) f h = (f x h.0, All-map xs f h.1)

  pub All-zip : (xs : List A) → All P xs → All Q xs → All (λ a. P a × Q a) xs
  All-zip [] h k = tt
  All-zip (x ∷ xs) h k = ((h.0, k.0), All-zip xs h.1 k.1)

-- Selecting by a test keeps what holds of all, and what the test says.
pub All-select {ℓ κ ι} :
    {A : Type ℓ} (P : A → Type κ) (Q : A → Type ι) (p : A → Bool) (xs : List A)
    → ((a : A) → p a ≡ true → P a → Q a)
    → All P xs
    → All Q (select p xs)
All-select P Q p [] f h = tt
All-select P Q p (x ∷ xs) f h = elim (Bool-cases (p x)) [
  | inl e ↦ rw e (f x e h.0, All-select P Q p xs f h.1)
  | inr e ↦ rw e (All-select P Q p xs f h.1)
]

pub take-append-drop {ℓ} : {A : Type ℓ} → (n : ℕ) (xs : List A) → take n xs ++ drop n xs ≡ xs
take-append-drop zero xs = refl
take-append-drop (suc n) [] = refl
take-append-drop (suc n) (x ∷ xs) = ap (λ t. x ∷ t) (take-append-drop n xs)

pub length-drop-le {ℓ} : {A : Type ℓ} → (n : ℕ) (xs : List A) → length (drop n xs) ≤ length xs
length-drop-le zero xs = omega arith
length-drop-le (suc n) [] = omega arith
length-drop-le (suc n) (x ∷ xs) = let h = length-drop-le n xs in omega arith

-- An element that passes the test is selected.
pub mem-select {ℓ} :
    {A : Type ℓ} (p : A → Bool) {a : A} {xs : List A}
    → p a ≡ true
    → Memᴰ a xs
    → Memᴰ a (select p xs)
mem-select p h (Memᴰ.head {x = x} {xs = xs} e) =
    let h' : p x ≡ true = rw (← e) h in rw h' (Memᴰ.head e)
mem-select p h (Memᴰ.tail {x = x} {xs = xs} m) = elim (Bool-cases (p x)) [
  | inl e ↦ rw e (Memᴰ.tail (mem-select p h m))
  | inr e ↦ rw e (mem-select p h m)
]

pub mem-any {ℓ} :
    {A : Type ℓ} (p : A → Bool) {a : A} {xs : List A} → p a ≡ true → Memᴰ a xs → any p xs ≡ true
mem-any p h (Memᴰ.head {x = x} e) = let h' : p x ≡ true = rw (← e) h in rw h' refl
mem-any p h (Memᴰ.tail {x = x} m) = let t = mem-any p h m in ground arith

pub mem-map {ℓ κ} :
    {A : Type ℓ} {B : Type κ} (f : A → B) {a : A} {xs : List A} → Memᴰ a xs → Memᴰ (f a) (map f xs)
mem-map f (Memᴰ.head e) = Memᴰ.head (ap f e)
mem-map f (Memᴰ.tail m) = Memᴰ.tail (mem-map f m)

pub List-cases {ℓ} :
    {A : Type ℓ} (xs : List A) → (xs ≡ []) ⊎ ((a : A) × (rest : List A) × (xs ≡ a ∷ rest))
List-cases [] = inl refl
List-cases (x ∷ xs) = inr (x, xs, refl)

pub length-map {ℓ κ} :
    {A : Type ℓ} {B : Type κ} (f : A → B) (xs : List A) → length (map f xs) ≡ length xs
length-map f [] = refl
length-map f (x ∷ xs) = ap suc (length-map f xs)

pub length-select_le {ℓ} :
    {A : Type ℓ} (p : A → Bool) (xs : List A) → length (select p xs) ≤ length xs
length-select_le p [] = omega arith
length-select_le p (x ∷ xs) = let h = length-select_le p xs in ground arith

-- A selection that leaves out an element is shorter.
pub length-select_lt {ℓ} :
    {A : Type ℓ} (p : A → Bool) {a : A} {xs : List A}
    → p a ≡ false
    → Memᴰ a xs
    → length (select p xs) < length xs
length-select_lt p h (Memᴰ.head {x = x} {xs = xs} e) =
    let h' : p x ≡ false = rw (← e) h in let l = length-select_le p xs in rw h' (omega (arith, l))
length-select_lt p h (Memᴰ.tail {x = x} {xs = xs} m) =
    let l = length-select_lt p h m in ground arith

pub All-mem {ℓ κ} : {A : Type ℓ} (P : A → Type κ) {a : A} {xs : List A} → All P xs → Memᴰ a xs → P a
All-mem P h (Memᴰ.head e) = subst P (sym e) h.0
All-mem P h (Memᴰ.tail m) = All-mem P h.1 m

-- A predicate holds of the values of a function exactly when its composite holds of the arguments.
pub All-values {ℓ κ ι} :
    {A : Type ℓ} {B : Type κ} (f : A → B) (P : B → Type ι) (xs : List A)
    → All (λ a. P (f a)) xs
    → All P (map f xs)
All-values f P [] h = tt
All-values f P (x ∷ xs) h = (h.0, All-values f P xs h.1)

pub All-arguments {ℓ κ ι} :
    {A : Type ℓ} {B : Type κ} (f : A → B) (P : B → Type ι) (xs : List A)
    → All P (map f xs)
    → All (λ a. P (f a)) xs
All-arguments f P [] h = tt
All-arguments f P (x ∷ xs) h = (h.0, All-arguments f P xs h.1)

pub All-any {ℓ κ} : {A : Type ℓ} (P : A → Type κ) → ((a : A) → P a) → (xs : List A) → All P xs
All-any P f [] = tt
All-any P f (x ∷ xs) = (f x, All-any P f xs)

-- The elements that pass a test and those that do not are all elements.
pub All-partition {ℓ κ} :
    {A : Type ℓ} (P : A → Type κ) (p : A → Bool) (xs : List A)
    → All P (select (λ a. not (p a)) xs)
    → All P (select p xs)
    → All P xs
All-partition P p [] h k = tt
All-partition P p (x ∷ xs) h k = elim (Bool-cases (p x)) [
  | inl e ↦
      let k' : P x × All P (select p xs) = rw e at k in
      (k'.0, All-partition P p xs (rw e at h) k'.1)
  | inr e ↦
      let h' : P x × All P (select (λ a. not (p a)) xs) = rw e at h in
      (h'.0, All-partition P p xs h'.1 (rw e at k))
]
