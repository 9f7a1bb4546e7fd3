-- ===== src/Prelude/Lists.antt =====
-- Lists over the native numbers, and predicates on their elements.
use Prim.Native.Nat.{ℕ, zero, suc}
use mathlib.Core.Path.{◌≡◌, refl, ap, subst}
use mathlib.Core.Logic.{◌⊎◌, inl, inr}
use mathlib.Core.Bool.{Bool, true, false}
use mathlib.Core.Option.{Option, none, some}
use mpc_ws.Prelude.Tests.{if◌then◌else◌}
use mathlib.Core.List.{List, [], ◌∷◌, ◌++◌, map}
use native.Mathlib.Omega.{arith}

module _ {ℓ} {A : Type ℓ} where
  abbrev pub length : List A → ℕ
  length [] = 0
  length (x ∷ xs) = suc (length xs)

  abbrev pub get_elem? : List A → ℕ → Option A
  get_elem? [] i = none
  get_elem? (x ∷ xs) zero = some x
  get_elem? (x ∷ xs) (suc i) = get_elem? xs i

  -- The element at a position, or a stand-in where the source would read out of bounds.
  abbrev pub get_or : A → List A → ℕ → A
  get_or a [] i = a
  get_or a (x ∷ xs) zero = x
  get_or a (x ∷ xs) (suc i) = get_or a xs i

  abbrev pub last_or : A → List A → A
  last_or a [] = a
  last_or a (x ∷ xs) = last_or x xs

  abbrev pub head_or : A → List A → A
  head_or a [] = a
  head_or a (x ∷ xs) = x

  abbrev pub drop : ℕ → List A → List A
  drop zero xs = xs
  drop (suc n) [] = []
  drop (suc n) (x ∷ xs) = drop n xs

  abbrev pub take : ℕ → List A → List A
  take zero xs = []
  take (suc n) [] = []
  take (suc n) (x ∷ xs) = x ∷ take n xs

  -- A predicate that holds of every element.
  abbrev pub All {κ} : (A → Type κ) → List A → Type κ
  All P [] = Unit
  All P (x ∷ xs) = P x × All P xs

-- A predicate that holds of some element, with the element kept.
abbrev pub Any {ℓ} : {A : Type ℓ} → (A → Type 0) → List A → Type 0
Any P [] = ⊥
Any P (x ∷ xs) = P x ⊎ Any P xs

pub length-map {ℓ κ} :
    {A : Type ℓ} {B : Type κ} (f : A → B) (xs : List A) → length (map f xs) ≡ length xs
length-map f [] = refl
length-map f (x ∷ xs) = omega (arith, length-map f xs)

pub All-map {ℓ κ} :
    {A : Type ℓ} (P Q : A → Type κ) (xs : List A) → ((x : A) → P x → Q x) → All P xs → All Q xs
All-map P Q [] f h = tt
All-map P Q (x ∷ xs) f (p, ps) = (f x p, All-map P Q xs f ps)

pub All-of {ℓ κ} : {A : Type ℓ} (P : A → Type κ) (xs : List A) → ((x : A) → P x) → All P xs
All-of P [] f = tt
All-of P (x ∷ xs) f = (f x, All-of P xs f)

-- start, start + 1, …: `count` numbers.
abbrev pub range_from : ℕ → ℕ → List ℕ
range_from start zero = []
range_from start (suc count) = start ∷ range_from (suc start) count

-- The indices of a `for (i = 0; i < n; ++i)` loop.
abbrev pub iota : ℕ → List ℕ
iota n = range_from 0 n

pub length-range_from : (start n : ℕ) → length (range_from start n) ≡ n
length-range_from start zero = refl
length-range_from start (suc n) = omega (arith, length-range_from (suc start) n)

pub length-iota : (n : ℕ) → length (iota n) ≡ n
length-iota n = length-range_from 0 n

-- The elements that pass a test, in order.
unfoldable pub filter {ℓ} : {A : Type ℓ} → (A → Bool) → List A → List A
filter p [] = []
filter p (x ∷ xs) = let rest = filter p xs in if p x then x ∷ rest else rest

-- x stands in the list.
abbrev pub Mem : {A : Type 0} → A → List A → Type 0
Mem x xs = Any (λ y. y ≡ x) xs

-- The results of a partial function, in order.
unfoldable pub filter_map : {A B : Type 0} → (A → Option B) → List A → List B
filter_map f [] = []
filter_map f (x ∷ xs) = elim (f x) [ none ↦ filter_map f xs | some y ↦ y ∷ filter_map f xs ]

-- A predicate that holds of a value, if there is one.
abbrev pub Whenever : {B : Type 0} → (B → Type 0) → Option B → Type 0
Whenever P none = Unit
Whenever P (some y) = P y

pub Mem-filter_map :
    {A B : Type 0} (f : A → Option B) (xs : List A) (y : B)
    → Mem y (filter_map f xs)
    → Any (λ x. f x ≡ some y) xs
unfolding filter_map
Mem-filter_map f [] y m = m
Mem-filter_map f (x ∷ xs) y m = ground (arith, Mem-filter_map f xs y)

pub All-filter_map :
    {A B : Type 0} (f : A → Option B) (P : B → Type 0) (xs : List A)
    → All P (filter_map f xs)
    → All (λ x. Whenever P (f x)) xs
unfolding filter_map
All-filter_map f P [] h = tt
All-filter_map f P (x ∷ xs) h = ground (arith, All-filter_map f P xs)

pub Any-map :
    {A : Type 0} (P Q : A → Type 0) (xs : List A) → ((x : A) → P x → Q x) → Any P xs → Any Q xs
Any-map P Q [] f h = h
Any-map P Q (x ∷ xs) f (inl p) = inl (f x p)
Any-map P Q (x ∷ xs) f (inr h) = inr (Any-map P Q xs f h)

-- What a filter drops fails its test.
pub Mem-filter :
    {A : Type 0} (p : A → Bool) (xs : List A) (x : A)
    → Mem x xs
    → Mem x (filter p xs) ⊎ (p x ≡ false)
unfolding filter
Mem-filter p [] x m = inl m
Mem-filter p (y ∷ xs) x (inl e) = ground (arith, ap p e)
Mem-filter p (y ∷ xs) x (inr m) = ground (arith, Mem-filter p xs x m)

abbrev pub is_empty {ℓ} : {A : Type ℓ} → List A → Bool
is_empty [] = true
is_empty (x ∷ xs) = false

-- The results of a nested loop that appends to one list.
unfoldable pub concat_map : {A B : Type 0} → (A → List B) → List A → List B
concat_map f [] = []
concat_map f (x ∷ xs) = f x ++ concat_map f xs

pub Mem-append : {A : Type 0} (xs ys : List A) (x : A) → Mem x (xs ++ ys) → Mem x xs ⊎ Mem x ys
Mem-append [] ys x m = inr m
Mem-append (y ∷ xs) ys x (inl e) = inl (inl e)
Mem-append (y ∷ xs) ys x (inr m) = ground (arith, Mem-append xs ys x m)

pub Mem-map :
    {A B : Type 0} (f : A → B) (xs : List A) (y : B)
    → Mem y (map f xs)
    → (x : A) × Mem x xs × (f x ≡ y)
Mem-map f [] y m = absurd m
Mem-map f (x ∷ xs) y (inl e) = (x, inl refl, e)
Mem-map f (x ∷ xs) y (inr m) = let (z, n, e) = Mem-map f xs y m in (z, inr n, e)

pub Mem-concat_map :
    {A B : Type 0} (f : A → List B) (xs : List A) (y : B)
    → Mem y (concat_map f xs)
    → (x : A) × Mem x xs × Mem y (f x)
unfolding concat_map
Mem-concat_map f [] y m = absurd m
Mem-concat_map f (x ∷ xs) y m = elim (Mem-append (f x) (concat_map f xs) y m) [
  | inl h ↦ (x, inl refl, h)
  | inr h ↦ let (z, n, e) = Mem-concat_map f xs y h in (z, inr n, e)
]

-- An element that a partial function takes to a result.
pub Any-Mem : {A : Type 0} (P : A → Type 0) (xs : List A) → Any P xs → (x : A) × Mem x xs × P x
Any-Mem P [] h = absurd h
Any-Mem P (x ∷ xs) (inl p) = (x, inl refl, p)
Any-Mem P (x ∷ xs) (inr h) = let (z, n, p) = Any-Mem P xs h in (z, inr n, p)

pub All-Mem : {A : Type 0} (P : A → Type 0) (xs : List A) (x : A) → All P xs → Mem x xs → P x
All-Mem P [] x h m = elim m [ ]
All-Mem P (y ∷ xs) x (p, ps) (inl e) = subst P e p
All-Mem P (y ∷ xs) x (p, ps) (inr m) = All-Mem P xs x ps m
