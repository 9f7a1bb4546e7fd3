-- ===== src/Controller/Packet/Words.antt =====
-- A buffer of words of four bytes: its length, and what is read at a word's place.
use mpc_ws.Prelude.{
  range_from, ℕ, zero, suc, ◌≡◌, refl, sym, ap, ◌∙◌, true, List, [], ◌∷◌, ◌++◌, arith, ltb, length,
  get_or, drop, take, All, concat_map,
}
use Prim.Native.Nat
use mpc_ws.Prelude.{
  range_from, ℕ, zero, suc, ◌≡◌, refl, sym, ap, ◌∙◌, true, List, [], ◌∷◌, ◌++◌, arith, ltb, length,
  get_or, drop, take, All, concat_map,
}
use mathlib.Core.List.{append_assoc}

module _ {A : Type 0} where
  pub take-append : (xs ys : List A) → take (length xs) (xs ++ ys) ≡ xs
  take-append [] ys = refl
  take-append (x ∷ xs) ys = ap (λ zs. x ∷ zs) (take-append xs ys)

  pub drop-append : (xs ys : List A) (m : ℕ) → drop (Nat.◌+◌ (length xs) m) (xs ++ ys) ≡ drop m ys
  drop-append [] ys m = let e : Nat.◌+◌ 0 m ≡ m = omega arith in ap (λ k. drop k ys) e
  drop-append (x ∷ xs) ys m =
      let e : Nat.◌+◌ (suc (length xs)) m ≡ suc (Nat.◌+◌ (length xs) m) = omega arith in
      ap (λ k. drop k (x ∷ (xs ++ ys))) e ∙ drop-append xs ys m

  pub length-append : (xs ys : List A) → length (xs ++ ys) ≡ Nat.◌+◌ (length xs) (length ys)
  length-append [] ys = omega arith
  length-append (x ∷ xs) ys = omega (arith, length-append xs ys)

  pub get_or-append_left :
      (a : A) (xs ys : List A) (k : ℕ)
      → ltb k (length xs) ≡ true
      → get_or a (xs ++ ys) k ≡ get_or a xs k
  get_or-append_left a [] ys k h = ground arith
  get_or-append_left a (x ∷ xs) ys zero h = refl
  get_or-append_left a (x ∷ xs) ys (suc k) h = get_or-append_left a xs ys k (ground arith)

  pub get_or-append_right :
      (a : A) (xs ys : List A) (k : ℕ) → get_or a (xs ++ ys) (Nat.◌+◌ (length xs) k) ≡ get_or a ys k
  get_or-append_right a [] ys k = let e : Nat.◌+◌ 0 k ≡ k = omega arith in ap (get_or a ys) e
  get_or-append_right a (x ∷ xs) ys k =
      let e : Nat.◌+◌ (suc (length xs)) k ≡ suc (Nat.◌+◌ (length xs) k) = omega arith in
      ap (get_or a (x ∷ (xs ++ ys))) e ∙ get_or-append_right a xs ys k

  -- Lists of six, one after another.
  pub get_or-concat_map :
      (a : A) (f : ℕ → List A)
      → ((i : ℕ) → length (f i) ≡ 6)
      → (s n i j : ℕ) → ltb i n ≡ true
      → ltb j 6 ≡ true
      → get_or a (concat_map f (range_from s n)) (Nat.◌+◌ (Nat.◌*◌ 6 i) j)
        ≡ get_or a (f (Nat.◌+◌ s i)) j
  unfolding concat_map
  get_or-concat_map a f six s zero i j h l = ground arith
  get_or-concat_map a f six s (suc n) zero j h l =
      let rest = concat_map f (range_from (suc s) n) in
      let e : Nat.◌+◌ (Nat.◌*◌ 6 0) j ≡ j = omega arith in
      let e' : s ≡ Nat.◌+◌ s 0 = omega arith in
      ap (get_or a (f s ++ rest)) e
      ∙ get_or-append_left a (f s) rest j (ground (arith, six s))
      ∙ ap (λ k. get_or a (f k) j) e'
  get_or-concat_map a f six s (suc n) (suc i) j h l =
      let rest = concat_map f (range_from (suc s) n) in
      let e : Nat.◌+◌ (Nat.◌*◌ 6 (suc i)) j ≡ Nat.◌+◌ (length (f s)) (Nat.◌+◌ (Nat.◌*◌ 6 i) j) =
        omega (arith, six s) in
      let e' : Nat.◌+◌ (suc s) i ≡ Nat.◌+◌ s (suc i) = omega arith in
      ap (get_or a (f s ++ rest)) e
      ∙ get_or-append_right a (f s) rest (Nat.◌+◌ (Nat.◌*◌ 6 i) j)
      ∙ get_or-concat_map a f six (suc s) n i j (ground arith) l
      ∙ ap (λ k. get_or a (f k) j) e'

  pub length-concat_map_six :
      (f : ℕ → List A)
      → ((i : ℕ) → length (f i) ≡ 6)
      → (is : List ℕ) → length (concat_map f is) ≡ Nat.◌*◌ 6 (length is)
  unfolding concat_map
  length-concat_map_six f six [] = refl
  length-concat_map_six f six (i ∷ is) =
      omega (arith, length-append (f i) (concat_map f is), six i, length-concat_map_six f six is)

pub All-append :
    {A : Type 0} (P : A → Type 0) (xs ys : List A) → All P xs → All P ys → All P (xs ++ ys)
All-append P [] ys p q = q
All-append P (x ∷ xs) ys (h, p) q = (h, All-append P xs ys p q)

pub All-concat_map :
    {A B : Type 0} (P : B → Type 0) (f : A → List B)
    → ((a : A) → All P (f a))
    → (xs : List A) → All P (concat_map f xs)
unfolding concat_map
All-concat_map P f h [] = tt
All-concat_map P f h (x ∷ xs) = All-append P (f x) (concat_map f xs) (h x) (All-concat_map P f h xs)

-- The buffer of words.
abbrev pub flat : List (List ℕ) → List ℕ
flat = concat_map (λ w. w)

abbrev pub IsWord : List ℕ → Type 0
IsWord w = length w ≡ 4

pub length-flat : (ws : List (List ℕ)) → All IsWord ws → length (flat ws) ≡ Nat.◌*◌ 4 (length ws)
unfolding concat_map
length-flat [] h = refl
length-flat (w ∷ ws) (e, h) = omega (arith, length-append w (flat ws), e, length-flat ws h)

-- Four bytes at a word's place are the word.
pub read_word :
    (ws : List (List ℕ)) (rest : List ℕ) (k : ℕ)
    → All IsWord ws
    → ltb k (length ws) ≡ true
    → take 4 (drop (Nat.◌*◌ 4 k) (flat ws ++ rest)) ≡ get_or [] ws k
unfolding concat_map
read_word [] rest k h l = ground arith
read_word (w ∷ ws) rest zero (e, h) l =
    ap (take 4) (append_assoc w (flat ws) rest)
    ∙ ap (λ n. take n (w ++ (flat ws ++ rest))) (sym e)
    ∙ take-append w (flat ws ++ rest)
read_word (w ∷ ws) rest (suc k) (e, h) l =
    let n : Nat.◌*◌ 4 (suc k) ≡ Nat.◌+◌ (length w) (Nat.◌*◌ 4 k) = omega (arith, e) in
    ap (λ bytes. take 4 (drop (Nat.◌*◌ 4 (suc k)) bytes)) (append_assoc w (flat ws) rest)
    ∙ ap (λ m. take 4 (drop m (w ++ (flat ws ++ rest)))) n
    ∙ ap (take 4) (drop-append w (flat ws ++ rest) (Nat.◌*◌ 4 k))
    ∙ read_word ws rest k h (ground arith)
