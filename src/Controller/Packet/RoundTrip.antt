-- ===== src/Controller/Packet/RoundTrip.antt =====
-- What the controller receives is what the planner sent, as floats.
use mpc_ws.Prelude.{
  subst, range_from, ℕ, zero, suc, ◌≡◌, refl, sym, ap, ◌∙◌, inl, inr, Bool, true, false, not,
  Option, none, some, List, [], ◌∷◌, ◌++◌, map, arith, ltb, leb, if◌then◌else◌, Bool-cases, length,
  get_or, drop, take, All, iota, concat_map,
}
use mpc_ws.Double.{Double, num}
use mpc_ws.Prelude.Int.{pos}
use mpc_ws.Controller.Packet.{
  Memory, front_words, header, max_path_samples, min_packet_size, parse_data, read_at, read_column,
  received_count, same_bytes, send, sent_count, slot, slot_offset, tail,
}
use mpc_ws.Controller.Packet.Words.{
  All-append, All-concat_map, IsWord, drop-append, flat, get_or-append_right, get_or-concat_map,
  length-append, length-concat_map_six, length-flat, read_word, take-append,
}
use mpc_ws.Controller.Types.{PlannedPath, at}
use mpc_ws.Planner.Node.{VehicleState}
use mpc_ws.Planner.Types.{CartesianPath}
use Prim.Native.Nat

-- What the copies of floats and integers to bytes and back do.
pub record IsMemory {R : Type 0} ⦃d : Double R⦄ (mem : Memory R) : Type 0 where
  pub float_size : (x : R) → length (mem.float_bytes x) ≡ 4
  pub int_size : (n : ℕ) → length (mem.int_bytes n) ≡ 4
  pub read_float_bytes : (x : R) → mem.read_float (mem.float_bytes x) ≡ d.to_float x
  pub read_int_bytes : (n : ℕ) → ltb n 2147483648 ≡ true → mem.read_int (mem.int_bytes n) ≡ pos n

take-all : {A : Type 0} (n : ℕ) (xs : List A) → leb (length xs) n ≡ true → take n xs ≡ xs
take-all zero [] h = refl
take-all zero (x ∷ xs) h = ground arith
take-all (suc n) [] h = refl
take-all (suc n) (x ∷ xs) h = ap (λ ys. x ∷ ys) (take-all n xs (ground arith))

accepted :
    {A : Type 0} (short known : Bool) (x y : Option A)
    → short ≡ false
    → known ≡ true
    → x ≡ y
    → (if short then none else if not known then none else x) ≡ y
accepted short known x y p q e = rw (p, q) e

map-range_from :
    {A : Type 0} (f g : ℕ → A) (s n : ℕ)
    → ((i : ℕ) → ltb i (Nat.◌+◌ s n) ≡ true → f i ≡ g i)
    → map f (range_from s n) ≡ map g (range_from s n)
map-range_from f g s zero h = refl
map-range_from f g s (suc n) h =
    ap (λ y. y ∷ map f (range_from (suc s) n)) (h s (ground arith))
    ∙ ap (λ ys. g s ∷ ys) (map-range_from f g (suc s) n (λ i l. h i (ground arith)))

map-range_from-suc :
    {A : Type 0} (f : ℕ → A) (s n : ℕ)
    → map f (range_from (suc s) n) ≡ map (λ i. f (suc i)) (range_from s n)
map-range_from-suc f s zero = refl
map-range_from-suc f s (suc n) = ap (λ ys. f (suc s) ∷ ys) (map-range_from-suc f (suc s) n)

lt_le : (a b c : ℕ) → ltb a b ≡ true → leb b c ≡ true → ltb a c ≡ true
lt_le a b c p q = ground arith

module _ {R : Type 0} ⦃d : Double R⦄ where
  -- The floats of the first n numbers of a list.
  map-take :
      (f : R → R) (xs : List R) (n : ℕ)
      → leb n (length xs) ≡ true
      → map (λ i. f (at xs i)) (iota n) ≡ map f (take n xs)
  map-take f xs zero h = refl
  map-take f [] (suc n) h = ground arith
  map-take f (x ∷ xs) (suc n) h =
      ap (λ ys. f x ∷ ys)
        (map-range_from-suc (λ i. f (at (x ∷ xs) i)) 0 n ∙ map-take f xs n (ground arith))

module _ {R : Type 0} ⦃d : Double R⦄ (mem : Memory R) (laws : IsMemory mem) (cp : CartesianPath R)
    (dt offset rate : R) (ego : VehicleState R) where
  open laws use {float_size, int_size, read_float_bytes, read_int_bytes}

  abbrev count : ℕ
  count = sent_count mem cp

  abbrev raw : List ℕ
  raw = send mem cp dt offset rate ego

  abbrev slots : List (List ℕ)
  slots = concat_map (slot mem cp count) (iota max_path_samples)

  abbrev words : List (List ℕ)
  words = front_words mem dt offset rate ego count ++ slots

  count-le : leb count 32 ≡ true
  count-le = ground arith

  slots-IsWord : (i : ℕ) → All IsWord (slot mem cp count i)
  unfolding slot
  slots-IsWord i = (
    float_size _,
    (float_size _, (float_size _, (float_size _, (float_size _, (float_size _, tt))))),
  )

  words-IsWord : All IsWord words
  unfolding front_words
  words-IsWord =
      All-append IsWord (front_words mem dt offset rate ego count) slots
        (
          int_size 0,
          (
            int_size 0,
            (
              int_size 0,
              (
                int_size 0,
                (
                  float_size _,
                  (
                    float_size _,
                    (
                      float_size _,
                      (
                        float_size _,
                        (
                          float_size _,
                          (
                            float_size _,
                            (float_size _, (float_size _, (float_size _, (int_size count, tt)))),
                          ),
                        ),
                      ),
                    ),
                  ),
                ),
              ),
            ),
          ),
        )
        (All-concat_map IsWord (slot mem cp count) slots-IsWord (iota max_path_samples))

  length-words : length words ≡ 206
  unfolding front_words slot
  length-words = omega (
    arith,
    length-append (front_words mem dt offset rate ego count) slots,
    length-concat_map_six (slot mem cp count) (λ i. refl) (iota max_path_samples),
  )

  send-words : raw ≡ header ++ (flat words ++ tail)
  unfolding send
  send-words = refl

  length-raw : length raw ≡ 839
  unfolding header
  length-raw = omega (
    arith,
    ap length send-words,
    length-append header (flat words ++ tail),
    length-append (flat words) tail,
    length-flat words words-IsWord,
    length-words,
  )

  -- The word at its place.
  read-word :
      (k : ℕ) → ltb k 206 ≡ true → read_at raw (Nat.◌+◌ 13 (Nat.◌*◌ 4 k)) ≡ get_or [] words k
  unfolding read_at header
  read-word k l =
      ap (λ bytes. take 4 (drop (Nat.◌+◌ 13 (Nat.◌*◌ 4 k)) bytes)) send-words
      ∙ ap (take 4) (drop-append header (flat words ++ tail) (Nat.◌*◌ 4 k))
      ∙ read_word words tail k words-IsWord (ground (arith, length-words))

  length-slot : (i : ℕ) → length (slot mem cp count i) ≡ 6
  unfolding slot
  length-slot i = refl

  get_or-slots : (k : ℕ) → get_or [] words (Nat.◌+◌ 14 k) ≡ get_or [] slots k
  unfolding front_words
  get_or-slots k = get_or-append_right [] (front_words mem dt offset rate ego count) slots k

  zero_add : (i : ℕ) → Nat.◌+◌ 0 i ≡ i
  zero_add i = omega arith

  -- The float in a slot: its place on the path.
  read-slot :
      (i p : ℕ)
      → ltb i 32 ≡ true
      → ltb p 6 ≡ true
      → read_at raw (Nat.◌+◌ (slot_offset i) (Nat.◌*◌ 4 p)) ≡ get_or [] (slot mem cp count i) p
  read-slot i p l m =
      let place : ℕ = Nat.◌+◌ (Nat.◌*◌ 6 i) p in
      let e : Nat.◌+◌ (slot_offset i) (Nat.◌*◌ 4 p) ≡ Nat.◌+◌ 13 (Nat.◌*◌ 4 (Nat.◌+◌ 14 place)) =
        omega arith in
      ap (read_at raw) e
      ∙ read-word (Nat.◌+◌ 14 place) (ground arith)
      ∙ get_or-slots place
      ∙ get_or-concat_map [] (slot mem cp count) length-slot 0 32 i p l m
      ∙ ap (λ k. get_or [] (slot mem cp count k) p) (zero_add i)

  below : (i : ℕ) → ltb i count ≡ true → ltb i 32 ≡ true
  below i l = lt_le i count 32 l count-le

  -- A column of the samples, if the place of its words in a slot is the place of a list in a sample.
  read_column-sent :
      (xs : List R) (p : ℕ)
      → ltb p 6 ≡ true
      → leb count (length xs) ≡ true
      → ((i : ℕ)
          → get_or [] (slot mem cp count i) p
            ≡ mem.float_bytes (if ltb i count then at xs i else num 0))
      → read_column mem raw count (Nat.◌*◌ 4 p) ≡ map d.to_float (take count xs)
  unfolding read_column
  read_column-sent xs p m enough column =
      map-range_from (λ i. mem.read_float (read_at raw (Nat.◌+◌ (slot_offset i) (Nat.◌*◌ 4 p))))
        (λ i. d.to_float (at xs i)) 0 count
        (λ i l.
          let inside : ltb i count ≡ true = subst (λ k. ltb i k ≡ true) (zero_add count) l in
          ap mem.read_float (
            read-slot i p (below i inside) m
            ∙ column i
            ∙ ap (λ b. mem.float_bytes (if b then at xs i else num 0)) inside)
          ∙ read_float_bytes (at xs i))
      ∙ map-take d.to_float xs count enough

  -- The lists of the path are of one length.
  pub record IsAligned : Type 0 where
    pub y : length cp.y ≡ length cp.x
    pub yaw : length cp.yaw ≡ length cp.x
    pub kappa : length cp.kappa ≡ length cp.x
    pub v : length cp.v ≡ length cp.x
    pub a : length cp.a ≡ length cp.x

  -- What arrives of the path: the first 32 samples and the vehicle, as floats.
  abbrev pub received : PlannedPath R
  received = record {
    x = map d.to_float (take 32 cp.x);
    y = map d.to_float (take 32 cp.y);
    yaw = map d.to_float (take 32 cp.yaw);
    kappa = map d.to_float (take 32 cp.kappa);
    v = map d.to_float (take 32 cp.v);
    a = map d.to_float (take 32 cp.a);
    dt = d.to_float dt;
    d = d.to_float offset;
    d_dot = d.to_float rate;
    ego_x = d.to_float ego.x;
    ego_y = d.to_float ego.y;
    ego_yaw = d.to_float ego.yaw;
    ego_v = d.to_float ego.v;
    ego_steer = d.to_float ego.steer;
    ego_accel = d.to_float ego.accel;
  }

  -- The float of the front at a word's place.
  read-front :
      (k : ℕ) (x : R)
      → ltb k 206 ≡ true
      → get_or [] words k ≡ mem.float_bytes x
      → mem.read_float (read_at raw (Nat.◌+◌ 13 (Nat.◌*◌ 4 k))) ≡ d.to_float x
  read-front k x l e = ap mem.read_float (read-word k l ∙ e) ∙ read_float_bytes x

  count-read : received_count (mem.read_int (read_at raw 65)) ≡ count
  unfolding front_words
  count-read =
      ap (λ w. received_count (mem.read_int w)) (read-word 13 refl)
      ∙ ap received_count (read_int_bytes count (ground (arith, count-le)))
      ∙ ground (arith, count-le)

  header-read : same_bytes (take (length header) raw) header ≡ true
  unfolding same_bytes header
  header-read =
      ap (λ bytes. same_bytes (take (length header) bytes) header) send-words
      ∙ ap (λ bytes. same_bytes bytes header) (take-append header (flat words ++ tail))

  -- The count is the number of samples, or 32.
  take-count :
      (xs : List R)
      → length xs ≡ length cp.x
      → (take count xs ≡ take 32 xs) × (leb count (length xs) ≡ true)
  take-count xs e = elim (Bool-cases (ltb 32 (length cp.x))) [
    | inl l ↦ rw l (refl, ground arith)
    | inr l ↦ rw l (
      ap (λ n. take n xs) (sym e)
          ∙ take-all (length xs) xs (ground arith)
          ∙ sym (take-all 32 xs (ground arith)),
      ground arith,
    )
  ]

  column-read :
      (xs : List R) (p : ℕ)
      → ltb p 6 ≡ true
      → length xs ≡ length cp.x
      → ((i : ℕ)
          → get_or [] (slot mem cp count i) p
            ≡ mem.float_bytes (if ltb i count then at xs i else num 0))
      → read_column mem raw (received_count (mem.read_int (read_at raw 65))) (Nat.◌*◌ 4 p)
        ≡ map d.to_float (take 32 xs)
  column-read xs p m e column =
      let (same, enough) = take-count xs e in
      ap (λ n. read_column mem raw n (Nat.◌*◌ 4 p)) count-read
      ∙ read_column-sent xs p m enough column
      ∙ ap (map d.to_float) same

  -- The packet of a path whose lists are of one length is accepted by the receiver, which keeps the
  -- first 32 samples of the path, the times and offsets and the vehicle, each number as a float.
  pub parse_data-send : IsAligned → parse_data mem raw ≡ some received
  unfolding parse_data front_words slot
  parse_data-send aligned =
      let x = column-read cp.x 0 refl refl (λ i. refl) in
      let y = column-read cp.y 1 refl aligned.y (λ i. refl) in
      let yaw = column-read cp.yaw 2 refl aligned.yaw (λ i. refl) in
      let kappa = column-read cp.kappa 3 refl aligned.kappa (λ i. refl) in
      let v = column-read cp.v 4 refl aligned.v (λ i. refl) in
      let a = column-read cp.a 5 refl aligned.a (λ i. refl) in
      accepted (ltb (length raw) min_packet_size) (same_bytes (take (length header) raw) header) _ _
        (ground (arith, length-raw)) header-read
        (λ i. some (record {
          x = x i;
          y = y i;
          yaw = yaw i;
          kappa = kappa i;
          v = v i;
          a = a i;
          dt = read-front 4 dt refl refl i;
          d = read-front 5 offset refl refl i;
          d_dot = read-front 6 rate refl refl i;
          ego_x = read-front 7 ego.x refl refl i;
          ego_y = read-front 8 ego.y refl refl i;
          ego_yaw = read-front 9 ego.yaw refl refl i;
          ego_v = read-front 10 ego.v refl refl i;
          ego_steer = read-front 11 ego.steer refl refl i;
          ego_accel = read-front 12 ego.accel refl refl i;
        }))
