-- ===== src/Controller/Packet.antt =====
-- The packet of the planned path: PlannedPathSender of frenet_planner
-- (frenet_planner/src/udp_network/sender/planned_path_sender.cpp) and PlannedPathReceiver of
-- mpc_controller (mpc_controller/src/udp_network/receiver/planned_path_receiver.cpp). A byte is a number.
-- The socket and the lock of the received path are left out.
pub mod Words
pub mod RoundTrip
use mpc_ws.Prelude.{
  subst, range_from, Mem-filter, ℕ, zero, suc, ◌≡◌, refl, sym, ap, ◌∙◌, ◌≢◌, ◌↔◌, ◌⊎◌, inl, inr,
  Bool, true, false, not, ◌&&◌, ◌||◌, Option, none, some, List, [], ◌∷◌, ◌++◌, map, arith, ltb, leb,
  ◌==◌, if◌then◌else◌, Bool-cases, Option-cases, is_some, true≢false, &&_split, length, get_elem?,
  get_or, last_or, head_or, drop, take, All, Any, length-map, All-map, All-of, iota, length-iota,
  filter, Mem, filter_map, Whenever, Mem-filter_map, All-filter_map, Any-map, is_empty, concat_map,
  Mem-append, Mem-map, Mem-concat_map, Any-Mem, All-Mem,
}
use mpc_ws.Double.{
  Double, ◌+◌, ◌-◌, ◌*◌, ◌/◌, ◌<◌, ◌≤◌, ◌>◌, ◌≥◌, neg, abs, decimal, num, max, min, clamp,
}
use mpc_ws.Double.Laws.{
  IsOrdered, IsExact, IsNumber, min_le_left, min_le_right, le_max_left, le_max_right, clamp_bounds,
  clip_bounds, exact_limit,
}
use mpc_ws.Prelude.Int.{
  ℤ, pos, negsuc, minus_one, is_negative, ◌==ℤ◌, ==ℤ_iff, ltb_ℤ, leb_ℤ, ◌+ℤ◌, sub_ℕ, pos_part,
  neg_part,
}
use mpc_ws.Controller.Types.{PlannedPath, at}
use mpc_ws.Planner.Node.{VehicleState}
use mpc_ws.Planner.Types.{CartesianPath}
use Prim.Native.Nat

-- The bytes of a float and of an int32_t in memory, which the program copies as they are.
pub record Memory (R : Type 0) : Type 0 where
  -- `static_cast<float>` of a double, and its bytes.
  pub float_bytes : R → List ℕ
  pub read_float : List ℕ → R
  pub int_bytes : ℕ → List ℕ
  pub read_int : List ℕ → ℤ

-- "#FrenetPlanD$"
unfoldable pub header : List ℕ
header = 35 ∷ 70 ∷ 114 ∷ 101 ∷ 110 ∷ 101 ∷ 116 ∷ 80 ∷ 108 ∷ 97 ∷ 110 ∷ 68 ∷ 36 ∷ []

abbrev pub tail : List ℕ
tail = 13 ∷ 10 ∷ []

abbrev pub max_path_samples : ℕ
max_path_samples = 32

abbrev pub payload_offset : ℕ
payload_offset = 29

-- The offset of a sample: `kSamplesOffset + i * kSlotSize`.
abbrev pub slot_offset : ℕ → ℕ
slot_offset i = Nat.◌+◌ 69 (Nat.◌*◌ i 24)

abbrev pub min_packet_size : ℕ
min_packet_size = slot_offset max_path_samples

-- `memcmp` is 0.
unfoldable pub same_bytes : List ℕ → List ℕ → Bool
same_bytes [] ys = true
same_bytes (x ∷ xs) [] = false
same_bytes (x ∷ xs) (y ∷ ys) = x == y && same_bytes xs ys

-- The four bytes at an offset.
unfoldable pub read_at : List ℕ → ℕ → List ℕ
read_at raw offset = take 4 (drop offset raw)

-- The number of samples that the receiver reads for a count in the packet.
abbrev pub received_count : ℤ → ℕ
received_count (pos n) = if ltb 0 n && leb n max_path_samples then n else 0
received_count (negsuc n) = 0

module _ {R : Type 0} ⦃d : Double R⦄ (mem : Memory R) where
  open mem use {float_bytes, read_float, int_bytes, read_int}

  -- The number of samples that are sent.
  abbrev pub sent_count : CartesianPath R → ℕ
  sent_count cp = if ltb max_path_samples (length cp.x) then max_path_samples else length cp.x

  -- The words of a slot: a sample, or zeros behind the last one.
  unfoldable pub slot : CartesianPath R → ℕ → ℕ → List (List ℕ)
  slot cp count i =
      let word = λ (xs : List R). float_bytes (if ltb i count then at xs i else num 0) in
      word cp.x ∷ word cp.y ∷ word cp.yaw ∷ word cp.kappa ∷ word cp.v ∷ word cp.a ∷ []

  -- The words before the slots: the length, the auxiliary data, the times and offsets, the vehicle and
  -- the count.
  unfoldable pub front_words : R → R → R → VehicleState R → ℕ → List (List ℕ)
  front_words dt offset rate ego count =
      int_bytes 0
      ∷ int_bytes 0
      ∷ int_bytes 0
      ∷ int_bytes 0
      ∷ float_bytes dt
      ∷ float_bytes offset
      ∷ float_bytes rate
      ∷ float_bytes ego.x
      ∷ float_bytes ego.y
      ∷ float_bytes ego.yaw
      ∷ float_bytes ego.v
      ∷ float_bytes ego.steer
      ∷ float_bytes ego.accel
      ∷ int_bytes count
      ∷ []

  -- PlannedPathSender::Send: the bytes that are sent.
  unfoldable pub send : CartesianPath R → R → R → R → VehicleState R → List ℕ
  unfolding concat_map
  send cp dt offset rate ego =
      let count = sent_count cp in
      let words =
        front_words dt offset rate ego count
        ++ concat_map (slot cp count) (iota max_path_samples) in
      header ++ (concat_map (λ w. w) words ++ tail)

  -- A column of the samples: the floats at a place of the first n slots.
  unfoldable pub read_column : List ℕ → ℕ → ℕ → List R
  read_column raw n place =
      map (λ i. read_float (read_at raw (Nat.◌+◌ (slot_offset i) place))) (iota n)

  -- PlannedPathReceiver::parse_data: the path that is kept, if the packet is one.
  unfoldable pub parse_data : List ℕ → Option (PlannedPath R)
  unfolding read_column
  parse_data raw =
      let float_at = λ (place : ℕ). read_float (read_at raw (Nat.◌+◌ payload_offset place)) in
      let n = received_count (read_int (read_at raw (Nat.◌+◌ payload_offset 36))) in
      if ltb (length raw) min_packet_size
      then none
      else if not (same_bytes (take (length header) raw) header)
      then none
      else some (record {
        x = read_column raw n 0;
        y = read_column raw n 4;
        yaw = read_column raw n 8;
        kappa = read_column raw n 12;
        v = read_column raw n 16;
        a = read_column raw n 20;
        dt = float_at 0;
        d = float_at 4;
        d_dot = float_at 8;
        ego_x = float_at 12;
        ego_y = float_at 16;
        ego_yaw = float_at 20;
        ego_v = float_at 24;
        ego_steer = float_at 28;
        ego_accel = float_at 32;
      })
