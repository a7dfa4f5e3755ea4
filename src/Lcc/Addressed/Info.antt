-- ===== src/Lcc/Addressed/Info.antt =====
-- The node's information in frames.
use train_utils.Common.{
  ℕ, zero, suc, ◌+◌, ◌-◌, ◌*◌, ◌/◌, ◌%◌, ◌≤◌, ◌≡◌, refl, sym, ap, ap₂, ◌∙◌, arith, true, false,
  some, List, [], ◌∷◌, ◌++◌, ◌==◌, map, length, get_or, take, drop, take_all, replicate, write_from,
  length-write_from, take-write_from, take-write_before, length-take, length-drop, length-append,
  drop-append, append-nil, take-append-drop, bit_and, bit_or, shl, shr, u8,
}
use train_utils.Lcc.Frame.{
  CanFrame, set_lcb_variable_field, set_lcb_can_frame_type, set_flags_and_dest_alias,
}
use train_utils.Lcc.Frame.Fields.{Fields}
use train_utils.Lcc.Node.{Context, ok, empty_frame, write_each}
use train_utils.Lcc.Context.Alias.{all_written}
use train_utils.Lcc.Simple.{reaction}
use train_utils.Lcc.Addressed.{
  SimpleInfo, Protocols, with_end, info_data, info_frame, info_frames, handle_addressed,
}

-- The two bytes that address a frame, with its flag, and the bytes after them.
abbrev pub header : CanFrame → List ℕ
header f = take 2 f.bytes

abbrev pub payload : CanFrame → List ℕ
payload f = drop 2 (take f.can_len f.bytes)

abbrev pub payloads : List CanFrame → List ℕ
payloads [] = []
payloads (f ∷ fs) = payload f ++ payloads fs

abbrev pub addressed : ℕ → ℕ → List ℕ
addressed sender flag =
    u8 (bit_or (shl flag 4) (shr (bit_and sender 0xF00) 8)) ∷ bit_and sender 0xFF ∷ []

-- One frame.
record Carries (f : CanFrame) (head chunk : List ℕ) : Type 0 where
  room : length f.bytes ≡ 8
  front : header f ≡ head
  rest : payload f ≡ chunk

drop_front : (n : ℕ) (xs ys : List ℕ) → length xs ≡ n → drop n (xs ++ ys) ≡ ys
drop_front n xs ys h = ap (λ k. drop k (xs ++ ys)) (sym h) ∙ drop-append xs ys

info_frame-Carries :
    (c : Context) (sender flag : ℕ) (held : CanFrame) (chunk : List ℕ)
    → length held.bytes ≡ 8
    → length chunk ≤ 6
    → Carries (info_frame c sender flag held chunk) (addressed sender flag) chunk
unfolding info_frame set_flags_and_dest_alias set_lcb_can_frame_type set_lcb_variable_field
info_frame-Carries c sender flag held chunk h k =
    let head = addressed sender flag in
    let start = write_from held.bytes 0 head in
    let size = length-write_from held.bytes 0 head ∙ h in
    let first : take 2 start ≡ head = take-write_from held.bytes 0 head (omega (arith, h)) in
    record {
      room = length-write_from start 2 chunk ∙ size;
      front = take-write_before start 2 2 chunk (omega arith) ∙ first;
      rest =
          ap (drop 2) (take-write_from start 2 chunk (omega (arith, size)))
          ∙ drop_front 2 (take 2 start) chunk (ap length first);
    }

-- The frames after the first.
rest_lem :
    (c : Context) (sender len k x : ℕ) (held : CanFrame) (rest : List ℕ)
    → length held.bytes ≡ 8
    → 1 ≤ x
    → x + k ≡ len / 6
    → length rest + 6 * x ≡ len
    → (payloads (info_frames c sender len (suc k) x held rest) ≡ rest)
      × (map header (info_frames c sender len (suc k) x held rest)
          ≡ replicate k (addressed sender 3) ++ (addressed sender 2 ∷ []))
unfolding info_frames
rest_lem c sender len zero x held rest h hx n l =
    let nonzero : (x == 0) ≡ false = ground (arith, hx) in
    let last : (x == len / 6) ≡ true = ground (arith, n) in
    let whole : take (len % 6) rest ≡ rest = take_all (len % 6) rest (omega arith) in
    let f = info_frame-Carries c sender 2 held rest h (omega arith) in
    rw (nonzero, last, whole)
      (append-nil (payload (info_frame c sender 2 held rest)) ∙ f.rest, ap (λ l. l ∷ []) f.front)
rest_lem c sender len (suc k) x held rest h hx n l =
    let nonzero : (x == 0) ≡ false = ground (arith, hx) in
    let more : (x == len / 6) ≡ false = ground (arith, n) in
    let chunk = take 6 rest in
    let f = info_frame-Carries c sender 3 held chunk h (omega (arith, length-take 6 rest)) in
    let later =
      rest_lem c sender len k (x + 1) (info_frame c sender 3 held chunk) (drop 6 rest) f.room
        (omega arith) (omega arith) (omega (arith, length-drop 6 rest)) in
    rw (nonzero, more)
      (
        ap₂ (λ a b. a ++ b) f.rest later.0 ∙ take-append-drop 6 rest,
        ap₂ (λ a b. a ∷ b) f.front later.1,
      )

length-with_end : (s : List ℕ) → length (with_end s) ≡ length s + 1
unfolding with_end
length-with_end [] = omega arith
length-with_end (c ∷ cs) =
    let some_left : (length (c ∷ cs) == 0) ≡ false = ground arith in
    rw some_left (length-append (c ∷ cs) (0 ∷ []))

-- There are at least the two numbers and the ends of the six strings.
length-info_data : (i : SimpleInfo) → 8 ≤ length (info_data i)
unfolding info_data
length-info_data i =
    let names = (4 ∷ []) ++ with_end i.manufacturer_name ++ with_end i.model_name in
    let versions = names ++ with_end i.hw_version ++ with_end i.sw_version in
    omega (
      arith,
      length-append (versions ++ (2 ∷ []) ++ with_end i.node_name) (with_end i.node_description),
      length-append (versions ++ (2 ∷ [])) (with_end i.node_name),
      length-append versions (2 ∷ []),
      length-append (names ++ with_end i.hw_version) (with_end i.sw_version),
      length-append names (with_end i.hw_version),
      length-append ((4 ∷ []) ++ with_end i.manufacturer_name) (with_end i.model_name),
      length-append (4 ∷ []) (with_end i.manufacturer_name),
      length-with_end i.manufacturer_name,
      length-with_end i.model_name,
      length-with_end i.hw_version,
      length-with_end i.sw_version,
      length-with_end i.node_name,
      length-with_end i.node_description,
    )

taken :
    (c : Context) (p : Protocols) (i : SimpleInfo) (f : CanFrame) (sender : ℕ) (fs : List CanFrame)
    (write : CanFrame → ℕ)
    → Fields f.can_id 1 0xDE8 sender
    → bit_or (shl (get_or f.bytes 0 0) 8) (get_or f.bytes 1 0) ≡ c.node_alias
    → c.write_function ≡ some write
    → write_each write fs ≡ (0, fs)
    → info_frames c sender
        (length (info_data i))
        (length (info_data i) / 6 + 1)
        0
        empty_frame
        (info_data i)
      ≡ fs
    → handle_addressed c p i f ≡ reaction ok fs []
unfolding handle_addressed
taken c p i f sender fs write parts to w sent e =
    ground (arith, parts.source, parts.field_of, to, w, sent, e)

-- The answer to a request for the node's information, where the writes succeed, carries the version,
-- the four strings, the second version and the two strings, each with its 0, whole and in order. Its
-- frames are for the node that asked; the first is marked as the first, the last as the last, and
-- those between as such.
pub info_lem :
    (c : Context) (p : Protocols) (i : SimpleInfo) (f : CanFrame) (sender : ℕ)
    (write : CanFrame → ℕ)
    → Fields f.can_id 1 0xDE8 sender
    → bit_or (shl (get_or f.bytes 0 0) 8) (get_or f.bytes 1 0) ≡ c.node_alias
    → c.write_function ≡ some write
    → ((g : CanFrame) → write g ≡ 0)
    → (fs : List CanFrame) × (handle_addressed c p i f ≡ reaction ok fs [])
      × (payloads fs ≡ info_data i)
      × (map header fs
          ≡ addressed sender 1 ∷ replicate (length (info_data i) / 6 - 1) (addressed sender 3)
            ++ (addressed sender 2 ∷ []))
unfolding info_frames
info_lem c p i f sender write parts to w writes =
    let len = length (info_data i) in
    let chunk = take 6 (info_data i) in
    let many = length-info_data i in
    let size : length chunk ≡ 6 = omega (arith, length-take 6 (info_data i)) in
    let first = info_frame-Carries c sender 1 empty_frame chunk refl (omega arith) in
    let one = info_frame c sender 1 empty_frame chunk in
    let fs = info_frames c sender len (suc (len / 6 - 1)) 1 one (drop 6 (info_data i)) in
    let later =
      rest_lem c sender len (len / 6 - 1) 1 one (drop 6 (info_data i)) first.room (omega arith)
        (omega arith) (omega (arith, length-drop 6 (info_data i))) in
    (
      one ∷ fs,
      taken c p i f sender (one ∷ fs) write parts to w (all_written write (one ∷ fs) writes) (
          ap (λ k. info_frames c sender len k 0 empty_frame (info_data i)) {x = len / 6 + 1}
            {y = suc (suc (len / 6 - 1))} (omega arith)),
      ap₂ (λ a b. a ++ b) first.rest later.0 ∙ take-append-drop 6 (info_data i),
      ap₂ (λ a b. a ∷ b) first.front later.1,
    )
