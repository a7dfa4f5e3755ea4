-- ===== src/Lcc/Gridconnect.antt =====
-- LCC/lcc-gridconnect.c: CAN frames as text, and the text that comes in piece by piece.
-- Characters are their codes. A pointer into a string is the rest of its array; what lies past an
-- array is never looked at. `printf` prints an identifier of 32 bits.
pub mod Hex
pub mod Text
pub mod Stream
pub mod Frames
use train_utils.Common.{
  ℕ, zero, suc, ◌+◌, ◌-◌, ◌*◌, ◌/◌, ◌%◌, ◌^◌, Bool, true, false, not, ◌&&◌, ◌||◌, Option, none,
  some, List, [], ◌∷◌, ◌++◌, if◌then◌else◌, ltb, leb, ◌==◌, ◌!=◌, length, set, take, drop,
  replicate, write_from, u8, u32,
}
use train_utils.Lcc.Frame.{CanFrame}
use train_utils.Lcc.Node.{empty_frame}

-- `%X` of a digit, of a byte with two places, and of a number of up to `k` digits before `text`.
unfoldable pub hex_digit : ℕ → ℕ
hex_digit d = if ltb d 10 then 48 + d else 55 + d

unfoldable pub hex_bytes : List ℕ → List ℕ
hex_bytes [] = []
hex_bytes (b ∷ bs) = hex_digit (b / 16) ∷ hex_digit (b % 16) ∷ hex_bytes bs

unfoldable pub hex_number : ℕ → ℕ → List ℕ → List ℕ
hex_number zero n text = text
hex_number (suc k) n text =
    let longer = hex_number k (n / 16) (hex_digit (n % 16) ∷ text) in
    if n / 16 == 0 then hex_digit (n % 16) ∷ text else longer

-- ":X", the identifier, "N", the bytes of the data, ";".
unfoldable pub frame_text : CanFrame → List ℕ
frame_text f =
    let data_bytes = hex_bytes f.bytes in
    let shown = if ltb f.can_len 8 then take (2 * f.can_len) data_bytes else data_bytes in
    58 ∷ 88 ∷ hex_number 8 f.can_id [] ++ (78 ∷ shown ++ (59 ∷ []))

-- The characters that `snprintf` leaves in an output of `out_len` places, before the last 0.
unfoldable pub canframe_to_gridconnect : CanFrame → ℕ → List ℕ
canframe_to_gridconnect f out_len = take (out_len - 1) (frame_text f)

unfoldable pub hex_value : ℕ → Option ℕ
hex_value c =
    if leb 48 c && leb c 57
    then some (c - 48)
    else if leb 65 c && leb c 70
    then some (c - 55)
    else if leb 97 c && leb c 102
    then some (c - 87)
    else none

unfoldable pub read_hex : ℕ → List ℕ → ℕ
read_hex acc [] = acc
read_hex acc (c ∷ cs) = elim (hex_value c) [ none ↦ acc | some d ↦ read_hex (acc * 16 + d) cs ]

abbrev pub is_space : ℕ → Bool
is_space c = (c == 32) || (leb 9 c && leb c 13)

unfoldable pub skip_spaces : List ℕ → List ℕ
skip_spaces [] = []
skip_spaces (c ∷ cs) = let rest = skip_spaces cs in if is_space c then rest else c ∷ cs

unfoldable pub skip_prefix : List ℕ → List ℕ
skip_prefix (c ∷ x ∷ cs) = if (c == 48) && ((x == 120) || (x == 88)) then cs else c ∷ x ∷ cs
skip_prefix cs = cs

unfoldable pub signed_hex : List ℕ → ℕ
signed_hex [] = 0
signed_hex (c ∷ cs) =
    if c == 45
    then u32 (2 ^ 32 - u32 (read_hex 0 (skip_prefix cs)))
    else u32 (read_hex 0 (skip_prefix (if c == 43 then cs else c ∷ cs)))

-- `strtol` in base 16, as 32 bits. No text here is long enough to pass the range of a `long`.
unfoldable pub strtol16 : List ℕ → ℕ
strtol16 text = signed_hex (skip_spaces text)

-- The characters up to an 'N', at most `k` of them, and what follows.
unfoldable pub read_id : ℕ → List ℕ → List ℕ × List ℕ
read_id zero text = ([], text)
read_id (suc k) [] = ([], [])
read_id (suc k) (c ∷ cs) =
    let (id, rest) = read_id k cs in if c == 78 then ([], c ∷ cs) else (c ∷ id, rest)

-- At most `k` bytes, of two characters each, up to a ';'.
unfoldable pub read_data : ℕ → List ℕ → List ℕ
read_data zero text = []
read_data (suc k) (c ∷ d ∷ cs) =
    let rest = read_data k cs in if c == 59 then [] else u8 (strtol16 (c ∷ d ∷ [])) ∷ rest
read_data (suc k) text = []

-- The string in an array, and its last character.
unfoldable pub c_string : List ℕ → List ℕ
c_string [] = []
c_string (c ∷ cs) = let rest = c_string cs in if c == 0 then [] else c ∷ rest

abbrev pub last_or : ℕ → List ℕ → ℕ
last_or d [] = d
last_or d (c ∷ cs) = last_or c cs

abbrev pub first_or : ℕ → List ℕ → ℕ
first_or d [] = d
first_or d (c ∷ cs) = c

-- `none` is LCC_ERROR_INVALID_ARG.
unfoldable pub gridconnect_to_canframe : List ℕ → Option CanFrame
gridconnect_to_canframe ascii =
    let (id, rest) = read_id 11 (drop 2 ascii) in
    let content = read_data 8 (drop 1 rest) in
    if (first_or 0 ascii != 58) || (last_or 0 (c_string ascii) != 59)
    then none
    else some (record {
      can_id = strtol16 id;
      can_len = length content;
      bytes = write_from (replicate 8 0) 0 content;
    })

-- `struct lcc_gridconnect`; of `frame_parsed` there is a flag that it is not NULL.
pub record Gridconnect : Type 0 where
  pub buffer : List ℕ
  pub buffer_pos : ℕ
  pub frame : CanFrame
  pub frame_parsed_set : Bool

unfoldable pub gridconnect_new : Gridconnect
gridconnect_new = record {
  buffer = replicate 128 0;
  buffer_pos = 0;
  frame = empty_frame;
  frame_parsed_set = false;
}

unfoldable pub set_frame_parsed : Gridconnect → Bool → Gridconnect
set_frame_parsed g is_set = record g { frame_parsed_set = is_set }

-- The frame is cleared before the text is looked at.
abbrev pub parsed : Gridconnect → Option CanFrame → Gridconnect × List CanFrame
parsed g none = (record g { frame = empty_frame; buffer_pos = 0 }, [])
parsed g (some f) =
    (record g { frame = f; buffer_pos = 0 }, if g.frame_parsed_set then f ∷ [] else [])

-- A ';' at the last place writes its 0 past the buffer: the whole buffer is the string then.
unfoldable pub store : Gridconnect → ℕ → Gridconnect × List CanFrame
store g c =
    let stored = set g.buffer g.buffer_pos c in
    if c == 59
    then (let ended = set stored (g.buffer_pos + 1) 0 in
        parsed (record g { buffer = ended }) (gridconnect_to_canframe ended))
    else (
      record g {
        buffer = stored;
        buffer_pos = if leb 128 (g.buffer_pos + 1) then 0 else g.buffer_pos + 1;
      },
      [],
    )

-- The flag `discardUntilColon` after a character that is stored.
abbrev pub discards : Gridconnect → ℕ → Bool
discards g c = (c == 59) || leb 128 (g.buffer_pos + 1)

-- The loop over the characters, with the flag; the frames are those that the client is told of.
unfoldable pub incoming_loop : Bool → Gridconnect → List ℕ → Gridconnect × List CanFrame
incoming_loop discard g [] = (g, [])
incoming_loop discard g (c ∷ cs) = elim (discard && (c != 58)) [
  | true ↦ incoming_loop discard g cs
  | false ↦
      let (h, fs) = store g c in
      let (e, later) = incoming_loop (discards g c) h cs in (e, fs ++ later)
]

unfoldable pub incoming_data : Gridconnect → List ℕ → Gridconnect × List CanFrame
incoming_data g content = incoming_loop (g.buffer_pos == 0) g content
