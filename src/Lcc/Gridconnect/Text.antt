-- ===== src/Lcc/Gridconnect/Text.antt =====
-- The text of a frame, and the frame that is read from it.
use train_utils.Common.{
  ℕ, zero, suc, ◌-◌, ◌*◌, ◌^◌, ◌≤◌, ◌<◌, ◌≡◌, ◌≢◌, inl, inr, refl, sym, ap, ap₂, ◌∙◌, arith, false,
  some, List, [], ◌∷◌, ◌++◌, length, take, All, IsBytes, take_all, length-take, length-append,
  append_assoc, Bool-cases, ◌==◌, ltb, if◌then◌else◌, write_from, replicate,
}
use train_utils.Lcc.Frame.{CanFrame}
use train_utils.Lcc.Gridconnect.{
  hex_bytes, hex_number, frame_text, canframe_to_gridconnect, read_id, c_string, last_or,
  gridconnect_to_canframe,
}
use train_utils.Lcc.Gridconnect.Hex.{
  IsHexDigit, number_lem, read_data-hex_bytes, take-hex_bytes, hex_bytes-All, length-hex_bytes,
}

-- A frame as the library fills it in.
pub record IsFrame (f : CanFrame) : Type 0 where
  pub id : f.can_id < 2 ^ 32
  pub len : f.can_len ≤ 8
  pub eight : length f.bytes ≡ 8
  pub values : IsBytes f.bytes

-- The bytes that count.
abbrev pub content : CanFrame → List ℕ
content f = take f.can_len f.bytes

-- The text without its last character.
abbrev pub body : CanFrame → List ℕ
body f = 58 ∷ 88 ∷ hex_number 8 f.can_id [] ++ (78 ∷ hex_bytes (content f))

-- A character that ends neither a string nor a frame.
abbrev pub IsPlain : ℕ → Type 0
IsPlain c = (1 ≤ c) × (c ≢ 59)

pub take-IsBytes : (n : ℕ) (bs : List ℕ) → IsBytes bs → IsBytes (take n bs)
take-IsBytes zero bs h = tt
take-IsBytes (suc n) [] h = tt
take-IsBytes (suc n) (b ∷ bs) h = (h.0, take-IsBytes n bs h.1)

append-IsPlain : (xs ys : List ℕ) → All IsPlain xs → All IsPlain ys → All IsPlain (xs ++ ys)
append-IsPlain [] ys h k = k
append-IsPlain (x ∷ xs) ys h k = (h.0, append-IsPlain xs ys h.1 k)

digits-IsPlain : (cs : List ℕ) → All IsHexDigit cs → All IsPlain cs
digits-IsPlain [] h = tt
digits-IsPlain (c ∷ cs) h = ((ground (arith, h.0), ground (arith, h.0)), digits-IsPlain cs h.1)

pub content-IsBytes : (f : CanFrame) → IsFrame f → IsBytes (content f)
content-IsBytes f v = take-IsBytes f.can_len f.bytes v.values

pub body-IsPlain : (f : CanFrame) → IsFrame f → All IsPlain (body f)
body-IsPlain f v =
    let rest =
      append-IsPlain (hex_number 8 f.can_id []) (78 ∷ hex_bytes (content f))
        (digits-IsPlain _ (number_lem f.can_id v.id).2)
        (
          (omega arith, ground arith),
          digits-IsPlain _ (hex_bytes-All (content f) (content-IsBytes f v)),
        ) in
    ((omega arith, ground arith), ((omega arith, ground arith), rest))

pub length-body : (f : CanFrame) → IsFrame f → length (body f) ≤ 27
length-body f v = omega (
  arith,
  length-append (hex_number 8 f.can_id []) (78 ∷ hex_bytes (content f)),
  (number_lem f.can_id v.id).1,
  length-hex_bytes (content f),
  length-take f.can_len f.bytes,
  v.len,
)

shown_lem :
    (f : CanFrame)
    → IsFrame f
    → (if ltb f.can_len 8 then take (2 * f.can_len) (hex_bytes f.bytes) else hex_bytes f.bytes)
      ≡ hex_bytes (content f)
shown_lem f v = elim (Bool-cases (ltb f.can_len 8)) [
  | inl e ↦ rw e (take-hex_bytes f.can_len f.bytes)
  | inr e ↦
      let whole : length f.bytes ≤ f.can_len = ground (arith, e, v.eight) in
      rw e (ap hex_bytes (sym (take_all f.can_len f.bytes whole)))
]

pub frame_text_lem : (f : CanFrame) → IsFrame f → frame_text f ≡ body f ++ (59 ∷ [])
unfolding frame_text
frame_text_lem f v =
    let number = hex_number 8 f.can_id [] in
    ap (λ l. 58 ∷ 88 ∷ number ++ (78 ∷ l ++ (59 ∷ []))) (shown_lem f v)
    ∙ ap (λ l. 58 ∷ 88 ∷ l) (sym (append_assoc number (78 ∷ hex_bytes (content f)) (59 ∷ [])))

read_id_lem :
    (k : ℕ) (cs rest : List ℕ)
    → All IsHexDigit cs
    → length cs ≤ k
    → read_id k (cs ++ (78 ∷ rest)) ≡ (cs, 78 ∷ rest)
unfolding read_id
read_id_lem zero [] rest h k = refl
read_id_lem zero (c ∷ cs) rest h k = absurd (omega arith)
read_id_lem (suc n) [] rest h k = refl
read_id_lem (suc n) (c ∷ cs) rest h k =
    let digit : (c == 78) ≡ false = ground (arith, h.0) in
    rw (digit, read_id_lem n cs rest h.1 (omega arith)) refl

c_string_lem :
    (cs junk : List ℕ) → All IsPlain cs → c_string (cs ++ (59 ∷ 0 ∷ junk)) ≡ cs ++ (59 ∷ [])
unfolding c_string
c_string_lem [] junk h = refl
c_string_lem (c ∷ cs) junk h =
    let plain : (c == 0) ≡ false = ground (arith, h.0) in
    rw plain (ap (λ l. c ∷ l) (c_string_lem cs junk h.1))

last_or-append : (d : ℕ) (cs : List ℕ) → last_or d (cs ++ (59 ∷ [])) ≡ 59
last_or-append d [] = refl
last_or-append d (c ∷ cs) = last_or-append c cs

-- What is read: the bytes past the length are 0.
abbrev pub read_frame : CanFrame → CanFrame
read_frame f = record f { bytes = write_from (replicate 8 0) 0 (content f) }

pub text_lem :
    (f : CanFrame) (junk : List ℕ)
    → IsFrame f
    → gridconnect_to_canframe (body f ++ (59 ∷ 0 ∷ junk)) ≡ some (read_frame f)
unfolding gridconnect_to_canframe
text_lem f junk v =
    let number = hex_number 8 f.can_id [] in
    let bytes = hex_bytes (content f) in
    let digits = number_lem f.can_id v.id in
    let size : length (content f) ≤ 8 = omega (arith, length-take f.can_len f.bytes, v.len) in
    let split = append_assoc number (78 ∷ bytes) (59 ∷ 0 ∷ junk) in
    let id = read_id_lem 11 number (bytes ++ (59 ∷ 0 ∷ junk)) digits.2 (omega (arith, digits.1)) in
    let string = c_string_lem (body f) junk (body-IsPlain f v) in
    let values = read_data-hex_bytes 8 (content f) (0 ∷ junk) (content-IsBytes f v) size in
    let len : length (content f) ≡ f.can_len =
      omega (arith, length-take f.can_len f.bytes, v.eight, v.len) in
    rw (string, last_or-append 0 (body f), split, id, values)
      (ap₂
        (λ i n.
          some
            (record { can_id = i; can_len = n; bytes = write_from (replicate 8 0) 0 (content f) }))
        digits.0 len)

pub printed_lem :
    (f : CanFrame) (out_len : ℕ)
    → IsFrame f
    → 29 ≤ out_len
    → canframe_to_gridconnect f out_len ≡ body f ++ (59 ∷ [])
unfolding canframe_to_gridconnect
printed_lem f out_len v h =
    let size : length (frame_text f) ≤ out_len - 1 =
      omega (
        arith,
        ap length (frame_text_lem f v),
        length-append (body f) (59 ∷ []),
        length-body f v,
      ) in
    take_all (out_len - 1) (frame_text f) size ∙ frame_text_lem f v

-- The text that is printed of a frame, with room for its 28 characters and the 0, is read as that
-- frame: the identifier, the length and the bytes that count come back, whatever follows the text.
pub gridconnect_to_canframe-canframe_to_gridconnect :
    (f : CanFrame) (out_len : ℕ) (junk : List ℕ)
    → IsFrame f
    → 29 ≤ out_len
    → gridconnect_to_canframe (canframe_to_gridconnect f out_len ++ (0 ∷ junk))
      ≡ some (read_frame f)
gridconnect_to_canframe-canframe_to_gridconnect f out_len junk v h =
    ap (λ l. gridconnect_to_canframe (l ++ (0 ∷ junk))) (printed_lem f out_len v h)
    ∙ ap gridconnect_to_canframe (append_assoc (body f) (59 ∷ []) (0 ∷ junk))
    ∙ text_lem f junk v
