-- ===== src/Lcc/Context/Alias.antt =====
-- The frames by which a node announces the alias that it tries.
use train_utils.Common.{
  ℕ, ◌+◌, ◌-◌, ◌*◌, ◌/◌, ◌%◌, ◌^◌, ◌≤◌, ◌<◌, ◌≡◌, ◌≢◌, refl, ap, ◌∙◌, arith, false, some, List, [],
  ◌∷◌, map, bit_and, bit_or, shl, u32,
}
use native.Mathlib.Nat.{mul-div_left, one-le-pow}
use train_utils.Common.Bits.{bit_and_low, bit_and_high, bit_and_split, bit_or_sum, sum_bit_or}
use train_utils.Lcc.Frame.{CanFrame, set_lcb_variable_field, set_control_field, not_bit_27}
use train_utils.Lcc.Node.{Context, sent_cid, good, ok, returned, write_each, empty_frame}
use train_utils.Lcc.Context.{
  is_alias_state, first_alias, next_alias, cid_frame, cid_frames, send_cid, generate_alias,
}

-- The identifier of a control frame: bit 28, the field above bit 12, and the alias.
pub control_id :
    (f : CanFrame) (alias field : ℕ)
    → alias < 2 ^ 12
    → field < 2 ^ 15
    → (set_control_field f alias field).can_id ≡ 2 ^ 28 + field * 2 ^ 12 + alias
unfolding set_control_field set_lcb_variable_field
control_id f alias field h k =
    let inner = bit_or_sum 27 3 (field * 2 ^ 12) (omega arith) in
    let whole = bit_or_sum 12 (3 * 2 ^ 15 + field) alias h in
    let cleared =
      bit_and_split 27 3 (field * 2 ^ 12 + alias) 30 (2 ^ 27 - 1) (omega arith) (omega arith) in
    ap
      (λ x. bit_and (bit_or (bit_or (bit_or (2 ^ 28) (2 ^ 27)) x) (bit_and alias 0xFFF)) not_bit_27)
      {x = u32 (shl (u32 field) 12)} {y = field * 2 ^ 12} (omega arith)
    ∙ ap (λ y. bit_and (bit_or (bit_or (bit_or (2 ^ 28) (2 ^ 27)) (field * 2 ^ 12)) y) not_bit_27)
        {x = bit_and alias 0xFFF} {y = alias} (bit_and_low 12 alias ∙ omega arith)
    ∙ ap (λ x. bit_and (bit_or x alias) not_bit_27) inner
    ∙ ap (λ x. bit_and (bit_or x alias) not_bit_27) {x = 3 * 2 ^ 27 + field * 2 ^ 12}
        {y = (3 * 2 ^ 15 + field) * 2 ^ 12} (omega arith)
    ∙ ap (λ x. bit_and x not_bit_27) whole
    ∙ ap (λ x. bit_and x not_bit_27) {x = (3 * 2 ^ 15 + field) * 2 ^ 12 + alias}
        {y = 3 * 2 ^ 27 + (field * 2 ^ 12 + alias)} (omega arith)
    ∙ cleared
    ∙ omega (arith, bit_and_low 27 (field * 2 ^ 12 + alias))

pub next_alias-range :
    (c : Context) → c.node_alias ≤ 0xFFE → (1 ≤ next_alias c) × (next_alias c ≤ 0xFFE)
unfolding next_alias first_alias
next_alias-range c h =
    let low = bit_and_low 12 (u32 (bit_and c.unique_id 0xFFF * 1103515245 + 12345)) in
    (ground (arith, low), ground (arith, low))

pub cid_frame_lem :
    (c : Context) (shift n : ℕ)
    → c.node_alias < 2 ^ 12
    → n < 8
    → (cid_frame c shift n).can_id
      ≡ 2 ^ 28 + (n * 2 ^ 12 + c.unique_id / 2 ^ shift % 2 ^ 12) * 2 ^ 12 + c.node_alias
unfolding cid_frame
cid_frame_lem c shift n h k =
    let bits =
      ap (λ t. t / 2 ^ shift)
        (bit_and_high shift c.unique_id 0xFFF
          ∙ ap (λ t. t * 2 ^ shift) (bit_and_low 12 (c.unique_id / 2 ^ shift)))
      ∙ mul-div_left (c.unique_id / 2 ^ shift % 2 ^ 12) (one-le-pow shift 2 (omega arith)) in
    ap (λ x. (set_control_field empty_frame c.node_alias (bit_or x (shl n 12))).can_id) bits
    ∙ ap (λ x. (set_control_field empty_frame c.node_alias x).can_id)
        (sum_bit_or 12 n (c.unique_id / 2 ^ shift % 2 ^ 12) (omega arith))
    ∙ control_id empty_frame c.node_alias (n * 2 ^ 12 + c.unique_id / 2 ^ shift % 2 ^ 12) h
        (omega arith)

pub all_written :
    (write : CanFrame → ℕ) (fs : List CanFrame)
    → ((f : CanFrame) → write f ≡ 0)
    → write_each write fs ≡ (0, fs)
unfolding write_each
all_written write [] h = refl
all_written write (f ∷ fs) h = rw (all_written write fs h, h f) refl

-- The identifiers of the four frames: the numbers 7, 6, 5 and 4 with the 12 bits of the node's
-- identifier from the highest on.
abbrev pub announced : ℕ → ℕ → List ℕ
announced id alias =
    (2 ^ 28 + (7 * 2 ^ 12 + id / 2 ^ 36) * 2 ^ 12 + alias)
    ∷ (2 ^ 28 + (6 * 2 ^ 12 + id / 2 ^ 24 % 2 ^ 12) * 2 ^ 12 + alias)
    ∷ (2 ^ 28 + (5 * 2 ^ 12 + id / 2 ^ 12 % 2 ^ 12) * 2 ^ 12 + alias)
    ∷ (2 ^ 28 + (4 * 2 ^ 12 + id % 2 ^ 12) * 2 ^ 12 + alias)
    ∷ []

cid_frames_lem :
    (c : Context)
    → c.node_alias < 2 ^ 12
    → c.unique_id < 2 ^ 48
    → map (λ f. f.can_id) (cid_frames c) ≡ announced c.unique_id c.node_alias
unfolding cid_frames
cid_frames_lem c h k =
    let one : (cid_frame c 36 7).can_id
        ≡ 2 ^ 28 + (7 * 2 ^ 12 + c.unique_id / 2 ^ 36) * 2 ^ 12 + c.node_alias =
      cid_frame_lem c 36 7 h (omega arith) ∙ omega arith in
    let two = cid_frame_lem c 24 6 h (omega arith) in
    let three = cid_frame_lem c 12 5 h (omega arith) in
    let four : (cid_frame c 0 4).can_id
        ≡ 2 ^ 28 + (4 * 2 ^ 12 + c.unique_id % 2 ^ 12) * 2 ^ 12 + c.node_alias =
      cid_frame_lem c 0 4 h (omega arith) ∙ omega arith in
    λ i. one i ∷ two i ∷ three i ∷ four i ∷ []

-- A node with an identifier below 2 ^ 48 that holds no alias, whose writes all succeed, announces
-- the next alias, from 1 to 0xFFE, in four frames that carry its identifier twelve bits at a time;
-- it then waits to claim it, and nothing else in its context changes.
pub generate_alias_lem :
    (c : Context) (write : CanFrame → ℕ)
    → c.write_function ≡ some write
    → ((f : CanFrame) → write f ≡ 0)
    → c.unique_id ≢ 0
    → c.unique_id < 2 ^ 48
    → is_alias_state c.node_alias_state good ≡ false
    → c.node_alias ≤ 0xFFE
    → (fs : List CanFrame) × (generate_alias c
        ≡ returned ok (record c { node_alias = next_alias c; node_alias_state = sent_cid }) fs)
      × (1 ≤ next_alias c)
      × (next_alias c ≤ 0xFFE)
      × (map (λ f. f.can_id) fs ≡ announced c.unique_id (next_alias c))
unfolding generate_alias send_cid
generate_alias_lem c write w good_writes id wide free h =
    let e : Context = record c { node_alias = next_alias c } in
    let range = next_alias-range c h in
    (
      cid_frames e,
      ground (arith, w, free, id, all_written write (cid_frames e) good_writes),
      range.0,
      range.1,
      cid_frames_lem e (omega (arith, range.1)) wide,
    )
