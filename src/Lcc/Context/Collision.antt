-- ===== src/Lcc/Context/Collision.antt =====
-- Two nodes that want the same alias, and what a node sends when it claims one.
use train_utils.Common.{
  ℕ, ◌+◌, ◌*◌, ◌/◌, ◌%◌, ◌^◌, ◌≤◌, ◌<◌, ◌≡◌, ◌≢◌, refl, ap, sym, ◌∙◌, arith, some, [], ◌∷◌,
  if◌then◌else◌, ◌==◌, bit_and, shr,
}
use train_utils.Common.Bits.{bit_and_low, bit_and_high}
use train_utils.Lcc.Frame.{CanFrame, set_control_field, set_lcb_variable_field}
use train_utils.Lcc.Node.{
  Context, fail, permitted, inhibited, error_alias_failure, returned, empty_frame,
}
use train_utils.Lcc.Context.{
  reply, done, cid_frame, rid_frame, amd_frame, claim_alias, incoming_frame, check_collision,
  handle_control_frame,
}
use train_utils.Lcc.Context.Alias.{control_id, cid_frame_lem}

-- The parts of a control frame's identifier, as the receiver takes it apart.
record Parts (id n m alias : ℕ) : Type 0 where
  source : bit_and id 0xFFF ≡ alias
  number : bit_and (shr id 24) 7 ≡ n
  kind : shr (bit_and id 0x00FFF000) 12 ≡ m
  control : bit_and id 0x08000000 ≡ 0

parts :
    (id n m alias : ℕ)
    → id ≡ 2 ^ 28 + (n * 2 ^ 12 + m) * 2 ^ 12 + alias
    → n < 8
    → m < 2 ^ 12
    → alias < 2 ^ 12
    → Parts id n m alias
parts id n m alias e hn hm ha = record {
  source = bit_and_low 12 id ∙ omega (arith, e);
  number = bit_and_low 3 (id / 2 ^ 24) ∙ omega (arith, e);
  kind =
      ap (λ t. t / 2 ^ 12) (bit_and_high 12 id 0xFFF)
      ∙ omega (arith, bit_and_low 12 (id / 2 ^ 12), e);
  control = bit_and_high 27 id 1 ∙ omega (arith, bit_and_low 1 (id / 2 ^ 27), e);
}

rid_frame-Parts :
    (c : Context) → c.node_alias < 2 ^ 12 → Parts (rid_frame c).can_id 0 0x700 c.node_alias
unfolding rid_frame
rid_frame-Parts c h =
    parts _ 0 0x700 c.node_alias
      (control_id empty_frame c.node_alias 0x700 h (omega arith) ∙ omega arith) (omega arith)
      (omega arith) h

-- A frame whose parts are those of a CID frame meets a node that holds the alias.
defends :
    (c : Context) (f : CanFrame) (n m : ℕ) (write : CanFrame → ℕ)
    → Parts f.can_id n m c.node_alias
    → 4 ≤ n
    → f.can_len ≡ 0
    → c.state ≡ permitted
    → c.write_function ≡ some write
    → c.unique_id ≢ 0
    → incoming_frame c f
      ≡ done (reply c (rid_frame c ∷ (if m == 0x702 then amd_frame c ∷ [] else [])))
unfolding incoming_frame check_collision handle_control_frame
defends c f n m write p h len state w id =
    ground (arith, p.source, p.number, p.kind, p.control, len, state, w, id)

yields :
    (x : Context) (f : CanFrame)
    → Parts f.can_id 0 0x700 x.node_alias
    → x.state ≡ inhibited
    → incoming_frame x f ≡ done (reply (record x { node_alias_state = fail }) [])
unfolding incoming_frame check_collision
yields x f p state = ground (arith, p.source, p.number, p.kind, state)

-- A permitted node that gets a CID frame for its own alias answers with an RID frame and keeps its
-- alias; if the twelve bits in the CID frame happen to be 0x702 it also takes it for an enquiry and
-- sends its identifier. The inhibited node that tried the alias gives it up when that RID frame
-- comes in, and can then not claim it.
pub collision_lem :
    (c x : Context) (write : CanFrame → ℕ) (shift n room : ℕ)
    → c.state ≡ permitted
    → c.write_function ≡ some write
    → c.unique_id ≢ 0
    → c.node_alias < 2 ^ 12
    → x.state ≡ inhibited
    → x.node_alias ≡ c.node_alias
    → 4 ≤ n
    → n < 8
    → (incoming_frame c (cid_frame x shift n)
        ≡ done (
            reply c (
              rid_frame c
              ∷ (if x.unique_id / 2 ^ shift % 2 ^ 12 == 0x702 then amd_frame c ∷ [] else []))))
      × (incoming_frame x (rid_frame c) ≡ done (reply (record x { node_alias_state = fail }) []))
      × (claim_alias (record x { node_alias_state = fail }) room
          ≡ returned error_alias_failure (record x { node_alias_state = fail }) [])
unfolding claim_alias cid_frame set_control_field set_lcb_variable_field
collision_lem c x write shift n room state w id h inhibits same from to =
    let m = x.unique_id / 2 ^ shift % 2 ^ 12 in
    let cid =
      cid_frame_lem x shift n (omega (arith, same)) to
      ∙ ap (λ a. 2 ^ 28 + (n * 2 ^ 12 + m) * 2 ^ 12 + a) same in
    let rid = rid_frame-Parts c h in
    (
      defends c (cid_frame x shift n) n m write
          (parts (cid_frame x shift n).can_id n m c.node_alias cid to (omega arith) h) from refl
          state w id,
      yields x (rid_frame c)
          (record {
            source = rid.source ∙ sym same;
            number = rid.number;
            kind = rid.kind;
            control = rid.control;
          })
          inhibits,
      refl,
    )
