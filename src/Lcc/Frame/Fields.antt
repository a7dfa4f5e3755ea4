-- ===== src/Lcc/Frame/Fields.antt =====
-- The parts of the identifier of a message: the type, the variable field and the sender's alias.
use train_utils.Common.{
  ℕ, ◌+◌, ◌*◌, ◌/◌, ◌^◌, ◌<◌, ◌≡◌, ap, ◌∙◌, arith, bit_and, bit_or, shl, shr, u32,
}
use train_utils.Common.Bits.{bit_and_low, bit_and_high, bit_or_split, bit_or_sum, bit_or-zero}
use train_utils.Lcc.Frame.{CanFrame, set_lcb_variable_field, set_lcb_can_frame_type}

variable_id :
    (f : CanFrame) (alias field : ℕ)
    → alias < 2 ^ 12
    → field < 2 ^ 12
    → (set_lcb_variable_field f alias field).can_id ≡ 3 * 2 ^ 27 + field * 2 ^ 12 + alias
unfolding set_lcb_variable_field
variable_id f alias field h k =
    ap (λ x. bit_or (bit_or (bit_or (2 ^ 28) (2 ^ 27)) x) (bit_and alias 0xFFF))
      {x = u32 (shl (u32 field) 12)} {y = field * 2 ^ 12} (omega arith)
    ∙ ap (λ y. bit_or (bit_or (bit_or (2 ^ 28) (2 ^ 27)) (field * 2 ^ 12)) y)
        {x = bit_and alias 0xFFF} {y = alias} (bit_and_low 12 alias ∙ omega arith)
    ∙ ap (λ x. bit_or x alias) (bit_or_sum 27 3 (field * 2 ^ 12) (omega arith))
    ∙ ap (λ x. bit_or x alias) {x = 3 * 2 ^ 27 + field * 2 ^ 12} {y = (3 * 2 ^ 15 + field) * 2 ^ 12}
        (omega arith)
    ∙ bit_or_sum 12 (3 * 2 ^ 15 + field) alias h
    ∙ omega arith

message_id :
    (f : CanFrame) (alias field type : ℕ)
    → alias < 2 ^ 12
    → field < 2 ^ 12
    → type < 8
    → (set_lcb_can_frame_type (set_lcb_variable_field f alias field) type).can_id
      ≡ (24 + type) * 2 ^ 24 + (field * 2 ^ 12 + alias)
unfolding set_lcb_can_frame_type
message_id f alias field type h k t =
    let rest = field * 2 ^ 12 + alias in
    ap (λ x. bit_or x (u32 (shl (u32 type) 24))) (variable_id f alias field h k)
    ∙ ap (λ x. bit_or (3 * 2 ^ 27 + field * 2 ^ 12 + alias) x) {x = u32 (shl (u32 type) 24)}
        {y = type * 2 ^ 24 + 0} (omega arith)
    ∙ ap (λ x. bit_or x (type * 2 ^ 24 + 0)) {x = 3 * 2 ^ 27 + field * 2 ^ 12 + alias}
        {y = 24 * 2 ^ 24 + rest} (omega arith)
    ∙ bit_or_split 24 24 rest type 0 (omega arith) (omega arith)
    ∙ omega (arith, bit_or-zero rest, bit_or_sum 3 3 type t)

-- How a receiver takes a message's identifier apart.
pub record Fields (id type field alias : ℕ) : Type 0 where
  pub source : bit_and id 0xFFF ≡ alias
  pub type_of : shr (bit_and id 0x07000000) 24 ≡ type
  pub field_of : shr (bit_and id 0x00FFF000) 12 ≡ field
  pub message : bit_and id 0x08000000 ≡ 0x08000000

fields :
    (id type field alias : ℕ)
    → id ≡ (24 + type) * 2 ^ 24 + (field * 2 ^ 12 + alias)
    → type < 8
    → field < 2 ^ 12
    → alias < 2 ^ 12
    → Fields id type field alias
fields id type field alias e ht hf ha = record {
  source = bit_and_low 12 id ∙ omega (arith, e);
  type_of =
      ap (λ t. t / 2 ^ 24) (bit_and_high 24 id 7) ∙ omega (arith, bit_and_low 3 (id / 2 ^ 24), e);
  field_of =
      ap (λ t. t / 2 ^ 12) (bit_and_high 12 id 0xFFF)
      ∙ omega (arith, bit_and_low 12 (id / 2 ^ 12), e);
  message = bit_and_high 27 id 1 ∙ omega (arith, bit_and_low 1 (id / 2 ^ 27), e);
}

pub message-Fields :
    (f : CanFrame) (alias field type : ℕ)
    → alias < 2 ^ 12
    → field < 2 ^ 12
    → type < 8
    → Fields
        (set_lcb_can_frame_type (set_lcb_variable_field f alias field) type).can_id
        type
        field
        alias
message-Fields f alias field type h k t =
    fields _ type field alias (message_id f alias field type h k t) t k h
