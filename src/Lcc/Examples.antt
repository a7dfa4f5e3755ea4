-- ===== src/Lcc/Examples.antt =====
-- Theorems on the LCC library at concrete inputs.
pub mod Events
pub mod Datagrams
pub mod Memory
pub mod Texts
pub mod Remote
pub mod MemoryMap
pub mod Cdi
pub mod Whole
use train_utils.Common.{
  ℕ, ◌/◌, ◌%◌, ◌^◌, ◌≤◌, ◌≡◌, refl, arith, none, some, List, [], ◌∷◌, map, if◌then◌else◌, ◌==◌,
}
use train_utils.Lcc.Frame.{
  CanFrame, get_node_id_from_data, set_nodeid_in_data, get_eventid_from_data, set_eventid_in_data,
  uint32_from_data, uint32_to_data,
}
use train_utils.Lcc.Frame.Bytes.{identifiers_lem}
use train_utils.Lcc.Node.{
  Context, new_context, empty_frame, sent_cid, fail, good, permitted, ok, error_alias_failure,
  returned,
}
use train_utils.Lcc.Context.{
  next_alias, generate_alias, reply, done, incoming_frame, cid_frame, rid_frame, amd_frame,
  claim_alias,
}
use train_utils.Lcc.Context.Alias.{announced, generate_alias_lem}
use train_utils.Lcc.Context.Invariant.{
  IsValid?, calls, set_write, set_unique, generates, claims, incoming, new_context-IsValid,
  alias-calls-IsValid,
}
use train_utils.Lcc.Context.Collision.{collision_lem}

-- A client whose writes succeed.
abbrev writes : CanFrame → ℕ
writes f = 0

abbrev node : Context
unfolding new_context
node = record new_context { unique_id = 0x0501010118F1; write_function = some writes }

abbrev settled : Context
unfolding new_context
settled = record node { node_alias = 0x123; node_alias_state = good; state = permitted }

abbrev trying : Context
unfolding new_context
trying = record node { node_alias = 0x123; node_alias_state = sent_cid }

alias-calls-IsValid_example : IsValid? (
    calls (some new_context) (
      set_write (some writes) none
      ∷ set_unique 0x0501010118F1
      ∷ generates
      ∷ claims 0
      ∷ incoming empty_frame
      ∷ []))
alias-calls-IsValid_example =
    alias-calls-IsValid (some new_context)
      (set_write (some writes) none
        ∷ set_unique 0x0501010118F1
        ∷ generates
        ∷ claims 0
        ∷ incoming empty_frame
        ∷ [])
      new_context-IsValid

collision_lem_example :
    (incoming_frame settled (cid_frame trying 36 7)
      ≡ done (
          reply settled (
            rid_frame settled
            ∷ (if 0x0501010118F1 / 2 ^ 36 % 2 ^ 12 == 0x702 then amd_frame settled ∷ [] else []))))
    × (incoming_frame trying (rid_frame settled)
        ≡ done (reply (record trying { node_alias_state = fail }) []))
    × (claim_alias (record trying { node_alias_state = fail }) 0
        ≡ returned error_alias_failure (record trying { node_alias_state = fail }) [])
unfolding node settled trying new_context
collision_lem_example =
    collision_lem settled trying writes 36 7 0 refl refl (omega arith) (omega arith) refl refl
      (omega arith) (omega arith)
