-- ===== src/Lcc/Examples/Cdi.antt =====
-- The theorems on a description that is made on demand, at a small description.
use train_utils.Common.{ℕ, ◌≡◌, refl, arith, true, false, none, some, List, [], ◌∷◌, replicate}
use train_utils.Common.Decimal.{codes, decimal, digits_before}
use train_utils.Lcc.Node.{Context, new_context, ok}
use train_utils.Lcc.Datagram.{datagram_context_new}
use train_utils.Lcc.Cdi.{
  Control, pos, to_xml_at_offset, control_strings, segment_strings, group_strings, input_strings,
  input_tag,
}
use train_utils.Lcc.Cdi.Chunks.{flatten}
use train_utils.Lcc.Cdi.Bytes.{bytes_at}
use train_utils.Lcc.Cdi.Offset.{to_xml_at_offset_lem}
use train_utils.Lcc.Memory.{MemoryContext, Line, memory_new}
use train_utils.Lcc.Memory.Incoming.{memory_try_handle_datagram}
use train_utils.Lcc.Memory.OnDemand.{stored}
use train_utils.Lcc.Memory.Read.{request}
use train_utils.Lcc.Memory.Stored.{read-stored}

abbrev delay_control : Control
delay_control = record {
  segments =
      record {
        segment_space = 253;
        segment_name = codes "Settings";
        groups = [];
        inputs =
            record {
              name = codes "Delay";
              description = none;
              relations_set = false;
              min = pos 0;
              max = pos 30;
              input_type = 1;
              size = 2;
              offset = 0;
            }
            ∷ [];
      }
      ∷ [];
  simple_info = none;
}

abbrev texts : List (List ℕ)
unfolding control_strings segment_strings group_strings input_strings input_tag decimal
    digits_before
texts = elim (control_strings delay_control) [ none ↦ [] | some ss ↦ ss ]

to_xml_at_offset_lem_example : to_xml_at_offset texts 192 ≡ (ok, bytes_at (flatten texts) 192 64)
unfolding texts control_strings segment_strings group_strings input_strings input_tag decimal
    digits_before
to_xml_at_offset_lem_example = to_xml_at_offset_lem texts 192

abbrev cdi_node : Context
unfolding new_context
cdi_node = record new_context { node_alias = 0x456 }

abbrev cdi_line : Line
unfolding datagram_context_new
cdi_line = record { datagram_context = datagram_context_new; room = none; held = replicate 8 0 }

abbrev with_control : MemoryContext
unfolding memory_new
with_control = record memory_new { cdi_set = true; cdi_strings = some texts }

read-stored_example :
    memory_try_handle_datagram with_control cdi_node cdi_line none 0x123 (request 100 40 []) 7
    ≡ memory_try_handle_datagram
        (stored with_control texts)
        cdi_node
        cdi_line
        none
        0x123
        (request 100 40 [])
        7
unfolding memory_new
read-stored_example =
    read-stored with_control cdi_node cdi_line none 0x123 100 40 [] texts refl (omega arith)
      (omega arith) (omega arith)
