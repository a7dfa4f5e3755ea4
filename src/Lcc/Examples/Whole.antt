-- ===== src/Lcc/Examples/Whole.antt =====
-- The theorems on a whole node at concrete frames.
use train_utils.Common.{ℕ, ◌≡◌, refl, arith, Bool, true, false, none, some, List, [], ◌∷◌, map}
use train_utils.Lcc.Frame.{CanFrame}
use train_utils.Lcc.Node.{new_context, permitted, good, empty_frame, ok}
use train_utils.Lcc.Context.{is_datagram_frame}
use train_utils.Lcc.Datagram.{datagram_context_new}
use train_utils.Lcc.Datagram.Fragments.{no_handlers}
use train_utils.Lcc.Whole.{Station, sends, station_frame}
use train_utils.Lcc.Whole.Others.{waiting_frame, waiting_lem, message, others_lem}

abbrev no_events : ℕ → List ℕ → Bool
no_events id ids = false

abbrev fresh : Station
unfolding new_context datagram_context_new
fresh = record {
  context = record new_context {
    unique_id = 0x123456;
    node_alias = 0x456;
    write_function = some (λ f. 0);
  };
  info = record {
    manufacturer_name = [];
    model_name = [];
    hw_version = [];
    sw_version = [];
    node_name = [];
    node_description = [];
  };
  protocols = record { datagram_set = true; memory_set = false; upgrade_in_progress = none };
  datagram_context = some datagram_context_new;
}

abbrev joined : Station
joined = record fresh {
  context = record fresh.context { state = permitted; node_alias_state = good };
}

-- A CID frame with the alias of the node.
abbrev cid : CanFrame
cid = record empty_frame { can_id = 0x17123456 }

waiting_lem_example :
    station_frame no_events no_handlers fresh cid
    ≡ some (ok, (waiting_frame fresh cid).1, map sends (waiting_frame fresh cid).0)
unfolding new_context fresh
waiting_lem_example = waiting_lem no_events no_handlers fresh cid (λ f. 0) refl refl

-- A request for the protocols of the node 0x789.
abbrev inquiry : CanFrame
inquiry = record {
  can_id = 0x19828123;
  can_len = 2;
  bytes = 0x07 ∷ 0x89 ∷ 0 ∷ 0 ∷ 0 ∷ 0 ∷ 0 ∷ 0 ∷ [];
}

others_lem_example : station_frame no_events no_handlers joined inquiry ≡ some (ok, joined, [])
unfolding new_context fresh is_datagram_frame
others_lem_example =
    others_lem no_events no_handlers joined inquiry refl (omega arith) (omega arith)
      (message refl refl refl (omega arith))
