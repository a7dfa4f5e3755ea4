-- ===== src/Lcc/Examples/Events.antt =====
-- Theorems on events, their lists, and messages at concrete inputs.
use train_utils.Common.{
  ℕ, ◌/◌, ◌-◌, ◌≡◌, refl, arith, Bool, true, false, ◌||◌, none, some, List, [], ◌∷◌, ◌++◌, map,
  if◌then◌else◌, length, replicate,
}
use train_utils.Lcc.Frame.{CanFrame}
use train_utils.Lcc.EventList.{EventList, used, contains, has_event}
use train_utils.Lcc.Event.{
  EventContext, EventCall, event_new, event_call, add_consumed, add_produced, produced_start,
  produced_end, set_incoming_event,
}
use train_utils.Lcc.Event.Invariant.{
  event_calls, event_calls-IsValid, event_new-IsValid, events_found,
}
use train_utils.Lcc.Node.{Context, new_context, ok, status_of}
use train_utils.Lcc.Simple.{reaction, produce_event, handle_simple_protocol}
use train_utils.Lcc.Simple.Report.{report_lem}
use train_utils.Lcc.Addressed.{SimpleInfo, Protocols, info_data, handle_addressed}
use train_utils.Lcc.Addressed.Info.{payloads, header, addressed, info_lem}

-- Events that come out of order, and one transaction.
abbrev events : List EventCall
events =
    set_incoming_event true
    ∷ add_consumed 0x0501010118F10002
    ∷ add_consumed 0x0501010118F10001
    ∷ produced_start
    ∷ add_produced 5
    ∷ add_produced 4
    ∷ produced_end
    ∷ []

abbrev found : ℕ → List ℕ → Bool
found id xs = contains id xs

events_found_example :
    (has_event found (event_calls event_new events).events_consumed 0x0501010118F10001
      ≡ contains 0x0501010118F10001 (used (event_calls event_new events).events_consumed))
    × (has_event found (event_calls event_new events).events_produced 0x0501010118F10001
        ≡ contains 0x0501010118F10001 (used (event_calls event_new events).events_produced))
unfolding event_calls event_call event_new
events_found_example = events_found found events 0x0501010118F10001 (λ id xs s. refl) refl refl

abbrev four_events : EventList
four_events = record {
  event_array = some (3 ∷ 7 ∷ 9 ∷ 11 ∷ 0 ∷ 0 ∷ 0 ∷ 0 ∷ 0 ∷ 0 ∷ []);
  size = 10;
  len = 4;
}

abbrev fine : CanFrame → ℕ
fine f = 0

abbrev source : Context
unfolding new_context
source = record new_context { node_alias = 0x123; write_function = some fine }

abbrev own_events : EventContext
unfolding event_calls event_call event_new
own_events = event_calls event_new events

abbrev consumer : Context
unfolding new_context
consumer = record new_context {
  node_alias = 0x456;
  write_function = some fine;
  event_context = some own_events;
}

report_lem_example :
    (f : CanFrame) × (produce_event source 0x0501010118F10001
      ≡ reaction (status_of (fine f)) (f ∷ []) [])
    × (handle_simple_protocol found consumer f
        ≡ reaction ok [] (
            if consumer.listen_all_events
              || contains 0x0501010118F10001 (used own_events.events_consumed)
            then (0x123, 0x0501010118F10001) ∷ []
            else []))
unfolding source consumer own_events new_context event_calls event_call event_new
report_lem_example =
    report_lem found source consumer own_events 0x0501010118F10001 fine (λ id xs s. refl)
      (omega arith) (omega arith) refl refl refl
      (event_calls-IsValid event_new events event_new-IsValid) refl

abbrev info : SimpleInfo
info = record {
  manufacturer_name = 65 ∷ 66 ∷ [];
  model_name = 67 ∷ [];
  hw_version = 49 ∷ [];
  sw_version = 50 ∷ [];
  node_name = [];
  node_description = 68 ∷ 69 ∷ 70 ∷ [];
}

abbrev protocols : Protocols
protocols = record { datagram_set = true; memory_set = false; upgrade_in_progress = none }

-- A request for the information of the node with alias 0x456, from alias 0x123.
abbrev request : CanFrame
request = record {
  can_id = 0x19DE8123;
  can_len = 2;
  bytes = 0x04 ∷ 0x56 ∷ 0 ∷ 0 ∷ 0 ∷ 0 ∷ 0 ∷ 0 ∷ [];
}

info_lem_example :
    (fs : List CanFrame) × (handle_addressed consumer protocols info request ≡ reaction ok fs [])
    × (payloads fs ≡ info_data info)
    × (map header fs
        ≡ addressed 0x123 1 ∷ replicate (length (info_data info) / 6 - 1) (addressed 0x123 3)
          ++ (addressed 0x123 2 ∷ []))
unfolding consumer new_context
info_lem_example =
    info_lem consumer protocols info request 0x123 fine
      (record { source = refl; type_of = refl; field_of = refl; message = refl }) refl refl
      (λ g. refl)
