-- ===== src/Lcc/Event.antt =====
-- LCC/lcc-event.c: the events that a node consumes and produces, and the events of accessories.
-- A context that is NULL is an error of each function, which is left out.
pub mod Invariant
pub mod Accessory
use train_utils.Common.{
  ℕ, ◌+◌, ◌-◌, ◌*◌, ◌^◌, Bool, true, false, not, ◌&&◌, ◌||◌, Option, none, some, if◌then◌else◌, ltb,
  ◌==◌, bit_and, bit_or, has_bits, shl, shr, u8, u16,
}
use train_utils.Lcc.EventList.{
  EventList, new_list, add_event, remove_event, clear_list, sort_list, has_event,
}

pub data ItemState : Type 0 where
  valid invalid unknown : ItemState

-- `struct lcc_event_context`. The two functions that tell the state of an event are the client's;
-- of `incoming_event` there is a flag that it is not NULL.
pub record EventContext : Type 0 where
  pub incoming_event_set : Bool
  pub events_consumed : EventList
  pub events_produced : EventList
  pub producer_state_fn : Option (ℕ → ItemState)
  pub consumer_state_fn : Option (ℕ → ItemState)
  pub in_add_produced_event_transaction : Bool
  pub in_add_consumed_event_transaction : Bool

unfoldable pub event_new : EventContext
event_new = record {
  incoming_event_set = false;
  events_consumed = new_list;
  events_produced = new_list;
  producer_state_fn = none;
  consumer_state_fn = none;
  in_add_produced_event_transaction = false;
  in_add_consumed_event_transaction = false;
}

-- The calls that change it.
pub data EventCall : Type 0 where
  add_consumed add_produced remove_consumed clear_events : ℕ → EventCall
  produced_start produced_end consumed_start consumed_end : EventCall
  set_incoming_event : Bool → EventCall
  set_consumer_state set_producer_state : Option (ℕ → ItemState) → EventCall

unfoldable pub event_call : EventContext → EventCall → EventContext
event_call e (add_consumed id) = record e {
  events_consumed = add_event e.events_consumed id (not e.in_add_consumed_event_transaction);
}
event_call e (add_produced id) = record e {
  events_produced = add_event e.events_produced id (not e.in_add_produced_event_transaction);
}
event_call e (remove_consumed id) = record e { events_consumed = remove_event e.events_consumed id }
event_call e (clear_events flags) = record e {
  events_produced = if has_bits flags 1 then clear_list e.events_produced else e.events_produced;
  events_consumed = if has_bits flags 2 then clear_list e.events_consumed else e.events_consumed;
}
event_call e produced_start = record e { in_add_produced_event_transaction = true }
event_call e produced_end = record e {
  in_add_produced_event_transaction = false;
  events_produced = sort_list e.events_produced;
}
event_call e consumed_start = record e { in_add_consumed_event_transaction = true }
event_call e consumed_end = record e {
  in_add_consumed_event_transaction = false;
  events_consumed = sort_list e.events_consumed;
}
event_call e (set_incoming_event f) = record e { incoming_event_set = f }
event_call e (set_consumer_state f) = record e { consumer_state_fn = f }
event_call e (set_producer_state f) = record e { producer_state_fn = f }

-- `struct lcc_accessory_address`
pub record AccessoryAddress : Type 0 where
  pub dcc_accessory_address : ℕ
  pub active : Bool

abbrev pub accessory_mask : ℕ
accessory_mask = 0x0101020000FF0000

unfoldable pub is_accessory_address : ℕ → Bool
is_accessory_address id = bit_and id accessory_mask == accessory_mask

-- `none` is LCC_ERROR_EVENT_NOT_ACCESSORY_DECODER.
unfoldable pub to_accessory_decoder : ℕ → Option AccessoryAddress
to_accessory_decoder id =
    let lower_bits = bit_and id 0xFFFF in
    let direction = u8 (shr (bit_and id 0xFF0000) 16) in
    if not (is_accessory_address id)
    then none
    else some (record {
      dcc_accessory_address = bit_or (shr 0xFF0 1) (bit_and lower_bits 7);
      active = (direction == 0xFF) && has_bits lower_bits 8;
    })

unfoldable pub to_accessory_decoder_2040 : ℕ → Option AccessoryAddress
to_accessory_decoder_2040 id =
    let addr = shr (u16 (bit_and id 0xFFF + 2 ^ 16 - 8)) 1 in
    let direction = u8 (shr (bit_and id 0xFF0000) 16) in
    if not (is_accessory_address id)
    then none
    else some (record {
      dcc_accessory_address = u16 (addr + 1);
      active = (direction == 0xFF) && has_bits id 1;
    })

-- `none` is LCC_ERROR_INVALID_ARG. Above 2043 the code shifts a negative `int` to the left, which
-- here takes its bits as they are.
unfoldable pub to_event_id_2040 : AccessoryAddress → Option ℕ
to_event_id_2040 a =
    let n = a.dcc_accessory_address in
    let addr =
      (if ltb n 2044 then u16 (u16 (shl n 1) + 6) else u16 (shl (n - 1 + 2 ^ 32 - 2044) 1)) in
    let whole = if a.active then u16 (addr + 1) else addr in
    if ltb 2048 n || (n == 0) then none else some (bit_or accessory_mask whole)
