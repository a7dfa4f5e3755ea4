-- ===== src/Lcc/Simple.antt =====
-- LCC/lcc-simple.c: messages to all nodes; and the event report of LCC/lcc-event.c.
-- A context or a frame that is NULL is left out. `bsearch` is a parameter.
pub mod Report
use train_utils.Common.{
  ℕ, Bool, true, false, not, ◌&&◌, ◌||◌, Option, none, some, List, [], ◌∷◌, if◌then◌else◌, ◌==◌,
  ◌!=◌, bit_and, bit_or, has_bits, shr,
}
use train_utils.Lcc.Frame.{
  CanFrame, set_lcb_variable_field, set_lcb_can_frame_type, set_nodeid_in_data,
  get_node_id_from_data, set_eventid_in_data, get_eventid_from_data,
}
use train_utils.Lcc.EventList.{has_event}
use train_utils.Lcc.Event.{EventContext}
use train_utils.Lcc.Node.{
  Context, Status, ok, error_generic, error_event_id_invalid, status_of, empty_frame, event_frame,
  producer_mti, consumer_mti, ask, send_events_produced,
}

-- What comes of a message: a status, the frames that are written, and the calls of the client's
-- function for events, with the sender's alias and the event.
pub data Reaction : Type 0 where
  reaction : Status → List CanFrame → List (ℕ × ℕ) → Reaction
  no_function : Reaction

abbrev pub nothing : Reaction
nothing = reaction ok [] []

-- The two guards of the queries: a write function and a context for events.
abbrev with_events : Context → ((CanFrame → ℕ) → EventContext → Reaction) → Reaction
with_events c next = elim c.write_function [
  | none ↦ nothing
  | some write ↦ elim c.event_context [ none ↦ nothing | some e ↦ next write e ]
]

abbrev sends : (CanFrame → ℕ) → CanFrame → Reaction
sends write f = reaction (status_of (write f)) (f ∷ []) []

unfoldable pub handle_producer_query : (ℕ → List ℕ → Bool) → Context → CanFrame → Reaction
handle_producer_query bsearch c f = with_events c (λ write e.
    let id = get_eventid_from_data f in
    if f.can_len != 8
    then reaction error_event_id_invalid [] []
    else if has_event bsearch e.events_produced id
    then sends write (event_frame c (producer_mti (ask e.producer_state_fn id)) id)
    else nothing)

unfoldable pub handle_consumer_query : (ℕ → List ℕ → Bool) → Context → CanFrame → Reaction
handle_consumer_query bsearch c f = with_events c (λ write e.
    let id = get_eventid_from_data f in
    if f.can_len != 8
    then reaction error_event_id_invalid [] []
    else if has_event bsearch e.events_consumed id
    then sends write (event_frame c (consumer_mti (ask e.consumer_state_fn id)) id)
    else nothing)

unfoldable pub handle_producer_consumer : (ℕ → List ℕ → Bool) → Context → CanFrame → Reaction
handle_producer_consumer bsearch c f = elim c.event_context [
  | none ↦ nothing
  | some e ↦
      let id = get_eventid_from_data f in
      if not e.incoming_event_set
      then nothing
      else if f.can_len != 8
      then reaction error_event_id_invalid [] []
      else if c.listen_all_events || has_event bsearch e.events_consumed id
      then reaction ok [] ((bit_and f.can_id 0xFFF, id) ∷ [])
      else nothing
]

unfoldable pub verified_frame : Context → CanFrame
verified_frame c =
    set_nodeid_in_data
      (set_lcb_can_frame_type (set_lcb_variable_field empty_frame c.node_alias (bit_or 0x170 0x10))
        1)
      c.unique_id

-- The result of the write is not looked at.
unfoldable pub verify_global : Context → CanFrame → Reaction
verify_global c f =
    if (f.can_len == 6) && (get_node_id_from_data f != c.unique_id)
    then nothing
    else elim c.write_function [
      | none ↦ no_function
      | some write ↦ reaction ok (verified_frame c ∷ []) []
    ]

unfoldable pub identify_events : Context → Reaction
identify_events c = elim c.write_function [
  | none ↦ nothing
  | some write ↦ let (r, sent) = send_events_produced c write in reaction (status_of r) sent []
]

unfoldable pub handle_simple_protocol : (ℕ → List ℕ → Bool) → Context → CanFrame → Reaction
handle_simple_protocol bsearch c f =
    let mti = shr (bit_and f.can_id 0x00FFF000) 12 in
    if not (has_bits mti 0x10)
    then reaction error_generic [] []
    else if mti == 0x490
    then verify_global c f
    else if mti == 0x8F4
    then handle_consumer_query bsearch c f
    else if mti == 0x914
    then handle_producer_query bsearch c f
    else if mti == 0x970
    then identify_events c
    else if mti == 0x5B4
    then handle_producer_consumer bsearch c f
    else nothing

-- The frame that reports an event.
unfoldable pub report_frame : Context → ℕ → CanFrame
report_frame c id =
    set_eventid_in_data
      (set_lcb_can_frame_type
        (set_lcb_variable_field empty_frame c.node_alias (bit_or (bit_or 0x5B4 0x10) 4)) 1)
      id

unfoldable pub produce_event : Context → ℕ → Reaction
produce_event c id = elim c.write_function [
  | none ↦ no_function
  | some write ↦ sends write (report_frame c id)
]
