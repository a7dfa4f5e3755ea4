-- ===== src/Lcc/Simple/Report.antt =====
-- An event that one node reports, at another node.
use train_utils.Common.{
  ℕ, ◌^◌, ◌<◌, ◌≡◌, refl, ap, ◌∙◌, arith, Bool, true, false, ◌||◌, some, List, [], ◌∷◌,
  if◌then◌else◌, bit_and, has_bits, replicate, length, not, ◌==◌,
}
use train_utils.Lcc.Frame.{
  CanFrame, set_lcb_variable_field, set_lcb_can_frame_type, set_eventid_in_data,
  get_eventid_from_data,
}
use train_utils.Lcc.Frame.Bytes.{identifiers_lem}
use train_utils.Lcc.Frame.Fields.{Fields, message-Fields}
use train_utils.Lcc.EventList.{used, contains, has_event}
use train_utils.Lcc.Event.{EventContext}
use train_utils.Lcc.Event.Invariant.{IsValid, IsReady, Finds, has_event_lem}
use train_utils.Lcc.Node.{Context, ok, error_generic, status_of, empty_frame}
use train_utils.Lcc.Simple.{
  reaction, nothing, report_frame, produce_event, handle_producer_consumer, handle_simple_protocol,
  verify_global, handle_consumer_query, handle_producer_query, identify_events,
}

report-Fields :
    (c : Context) (id : ℕ)
    → c.node_alias < 2 ^ 12
    → Fields (report_frame c id).can_id 1 0x5B4 c.node_alias
unfolding report_frame set_eventid_in_data
report-Fields c id h = message-Fields empty_frame c.node_alias 0x5B4 1 h (omega arith) (omega arith)

eight :
    (c : Context) (field : ℕ)
    → length
        (set_lcb_can_frame_type (set_lcb_variable_field empty_frame c.node_alias field) 1).bytes
      ≡ 8
unfolding set_lcb_can_frame_type set_lcb_variable_field
eight c field = refl

set_length : (f : CanFrame) (id : ℕ) → (set_eventid_in_data f id).can_len ≡ 8
unfolding set_eventid_in_data
set_length f id = refl

report-id :
    (c : Context) (id : ℕ)
    → id < 2 ^ 64
    → (get_eventid_from_data (report_frame c id) ≡ id) × ((report_frame c id).can_len ≡ 8)
unfolding report_frame
report-id c id h = (
  (identifiers_lem _ (replicate 4 0) id (eight c 0x5B4) (omega arith)).1 ∙ omega arith,
  set_length _ id,
)

report_taken :
    (bsearch : ℕ → List ℕ → Bool) (c : Context) (f : CanFrame) (source : ℕ)
    → Fields f.can_id 1 0x5B4 source
    → handle_simple_protocol bsearch c f ≡ handle_producer_consumer bsearch c f
unfolding handle_simple_protocol
report_taken bsearch c f source p =
    ap
      (λ m.
        if not (has_bits m 0x10)
        then reaction error_generic [] []
        else if m == 0x490
        then verify_global c f
        else if m == 0x8F4
        then handle_consumer_query bsearch c f
        else if m == 0x914
        then handle_producer_query bsearch c f
        else if m == 0x970
        then identify_events c
        else if m == 0x5B4
        then handle_producer_consumer bsearch c f
        else nothing)
      p.field_of

told :
    (bsearch : ℕ → List ℕ → Bool) (c : Context) (e : EventContext) (f : CanFrame) (id source : ℕ)
    → (known : Bool) → bit_and f.can_id 0xFFF ≡ source
    → get_eventid_from_data f ≡ id
    → f.can_len ≡ 8
    → c.event_context ≡ some e
    → e.incoming_event_set ≡ true
    → has_event bsearch e.events_consumed id ≡ known
    → handle_producer_consumer bsearch c f
      ≡ reaction ok [] (if c.listen_all_events || known then (source, id) ∷ [] else [])
unfolding handle_producer_consumer
told bsearch c e f id source known p i l k w h = ground (arith, p, i, l, k, w, h)

-- An event that a node produces reaches the client of another node at most once: the node writes one
-- frame, and a node that gets it, with its events in order and its client's function set, calls that
-- function once with the sender's alias and the event if it listens to all events or the event is
-- among those it consumes, and not at all otherwise.
pub report_lem :
    (bsearch : ℕ → List ℕ → Bool) (sender node : Context) (e : EventContext) (id : ℕ)
    (write : CanFrame → ℕ)
    → Finds bsearch
    → sender.node_alias < 2 ^ 12
    → id < 2 ^ 64
    → sender.write_function ≡ some write
    → node.event_context ≡ some e
    → e.incoming_event_set ≡ true
    → IsValid e
    → e.in_add_consumed_event_transaction ≡ false
    → (f : CanFrame) × (produce_event sender id ≡ reaction (status_of (write f)) (f ∷ []) [])
      × (handle_simple_protocol bsearch node f
          ≡ reaction ok [] (
              if node.listen_all_events || contains id (used e.events_consumed)
              then (sender.node_alias, id) ∷ []
              else []))
unfolding produce_event
report_lem bsearch sender node e id write finds own small w k is_set v closed =
    let f = report_frame sender id in
    let p = report-Fields sender id own in
    let held = report-id sender id small in
    let ready : IsReady e.events_consumed false = record {
      fine = v.consumed.fine;
      sorted = λ h. v.consumed.sorted closed;
    } in
    (
      f,
      rw w refl,
      report_taken bsearch node f sender.node_alias p
          ∙ told bsearch node e f id sender.node_alias (contains id (used e.events_consumed))
              p.source held.0 held.1 k is_set
              (has_event_lem bsearch finds e.events_consumed id ready),
    )
