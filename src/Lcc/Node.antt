-- ===== src/Lcc/Node.antt =====
-- LCC/lcc.c: what a node's context holds, its setters, and how frames are written.
-- The client's functions are part of the context: `write_function` gives the result of a write (0 is
-- LCC_OK) for each frame. Of `write_buffer_avail_function` there is a flag that it is not NULL, and the
-- room that it tells of is an argument. The frames that are written are part of a result. What the
-- functions do to the context is not modelled.
use train_utils.Common.{
  ℕ, Bool, true, false, Option, none, some, List, [], ◌∷◌, if◌then◌else◌, ◌==◌, bit_and, bit_or,
  replicate,
}
use train_utils.Lcc.Frame.{
  CanFrame, set_lcb_variable_field, set_lcb_can_frame_type, set_eventid_in_data,
}
use train_utils.Lcc.EventList.{used}
use train_utils.Lcc.Event.{EventContext, ItemState, valid, invalid, unknown}

pub data AliasState : Type 0 where
  not_set sent_cid fail good : AliasState

pub data NodeState : Type 0 where
  inhibited permitted : NodeState

pub data Status : Type 0 where
  ok error_invalid_arg error_unique_id_not_set error_alias_set error_alias_failure
        error_alias_tx_not_empty error_event_id_invalid error_tx error_generic error_string_too_long
        error_invalid_program_state error_datagram_in_progress error_memory_tx_in_progress :
      Status
  write_error : ℕ → Status

abbrev pub status_of : ℕ → Status
status_of r = if r == 0 then ok else write_error r

pub record Context : Type 0 where
  pub unique_id : ℕ
  pub listen_all_events : Bool
  pub node_alias_state : AliasState
  pub state : NodeState
  pub node_alias : ℕ
  pub write_function : Option (CanFrame → ℕ)
  pub write_buffer_avail_set : Bool
  pub write_buffer_size : ℕ
  pub user_data : ℕ
  pub event_context : Option EventContext

unfoldable pub new_context : Context
new_context = record {
  unique_id = 0;
  listen_all_events = false;
  node_alias_state = not_set;
  state = inhibited;
  node_alias = 0;
  write_function = none;
  write_buffer_avail_set = false;
  write_buffer_size = 0;
  user_data = 0;
  event_context = none;
}

-- What a call comes to: a status, or a call of a write function that is NULL.
pub data Outcome : Type 0 where
  returned : Status → Context → List CanFrame → Outcome
  null_call : Outcome

abbrev pub empty_frame : CanFrame
empty_frame = record { can_id = 0; can_len = 0; bytes = replicate 8 0 }

unfoldable pub set_write_function : Context → Option (CanFrame → ℕ) → Option ℕ → Status × Context
set_write_function c none avail = (error_invalid_arg, c)
set_write_function c (some write) avail = (
  ok,
  record c {
    write_function = some write;
    write_buffer_avail_set = elim avail [ none ↦ false | some n ↦ true ];
    write_buffer_size = elim avail [ none ↦ 0xA567 | some n ↦ n ];
  },
)

unfoldable pub set_unique_identifer : Context → ℕ → Status × Context
set_unique_identifer c id = (ok, record c { unique_id = bit_and id 0xFFFFFFFFFFFF })

unfoldable pub set_listen_all_events : Context → Bool → Context
set_listen_all_events c listen_all = record c { listen_all_events = listen_all }

-- Frames are written until one is refused; the result of the last write comes back.
unfoldable pub write_each : (CanFrame → ℕ) → List CanFrame → ℕ × List CanFrame
write_each write [] = (0, [])
write_each write (f ∷ fs) =
    let (r, rest) = write_each write fs in if write f == 0 then (r, f ∷ rest) else (write f, f ∷ [])

-- The identified messages of the events, as many as are written before one is refused.
unfoldable pub event_frame : Context → ℕ → ℕ → CanFrame
event_frame c mti event =
    set_eventid_in_data
      (set_lcb_can_frame_type (set_lcb_variable_field empty_frame c.node_alias (bit_or mti 4)) 1)
      event

abbrev pub producer_mti : ItemState → ℕ
producer_mti valid = 0x544
producer_mti invalid = 0x545
producer_mti unknown = 0x547

abbrev pub consumer_mti : ItemState → ℕ
consumer_mti valid = 0x4C4
consumer_mti invalid = 0x4C5
consumer_mti unknown = 0x4C7

abbrev pub ask : Option (ℕ → ItemState) → ℕ → ItemState
ask none event = unknown
ask (some f) event = f event

unfoldable pub event_frames :
    Context → (ItemState → ℕ) → Option (ℕ → ItemState) → List ℕ → List CanFrame
event_frames c mti f [] = []
event_frames c mti f (e ∷ es) = event_frame c (mti (ask f e)) e ∷ event_frames c mti f es

-- What the writes come to, and the frames that are written.
unfoldable pub send_events_produced : Context → (CanFrame → ℕ) → ℕ × List CanFrame
send_events_produced c write = elim c.event_context [
  | none ↦ (0, [])
  | some e ↦
      write_each write (event_frames c producer_mti e.producer_state_fn (used e.events_produced))
]

unfoldable pub send_events_consumed : Context → (CanFrame → ℕ) → ℕ × List CanFrame
send_events_consumed c write = elim c.event_context [
  | none ↦ (0, [])
  | some e ↦
      write_each write (event_frames c consumer_mti e.consumer_state_fn (used e.events_consumed))
]
