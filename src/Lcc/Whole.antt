-- ===== src/Lcc/Whole.antt =====
-- lcc_context_incoming_frame of LCC/lcc.c with the handlers that it calls.
-- A context and a frame that are NULL are left out. The contexts for memory are the parameter
-- `Handlers` of Lcc/Datagram/Incoming, and `bsearch` is a parameter.
pub mod Others
use train_utils.Common.{ℕ, Bool, true, false, Option, none, some, List, [], ◌∷◌, ◌++◌, map}
use train_utils.Lcc.Frame.{CanFrame}
use train_utils.Lcc.Node.{Context, Status, ok}
use train_utils.Lcc.Context.{
  Reply, reply, null_write, Handler, nobody, datagram, simple, addressed, Incoming, done, passed_on,
  incoming_frame,
}
use train_utils.Lcc.Simple.{Reaction, reaction, handle_simple_protocol}
use train_utils.Lcc.Simple
use train_utils.Lcc.Addressed.{SimpleInfo, Protocols, handle_addressed}
use train_utils.Lcc.Datagram.{DatagramContext, Action, Result, result}
use train_utils.Lcc.Datagram
use train_utils.Lcc.Datagram.Incoming.{Handlers, handle_datagram}

-- A node with what its context points to.
pub record Station : Type 0 where
  pub context : Context
  pub info : SimpleInfo
  pub protocols : Protocols
  pub datagram_context : Option DatagramContext

-- A frame that is written, a call of the client's function for events with the sender's alias and the
-- event, or what the handler of datagrams does.
pub data Effect : Type 0 where
  sends : CanFrame → Effect
  reports : ℕ × ℕ → Effect
  acts : Action → Effect

-- What a frame comes to; `none` is a call of a write function that is NULL.
abbrev pub Received : Type 0
Received = Option (Status × Station × List Effect)

abbrev pub of_reaction : Station → List Effect → Reaction → Received
of_reaction s first Simple.no_function = none
of_reaction s first (reaction r fs told) = some (r, s, first ++ (map sends fs ++ map reports told))

abbrev pub of_result : Station → List Effect → Result → Received
of_result s first Datagram.no_function = none
of_result s first (result r d as_done) =
    some (r, record s { datagram_context = some d }, first ++ map acts as_done)

abbrev is_there : Option DatagramContext → Bool
is_there none = false
is_there (some d) = true

-- The handler of datagrams returns at once where there is no context for them.
abbrev pub handle_datagram_in :
    Handlers → Station → List Effect → CanFrame → Option DatagramContext → Received
handle_datagram_in h s first f none = some (ok, s, first)
handle_datagram_in h s first f (some d) = of_result s first (handle_datagram h s.context d f)

abbrev pub handle_by :
    (ℕ → List ℕ → Bool) → Handlers → Station → List Effect → CanFrame → Handler → Received
handle_by bsearch h s first f datagram = handle_datagram_in h s first f s.datagram_context
handle_by bsearch h s first f simple =
    of_reaction s first (handle_simple_protocol bsearch s.context f)
handle_by bsearch h s first f addressed = of_reaction s first (
    handle_addressed s.context (record s.protocols { datagram_set = is_there s.datagram_context })
      s.info f)
handle_by bsearch h s first f nobody = some (ok, s, first)

abbrev pub finish : (ℕ → List ℕ → Bool) → Handlers → Station → CanFrame → Incoming → Received
finish bsearch h s f (done null_write) = none
finish bsearch h s f (done (reply c fs)) = some (ok, record s { context = c }, map sends fs)
finish bsearch h s f (passed_on who c fs) =
    handle_by bsearch h (record s { context = c }) (map sends fs) f who

unfoldable pub station_frame : (ℕ → List ℕ → Bool) → Handlers → Station → CanFrame → Received
station_frame bsearch h s f = finish bsearch h s f (incoming_frame s.context f)
