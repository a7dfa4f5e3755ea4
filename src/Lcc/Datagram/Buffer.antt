-- ===== src/Lcc/Datagram/Buffer.antt =====
-- The buffer that a datagram is put together in.
use train_utils.Common.{
  ℕ, ◌+◌, ◌≤◌, ◌≡◌, refl, ap, ap₂, ◌∙◌, arith, Bool, true, false, List, [], ◌∷◌, ◌++◌, Bool-cases,
  Option-cases, ltb, length, take, write_from, length-write_from, take-write_from, length-append,
  inl, inr, if◌then◌else◌,
}
use train_utils.Lcc.Frame.{CanFrame}
use train_utils.Lcc.Node.{Context, Status, ok}
use train_utils.Lcc.Datagram.{
  DatagramContext, Action, Result, result, no_function, append_bytes, respond_rejected, write_one,
  overwrite, copied,
}
use train_utils.Lcc.Datagram.Copying.{length-copied, length-overwrite, overwrite-eq, copied-eq}
use train_utils.Lcc.Datagram.Incoming.{
  Handlers, Handled, prepend, reset, deliver, answered, handle_response, then_response,
  still_handling, take_frame, handle_datagram, and_then, handle_frames,
}

pub record IsValid (d : DatagramContext) : Type 0 where
  pub size : length d.buffer ≡ 72
  pub inside : d.offset ≤ 72

pub data IsValidResult : Result → Type 0 where
  valid_none : IsValidResult no_function
  valid_result :
      (s : Status) (d : DatagramContext) (acts : List Action)
      → IsValid d
      → IsValidResult (result s d acts)

-- The bytes that are in.
pub record Holds (d : DatagramContext) (xs : List ℕ) : Type 0 where
  pub size : length d.buffer ≡ 72
  pub offset : d.offset ≡ length xs
  pub front : take (length xs) d.buffer ≡ xs

pub append_bytes-IsValid :
    (d : DatagramContext) (content : List ℕ) (len : ℕ)
    → IsValid d
    → IsValid (append_bytes d content len)
unfolding append_bytes
append_bytes-IsValid d content len v = elim (Bool-cases (ltb 72 (d.offset + len))) [
  | inl e ↦ rw e v
  | inr e ↦ rw e (record {
    size =
        length-overwrite d.buffer d.offset (copied content len)
          (ground (arith, length-copied content len, v.size, e))
        ∙ v.size;
    inside = ground (arith, e);
  })
]

prepend-IsValid :
    (acts : List Action) (r : Result) → IsValidResult r → IsValidResult (prepend acts r)
prepend-IsValid acts no_function v = v
prepend-IsValid acts (result s d later) (valid_result _ _ _ v) = valid_result s d (acts ++ later) v

reset-IsValid : (r : Result) → IsValidResult r → IsValidResult (reset r)
reset-IsValid no_function v = v
reset-IsValid (result s d acts) (valid_result _ _ _ v) =
    valid_result ok _ acts (record { size = v.size; inside = omega arith })

still_handling-IsValid : (r : Result) → IsValidResult r → IsValidResult (still_handling r)
still_handling-IsValid no_function v = v
still_handling-IsValid (result s d acts) (valid_result _ _ _ v) =
    valid_result s _ acts (record { size = v.size; inside = v.inside })

respond_rejected-IsValid :
    (c : Context) (d : DatagramContext) (alias code : ℕ)
    → IsValid d
    → IsValidResult (respond_rejected c d alias code)
unfolding respond_rejected write_one
respond_rejected-IsValid c d alias code v = elim (Option-cases c.write_function) [
  | inl w ↦ rw w valid_none
  | inr (write, w) ↦ rw w (valid_result _ _ _ (record { size = v.size; inside = v.inside }))
]

if-IsValid :
    (b : Bool) (r s : Result)
    → IsValidResult r
    → IsValidResult s
    → IsValidResult (if b then r else s)
if-IsValid true r s v w = v
if-IsValid false r s v w = w

deliver-IsValid :
    (h : Handlers) (c : Context) (d : DatagramContext) (source : ℕ)
    → IsValid d
    → IsValidResult (deliver h c d source)
unfolding deliver
deliver-IsValid h c d source v = reset-IsValid _ (
    prepend-IsValid _ _ (
      if-IsValid _ _ _ (valid_result _ _ _ v) (
        if-IsValid d.received_set _ _ (valid_result _ _ _ v)
          (respond_rejected-IsValid c d source 0 v))))

answered-IsValid :
    (d : DatagramContext) (r : Handled) (is_set : Bool) (act : Action)
    → IsValid d
    → IsValidResult (answered (record d { handling = false }) r is_set act)
answered-IsValid d (handled, acts) is_set act v =
    valid_result _ _ _ (record { size = v.size; inside = v.inside })

handle_response-IsValid :
    (h : Handlers) (c : Context) (d : DatagramContext) (f : CanFrame)
    → IsValid d
    → IsValidResult (handle_response h c d f)
unfolding handle_response
handle_response-IsValid h c d f v = search (if-IsValid, answered-IsValid, valid_result)

then_response-IsValid :
    (h : Handlers) (c : Context) (f : CanFrame) (r : Result)
    → IsValidResult r
    → IsValidResult (then_response h c f r)
then_response-IsValid h c f no_function v = v
then_response-IsValid h c f (result s d acts) (valid_result _ _ _ v) =
    prepend-IsValid acts _ (handle_response-IsValid h c d f v)

handle_datagram-IsValid :
    (h : Handlers) (c : Context) (d : DatagramContext) (f : CanFrame)
    → IsValid d
    → IsValidResult (handle_datagram h c d f)
unfolding handle_datagram take_frame
handle_datagram-IsValid h c d f v =
    let taken =
      append_bytes-IsValid (record d { handling = true }) f.bytes f.can_len
        (record { size = v.size; inside = v.inside }) in
    if-IsValid _ _ _ (handle_response-IsValid h c d f v) (
      if-IsValid _ _ _ (valid_result _ _ _ v) (
        if-IsValid _ _ _ (still_handling-IsValid _ (respond_rejected-IsValid c d _ 0x2020 v)) (
          then_response-IsValid h c f _ (
            if-IsValid _ _ _
              (deliver-IsValid h c _ _ (record { size = taken.size; inside = taken.inside }))
              (valid_result _ _ _ taken)))))

and_then-IsValid :
    (r : Result) (next : DatagramContext → Result)
    → ((d : DatagramContext) → IsValid d → IsValidResult (next d))
    → IsValidResult r
    → IsValidResult (and_then r next)
and_then-IsValid no_function next k v = v
and_then-IsValid (result s e acts) next k (valid_result _ _ _ v) = prepend-IsValid acts _ (k e v)

-- Whatever frames come in, with whatever lengths, no write goes past the 72 bytes of the buffer, and
-- the offset stays inside.
pub frames-handle-IsValid :
    (h : Handlers) (c : Context) (d : DatagramContext) (fs : List CanFrame)
    → IsValid d
    → IsValidResult (handle_frames h c d fs)
unfolding handle_frames
frames-handle-IsValid h c d [] v = valid_result ok d [] v
frames-handle-IsValid h c d (f ∷ fs) v =
    and_then-IsValid (handle_datagram h c d f) _ (λ e w. frames-handle-IsValid h c e fs w)
      (handle_datagram-IsValid h c d f v)

-- The context once `chunk` is in behind what was there.
unfoldable pub with_chunk : DatagramContext → List ℕ → DatagramContext
with_chunk d chunk = record d {
  buffer = write_from d.buffer d.offset chunk;
  offset = d.offset + length chunk;
}

pub append_bytes_lem :
    (d : DatagramContext) (content chunk : List ℕ) (len : ℕ)
    → take len content ≡ chunk
    → len ≡ length chunk
    → d.offset + length chunk ≤ 72
    → length d.buffer ≡ 72
    → append_bytes d content len ≡ with_chunk d chunk
unfolding append_bytes with_chunk
append_bytes_lem d content chunk len t l room size = elim (Bool-cases (ltb 72 (d.offset + len))) [
  | inl e ↦ absurd (ground (arith, e, l, room))
  | inr e ↦ rw e (
      ap₂ (λ bs n. record d { buffer = overwrite d.buffer d.offset bs; offset = d.offset + n })
        (copied-eq content chunk len t l) l
      ∙ ap (λ bs. record d { buffer = bs; offset = d.offset + length chunk })
          (overwrite-eq d.buffer d.offset chunk (omega (arith, size))))
]

pub with_chunk-Holds :
    (d : DatagramContext) (xs chunk : List ℕ)
    → Holds d xs
    → length xs + length chunk ≤ 72
    → Holds (with_chunk d chunk) (xs ++ chunk)
unfolding with_chunk
with_chunk-Holds d xs chunk v room = record {
  size = length-write_from d.buffer d.offset chunk ∙ v.size;
  offset = omega (arith, length-append xs chunk, v.offset);
  front =
      ap (λ n. take n (write_from d.buffer d.offset chunk)) (length-append xs chunk)
      ∙ ap (λ k. take (length xs + length chunk) (write_from d.buffer k chunk)) v.offset
      ∙ take-write_from d.buffer (length xs) chunk (omega (arith, v.size))
      ∙ ap (λ l. l ++ chunk) v.front;
}

-- Nothing is in, and no datagram is being received.
pub record IsIdle (d : DatagramContext) : Type 0 where
  pub size : length d.buffer ≡ 72
  pub empty : d.offset ≡ 0
  pub free : d.handling ≡ false

-- The context once the datagram is complete.
abbrev pub completed : DatagramContext → List ℕ → DatagramContext
completed d chunk = record (with_chunk (record d { handling = true }) chunk) {
  handling = false;
  offset = 0;
}

pub completed-IsIdle :
    (d : DatagramContext) (chunk : List ℕ) → length d.buffer ≡ 72 → IsIdle (completed d chunk)
unfolding with_chunk
completed-IsIdle d chunk h = record {
  size = length-write_from d.buffer d.offset chunk ∙ h;
  empty = refl;
  free = refl;
}

pub with_chunk-received :
    (d : DatagramContext) (chunk : List ℕ) → (with_chunk d chunk).received_set ≡ d.received_set
unfolding with_chunk
with_chunk-received d chunk = refl

pub with_chunk-handling :
    (d : DatagramContext) (chunk : List ℕ) → (with_chunk d chunk).handling ≡ d.handling
unfolding with_chunk
with_chunk-handling d chunk = refl
