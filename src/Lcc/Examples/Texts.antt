-- ===== src/Lcc/Examples/Texts.antt =====
-- Theorems on the text of frames at concrete inputs.
use train_utils.Common.{◌≡◌, refl, arith, true, some, [], ◌∷◌, ◌++◌}
use train_utils.Lcc.Frame.{CanFrame}
use train_utils.Lcc.Gridconnect.{
  Gridconnect, gridconnect_new, canframe_to_gridconnect, gridconnect_to_canframe, incoming_data,
}
use train_utils.Lcc.Gridconnect.Text.{
  IsFrame, read_frame, gridconnect_to_canframe-canframe_to_gridconnect,
}
use train_utils.Lcc.Gridconnect.Stream.{follow, joined, in_pieces, pieces_lem}
use train_utils.Lcc.Gridconnect.Frames.{IsWaiting, stream, stream_lem}

abbrev three : CanFrame
three = record {
  can_id = 0x195B4123;
  can_len = 3;
  bytes = 0x05 ∷ 0xA1 ∷ 0xFF ∷ 0 ∷ 0 ∷ 7 ∷ 0 ∷ 0 ∷ [];
}

three-IsFrame : IsFrame three
three-IsFrame = record {
  id = omega arith;
  len = omega arith;
  eight = refl;
  values = (
    omega arith,
    (
      omega arith,
      (omega arith, (omega arith, (omega arith, (omega arith, (omega arith, (omega arith, tt)))))),
    ),
  );
}

gridconnect_to_canframe-canframe_to_gridconnect_example :
    gridconnect_to_canframe (canframe_to_gridconnect three 40 ++ (0 ∷ 1 ∷ 2 ∷ []))
    ≡ some (read_frame three)
gridconnect_to_canframe-canframe_to_gridconnect_example =
    gridconnect_to_canframe-canframe_to_gridconnect three 40 (1 ∷ 2 ∷ []) three-IsFrame
      (omega arith)

abbrev waiting : Gridconnect
unfolding gridconnect_new
waiting = record gridconnect_new { frame_parsed_set = true }

pieces_lem_example :
    in_pieces (waiting, []) ((10 ∷ 58 ∷ 88 ∷ []) ∷ (49 ∷ 78 ∷ 59 ∷ []) ∷ [])
    ≡ follow (waiting, []) (joined ((10 ∷ 58 ∷ 88 ∷ []) ∷ (49 ∷ 78 ∷ 59 ∷ []) ∷ []))
pieces_lem_example = pieces_lem (waiting, []) ((10 ∷ 58 ∷ 88 ∷ []) ∷ (49 ∷ 78 ∷ 59 ∷ []) ∷ [])

stream_lem_example :
    (e : Gridconnect) × (incoming_data waiting (stream ((13 ∷ 10 ∷ [], three) ∷ ([], three) ∷ []))
      ≡ (e, read_frame three ∷ read_frame three ∷ []))
    × IsWaiting e
unfolding waiting gridconnect_new
stream_lem_example =
    stream_lem ((13 ∷ 10 ∷ [], three) ∷ ([], three) ∷ []) waiting
      (((ground arith, (ground arith, tt)), three-IsFrame), ((tt, three-IsFrame), tt))
      (record { empty = refl; told = refl; size = refl })
