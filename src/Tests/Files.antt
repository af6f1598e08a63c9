-- ===== src/Tests/Files.antt =====
-- The theorem on the recorder at a concrete input.
use tele_portal.Audio.Recorder.{RecorderEvent, from_left, from_right, recording, tick}
use tele_portal.Audio.Recorder.Files.{IsFile, empty_tapes, recording-IsFile}
use tele_portal.Audio.Recorder.Tapes.{tape_all}
use tele_portal.Common.{List, [], ◌∷◌}

abbrev talk : List RecorderEvent
talk =
    from_left (1 ∷ 2 ∷ 3 ∷ [])
    ∷ from_right (7 ∷ 8 ∷ [])
    ∷ from_left (4 ∷ 5 ∷ 6 ∷ 9 ∷ 9 ∷ 9 ∷ [])
    ∷ tick
    ∷ from_right (10 ∷ 11 ∷ [])
    ∷ []

recording-IsFile_example : IsFile 4 (tape_all 4 talk empty_tapes) (recording 4 talk)
recording-IsFile_example = recording-IsFile 4 talk
