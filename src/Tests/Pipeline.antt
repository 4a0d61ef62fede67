-- ===== src/Tests/Pipeline.antt =====
-- The tasks of a webcam's stream: two frames, a stop while the writer has the batch of the first, and a
-- failing write.
use device_sdk.Base.{ℕ, suc, [], ◌∷◌, true, false, ◌≡◌, refl}
use device_sdk.RtcClient.Pipeline.{
  Transcoding, Pipeline, capture, receive_next, transcode_next, take_next, write_next, stop,
  started, begins, captures, receives, transcodes, takes, writes, stops,
}
use device_sdk.RtcClient.Pipeline.Offered.{IsOrdered}
use device_sdk.RtcClient.Pipeline.Order.{Reached-IsOrdered}

-- A transcoder that numbers its packets.
abbrev numbering : Transcoding ℕ
numbering = record {
  transcode = λ frame n. ((n ∷ frame) ∷ [] ∷ (n ∷ []) ∷ [], suc n);
  flush = λ n. (n ∷ []) ∷ [];
}

abbrev streamed : Pipeline ℕ
streamed = write_next numbering true (
    write_next numbering true (
      stop numbering (
        write_next numbering false (
          take_next numbering (
            transcode_next numbering (
              receive_next numbering (
                capture numbering (8 ∷ [])
                  (capture numbering (7 ∷ []) (started numbering true 1)))))))))

streamed_track : streamed.track ≡ (1 ∷ []) ∷ []
unfolding stop write_next take_next transcode_next receive_next capture started
streamed_track = refl

streamed_offered : streamed.offered ≡ (1 ∷ 7 ∷ []) ∷ (1 ∷ []) ∷ []
unfolding stop write_next take_next transcode_next receive_next capture started
streamed_offered = refl

Reached-IsOrdered_example : IsOrdered numbering true 1 ((7 ∷ []) ∷ (8 ∷ []) ∷ []) streamed
Reached-IsOrdered_example = Reached-IsOrdered numbering true 1 ((7 ∷ []) ∷ (8 ∷ []) ∷ []) streamed (
    writes _ _ true (
      writes _ _ true (
        stops _ _ (
          writes _ _ false (
            takes _ _ (
              transcodes _ _
                (receives _ _ (captures _ _ (8 ∷ []) (captures _ _ (7 ∷ []) begins)))))))))
