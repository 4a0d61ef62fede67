-- ===== src/Tests/Capture.antt =====
-- A camera's channel, a microphone and an encoder at work.
use mathlib.Core.List.{append-nil}
use device_sdk.Base.{
  ℕ, zero, suc, ◌+◌, ◌*◌, ◌/◌, ◌≤◌, ◌<◌, List, [], ◌∷◌, ◌++◌, Option, none, some, true, ◌≡◌, refl,
  sym, arith, codes, length,
}
use device_sdk.Base.Results.{Result, ok, err, ◌>>=◌}
use device_sdk.Base.Passes.{repeat}
use device_sdk.Capture.Webcam.{Channel, WebcamReader, Taken, message, empty}
use device_sdk.Capture.Webcam.Reads.{Log, message_bytes, held, reads, reads-taken}
use device_sdk.Capture.Webcam.Frames.{Gathering, read_single_frame}
use device_sdk.Capture.Webcam.Whole.{Timely, Whole, read_single_frame-Whole}
use device_sdk.Capture.Audio.{Scaling, Thread, Encoding, resample_and_convert, process}
use device_sdk.Capture.Audio.Samples.{Samples, resample_and_convert-Samples}
use device_sdk.Capture.Audio.Blocks.{Cut, concat, process-cuts}
use device_sdk.Capture.Transcoder.{
  Ffmpeg, H264Packet, Jpeg2H264Transcoder, StreamSettings, Muxer, new, finalize, streaming, counted,
  write_h264_packets_to_mp4,
}
use device_sdk.Capture.Transcoder.Numbers.{Numbered, Counts, transcode_all, transcode_all-Counts}
use device_sdk.Capture.Transcoder.Writing.{
  contents, write_batches, joined, write_batches-write_h264_packets_to_mp4,
}

record Line : Type 0 where
  clock : ℕ
  queue : List (List ℕ)
  log : List ℕ

abbrev next_message : List (List ℕ) → Line → Taken × Line
next_message [] s = (empty, s)
next_message (m ∷ ms) s = (message m, record s { queue = ms; log = s.log ++ m })

abbrev line : Channel Line
line = record {
  try_recv = λ s. next_message s.queue s;
  now = λ s. s.clock;
  tick = λ s. record s { clock = suc s.clock };
  sleep = λ s. record s { clock = s.clock + 10_000_000 };
}

message_log :
    (ms : List (List ℕ)) (s : Line)
    → (next_message ms s).1.log ≡ s.log ++ message_bytes (next_message ms s).0
message_log [] s = sym (append-nil s.log)
message_log (m ∷ ms) s = refl

abbrev line_log : Log line
line_log = record {
  taken = λ s. s.log;
  try_recv_taken = λ s. message_log s.queue s;
  tick_taken = λ s. refl;
  sleep_taken = λ s. refl;
}

message_clock : (ms : List (List ℕ)) (s : Line) → s.clock ≤ (next_message ms s).1.clock
message_clock [] s = omega arith
message_clock (m ∷ ms) s = omega arith

message_most : (ms : List (List ℕ)) (s : Line) → (next_message ms s).1.clock ≤ s.clock + 10_000_000
message_most [] s = omega arith
message_most (m ∷ ms) s = omega arith

line-Timely : Timely line
line-Timely = record {
  tick_later = λ s. omega arith;
  try_recv_time = λ s. message_clock s.queue s;
  sleep_time = λ s. omega arith;
  longest = 10_000_000;
  tick_most = λ s. omega arith;
  try_recv_most = λ s. message_most s.queue s;
  sleep_most = λ s. omega arith;
}

-- An image in two pieces, and the start of the next one.
abbrev reader : WebcamReader Line
reader = record {
  receiver = record {
    clock = 0;
    queue = (0xFF ∷ 0xD8 ∷ 1 ∷ 2 ∷ 3 ∷ []) ∷ (4 ∷ 5 ∷ 0xFF ∷ 0xD9 ∷ []) ∷ (0xFF ∷ []) ∷ [];
    log = [];
  };
  buffer = none;
}

result_of : Option (Result (List ℕ) × Gathering Line) → Option (List ℕ)
result_of none = none
result_of (some (err e, x)) = none
result_of (some (ok f, x)) = some f

single_frame_runs :
    result_of (read_single_frame line 1 reader)
    ≡ some (0xFF ∷ 0xD8 ∷ 1 ∷ 2 ∷ 3 ∷ 4 ∷ 5 ∷ 0xFF ∷ 0xD9 ∷ [])
unfolding result_of read_single_frame repeat
single_frame_runs = refl

read_single_frame-Whole_example :
    (result : Result (List ℕ)) × ((x : Gathering Line) × ((read_single_frame line 1 reader
          ≡ some (result, x))
        × (Whole line line_log [] result x × (x.reader.receiver.clock ≤ 1_030_000_000))))
unfolding line-Timely
read_single_frame-Whole_example = read_single_frame-Whole line line_log line-Timely 1 reader

reads-taken_example :
    (reads line (2 ∷ 2 ∷ 9 ∷ []) reader).1.receiver.log
    ≡ (reads line (2 ∷ 2 ∷ 9 ∷ []) reader).0 ++ held (reads line (2 ∷ 2 ∷ 9 ∷ []) reader).1.buffer
reads-taken_example = reads-taken line line_log (2 ∷ 2 ∷ 9 ∷ []) reader refl

-- From 16000 to 48000 samples a second.
abbrev triple : Scaling
triple = record { scaled = λ n. n * 3; source = λ i. i / 3 }

resample_and_convert-Samples_example :
    Samples triple (7 ∷ 8 ∷ []) 6 (resample_and_convert triple (7 ∷ 8 ∷ []) 2)
resample_and_convert-Samples_example =
    resample_and_convert-Samples triple (7 ∷ 8 ∷ []) 2 refl (omega arith) (omega arith)

-- An encoder that numbers its frames and cannot encode the second one.
abbrev opus : ℕ → List ℕ → Option (List ℕ) × ℕ
opus zero f = (some f, 1)
opus (suc zero) f = (none, 2)
opus (suc (suc n)) f = (some f, suc (suc (suc n)))

abbrev microphone : Encoding ℕ
microphone = record { resample = λ f. f; encode = opus; connected = true }

abbrev thread : Thread ℕ
thread = record { encoder = 0; acc = []; sent = [] }

process-cuts_example :
    (last : Thread ℕ) × ((process microphone 2 ((1 ∷ 2 ∷ 3 ∷ []) ∷ (4 ∷ []) ∷ (5 ∷ []) ∷ []) thread
        ≡ some last)
      × (Cut microphone thread 2 (concat ((1 ∷ 2 ∷ 3 ∷ []) ∷ (4 ∷ []) ∷ (5 ∷ []) ∷ [])) last
          × (length last.acc < 2)))
process-cuts_example =
    process-cuts microphone 2 ((1 ∷ 2 ∷ 3 ∷ []) ∷ (4 ∷ []) ∷ (5 ∷ []) ∷ []) thread refl
      (omega arith) refl

-- An encoder that keeps the numbers of its frames, and refuses the first one.
abbrev accept : ℕ → List ℕ → Result (Unit {0}) × List ℕ
accept zero ns = (err (codes "refused"), ns)
accept (suc n) ns = (ok tt, suc n ∷ ns)

abbrev encoder : Ffmpeg ℕ (List ℕ) (List ℕ)
encoder = record {
  stamp = λ n. n;
  decode = λ bytes. ok bytes;
  scale = λ f. ok f;
  width = λ f. 4;
  height = λ f. 3;
  send_frame = λ f n ns. accept n ns;
  send_eof = λ ns. (ok tt, ns);
  receive_packet = λ ns. (none, ns);
  queued = λ ns. 0;
}

accept_taken : (n : ℕ) (ns : List ℕ) → (accept n ns).0 ≡ ok tt → (accept n ns).1 ≡ n ∷ ns
accept_taken zero ns e = cc
accept_taken (suc n) ns e = refl

accept_refused : (n : ℕ) (ns x : List ℕ) → (accept n ns).0 ≡ err x → (accept n ns).1 ≡ ns
accept_refused zero ns x e = refl
accept_refused (suc n) ns x e = cc

abbrev numbered : Numbered encoder
numbered = record {
  numbers = λ ns. ns;
  taken = λ f n ns e. accept_taken n ns e;
  refused = λ f n ns x e. accept_refused n ns x e;
  received_numbers = λ ns. refl;
  fewer = λ ns p e. cc;
}

abbrev transcoder : Jpeg2H264Transcoder (List ℕ)
transcoder = record { width = 4; height = 3; encoder = []; frame_count = 0 }

abbrev image : List ℕ
image = 0xFF ∷ 0xD8 ∷ 1 ∷ 2 ∷ 3 ∷ 4 ∷ 5 ∷ 6 ∷ 0xFF ∷ 0xD9 ∷ []

transcode_all-Counts_example :
    (last : Jpeg2H264Transcoder (List ℕ)) × ((transcode_all encoder
          (image ∷ [] ∷ image ∷ image ∷ [])
          transcoder
        ≡ some last)
      × Counts encoder numbered 4 last)
transcode_all-Counts_example =
    transcode_all-Counts encoder numbered (image ∷ [] ∷ image ∷ image ∷ []) 0 transcoder
      (tt, omega arith) (omega arith)

-- A file that keeps its settings and its packets' bytes.
abbrev file : Muxer ℕ (List StreamSettings × List (List ℕ))
file = record {
  output = λ s. ok (s ∷ [], []);
  write_interleaved = λ p (s, w). ok (s, w ++ p.content ∷ []);
  write_trailer = λ (s, w). ok (s, w ++ [] ∷ []);
}

abbrev packet : ℕ → H264Packet ℕ
packet n = record { content = n ∷ []; pts = n; dts = n; is_keyframe = true }

abbrev batches : List (List (H264Packet ℕ))
batches = (packet 1 ∷ packet 2 ∷ []) ∷ [] ∷ (packet 3 ∷ []) ∷ []

write_batches-write_h264_packets_to_mp4_example :
    ((new file 4 3 30 >>= (λ w. write_batches file batches w >>= finalize file))
      ≡ (file.output (streaming 4 3 30) >>= contents file (joined file batches)))
    × (write_h264_packets_to_mp4 file (joined file batches) 4 3 30 ≡ (
        file.output (counted (length (joined file batches)) 4 3 30)
        >>= contents file (joined file batches)))
write_batches-write_h264_packets_to_mp4_example =
    write_batches-write_h264_packets_to_mp4 file batches 4 3 30
