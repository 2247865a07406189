-- ===== src/Examples/Inputs.antt =====
-- The recorder's inputs and its flags, and the player's reading thread.
use live_streaming.Base.{
  ℕ, zero, suc, pos, ◌≡◌, refl, true, false, List, [], ◌∷◌, none, some, arith, codes,
}
use live_streaming.Result.{ok}
use live_streaming.Media.{Sample}
use live_streaming.Media.Scaling.{live, new_pixel_data}
use live_streaming.Media.Coding.{Received, received, again}
use live_streaming.Recorder.{input_video_param, InputVideoParam, context_params, decimal_value}
use live_streaming.Recorder.Fields.{input_video_param-reads}
use live_streaming.Recorder.Input
use live_streaming.Player.Reading
use live_streaming.Examples.Helpers.{millis, planar}

abbrev items : List (List ℕ)
items = codes "1" ∷ [] ∷ codes "0:a" ∷ []

input_video_param-reads_example :
    input_video_param (codes "1:4x2:uy:20")
    ≡ some (record {
      url = codes "1";
      input_w_x_h = codes "4x2";
      pix_fmt = codes "uy";
      framerate = pos 20;
    })
unfolding decimal_value
input_video_param-reads_example =
    input_video_param-reads (codes "1") (codes "4x2") (codes "uy") (codes "20")
      ((refl, tt), omega arith) ((refl, (refl, (refl, tt))), omega arith)
      ((refl, (refl, tt)), omega arith) ((refl, (refl, tt)), omega arith) (omega arith)
      (omega arith)

-- The flags as they are unless the user sets them: two videos and one audio.
default_flags :
    (main minor : InputVideoParam) × (audio : List ℕ) × (context_params
        (codes "1:1280x720:uyvy422:20,0:1280x720:uyvy422:20")
        (codes ":1")
      ≡ ok (some ((main, minor), audio)))
unfolding context_params
default_flags = (
  record {
    url = codes "1";
    input_w_x_h = codes "1280x720";
    pix_fmt = codes "uyvy422";
    framerate = pos 20;
  },
  record {
    url = codes "0";
    input_w_x_h = codes "1280x720";
    pix_fmt = codes "uyvy422";
    framerate = pos 20;
  },
  codes ":1",
  refl,
)

abbrev rounds : List (Reading.Round ℕ)
rounds =
    Reading.reads (pos 0) 10
    ∷ Reading.reads (pos 1) 20
    ∷ Reading.reads (pos 2) 30
    ∷ Reading.reads (pos 0) 11
    ∷ Reading.fails
    ∷ []

abbrev no_packets : Reading.Queues ℕ
no_packets = record {
  video = record { q = []; capacity = 0 };
  audio = record { q = []; capacity = 0 };
  quit_flag = false;
}

read_packets-Routes_example :
    Reading.Routes
      (pos 0)
      (pos 1)
      rounds
      no_packets
      (Reading.read_packets (pos 0) (pos 1) rounds no_packets)
read_packets-Routes_example =
    Reading.read_packets-Routes (pos 0) (pos 1) rounds no_packets (ground arith)

-- A packet is a number of frames.
abbrev frames : ℕ → Received Sample × ℕ
frames zero = (again, 0)
frames (suc n) = (received planar, n)

abbrev device : Input.Device ℕ ℕ
device = record {
  stream_idx = pos 1;
  time_base = millis;
  audio_codec = record { send = λ ctx p. some p; receive = frames };
  video_codec = record { send = λ ctx p. none; receive = λ ctx. (again, ctx) };
  av_image_alloc = λ w h fmt p. (pos 1, live);
  fuel = 10;
}

abbrev input : Input.Input ℕ
input = record {
  input_type = Input.audio_input;
  is_alive = true;
  dec_ctx = 0;
  pixel_data = new_pixel_data;
  received = [];
}

abbrev readings : List (Input.Reading ℕ)
readings =
    Input.reads (pos 1) 2
    ∷ Input.retries
    ∷ Input.reads (pos 0) 5
    ∷ Input.reads (pos 1) 1
    ∷ Input.kills
    ∷ Input.reads (pos 1) 3
    ∷ []

decode-own_example :
    Input.decode device readings input ≡ Input.decode device (Input.own device readings) input
decode-own_example = Input.decode-own device readings input
