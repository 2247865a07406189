-- ===== src/Room.antt =====
-- server/room.h, class Room: the visitors of a live room, and what a late one is sent first.
-- A session pointer is a number, and a call on a session is a `Send`, made in the order of the list.
pub mod Manager
pub mod Cache
pub mod Joining
pub mod Leaving
use live_streaming.Base.{
  ℕ, ◌+◌, ◌/◌, Bool, true, false, List, [], ◌∷◌, ◌++◌, map, ◌==◌, ◌&&◌, ◌||◌, if◌then◌else◌, length,
  not, Option, none, some,
}
use live_streaming.Result.{Result, ok, faults}

-- RTMPSession::SendMetaData and SendMediaData.
pub data Send : Type 0 where
  send_meta_data : ℕ → List ℕ → Send
  send_media_data : ℕ → ℕ → ℕ → List ℕ → Send

-- Room::State
pub record VisitorState : Type 0 where
  pub has_sent_audio : Bool
  pub has_sent_video : Bool

abbrev pub new_visitor : VisitorState
new_visitor = record { has_sent_audio = false; has_sent_video = false }

-- A cached video message: its timestamp and payload.
abbrev pub Frame : Type 0
Frame = ℕ × List ℕ

-- `visitors` is listed in the order in which the program iterates over it.
pub record Room : Type 0 where
  pub meta_payload : List ℕ
  pub is_alive : Bool
  pub aac_header_payload : List ℕ
  pub cached_video_payload : List Frame
  pub visitors : List (ℕ × VisitorState)

unfoldable pub new_room : Room
new_room = record {
  meta_payload = [];
  is_alive = true;
  aac_header_payload = [];
  cached_video_payload = [];
  visitors = [];
}

unfoldable pub meta_to_visitors : List ℕ → List (ℕ × VisitorState) → List Send
meta_to_visitors payload [] = []
meta_to_visitors payload ((session, state) ∷ rest) =
    send_meta_data session payload ∷ meta_to_visitors payload rest

unfoldable pub init_meta_data : List ℕ → Room → Room × List Send
unfolding meta_to_visitors
init_meta_data mp r = (record r { meta_payload = mp }, meta_to_visitors mp r.visitors)

-- (payload[0] >> 4) == 1, of a video message
abbrev pub is_key_frame : List ℕ → Bool
is_key_frame [] = false
is_key_frame (first ∷ rest) = first / 16 == 1

-- (payload[0] >> 4) == 10 && payload[1] == 0, of an audio message; a lone first byte is read past.
unfoldable pub is_aac_seq_header : List ℕ → Result Bool
is_aac_seq_header [] = faults
is_aac_seq_header (first ∷ []) = if first / 16 == 10 then faults else ok false
is_aac_seq_header (first ∷ second ∷ rest) = ok (first / 16 == 10 && second == 0)

-- The audio loop: whom the message goes to, and what is noted of it.
unfoldable pub audio_to_visitors :
    Bool → ℕ → List ℕ → List (ℕ × VisitorState) → List (ℕ × VisitorState) × List Send
audio_to_visitors header timestamp payload [] = ([], [])
audio_to_visitors header timestamp payload ((session, state) ∷ rest) =
    let (visitors, sends) = audio_to_visitors header timestamp payload rest in
    if state.has_sent_audio || header
    then (
      (session, record state { has_sent_audio = true }) ∷ visitors,
      send_media_data session 8 timestamp payload ∷ sends,
    )
    else ((session, state) ∷ visitors, sends)

-- The video loop.
unfoldable pub video_to_visitors :
    Bool → ℕ → List ℕ → List (ℕ × VisitorState) → List (ℕ × VisitorState) × List Send
video_to_visitors key timestamp payload [] = ([], [])
video_to_visitors key timestamp payload ((session, state) ∷ rest) =
    let (visitors, sends) = video_to_visitors key timestamp payload rest in
    if state.has_sent_video || key
    then (
      (session, record state { has_sent_video = true }) ∷ visitors,
      send_media_data session 9 timestamp payload ∷ sends,
    )
    else ((session, state) ∷ visitors, sends)

unfoldable pub add_video : ℕ → List ℕ → Room → Room × List Send
unfolding video_to_visitors
add_video timestamp payload r =
    let key = is_key_frame payload in
    let kept = if key then [] else r.cached_video_payload in
    let (visitors, sends) = video_to_visitors key timestamp payload r.visitors in
    (
      record r { cached_video_payload = kept ++ (timestamp, payload) ∷ []; visitors = visitors },
      sends,
    )

unfoldable pub add_audio : Bool → ℕ → List ℕ → Room → Room × List Send
unfolding audio_to_visitors
add_audio header timestamp payload r =
    let (visitors, sends) = audio_to_visitors header timestamp payload r.visitors in
    (
      record r {
        aac_header_payload = if header then payload else r.aac_header_payload;
        visitors = visitors;
      },
      sends,
    )

unfoldable pub add_data : ℕ → ℕ → List ℕ → Room → Result (Room × List Send)
unfolding add_video add_audio is_aac_seq_header
add_data type timestamp payload r =
    if length payload == 0
    then ok (r, [])
    else if type == 9
    then ok (add_video timestamp payload r)
    else if type == 8
    then elim (is_aac_seq_header payload) [
      | ok header ↦ ok (add_audio header timestamp payload r)
      | _ ↦ faults
    ]
    else ok (r, [])

unfoldable pub is_visitor : ℕ → List (ℕ × VisitorState) → Bool
is_visitor session [] = false
is_visitor session ((s, state) ∷ rest) = s == session || is_visitor session rest

unfoldable pub cached_to : ℕ → List Frame → List Send
cached_to session [] = []
cached_to session ((timestamp, payload) ∷ rest) =
    send_media_data session 9 timestamp payload ∷ cached_to session rest

-- visitors_.insert, whose flag is false for a session that is there already.
unfoldable pub insert_visitor :
    ℕ → VisitorState → List (ℕ × VisitorState) → List (ℕ × VisitorState) × Bool
unfolding is_visitor
insert_visitor session state visitors =
    if is_visitor session visitors
    then (visitors, false)
    else (visitors ++ (session, state) ∷ [], true)

-- What a session is sent when it enters: the meta data, the AAC header, the cached video.
unfoldable pub welcome : ℕ → Room → List Send
unfolding cached_to
welcome session r =
    (if length r.meta_payload == 0 then [] else send_meta_data session r.meta_payload ∷ [])
    ++ ((if length r.aac_header_payload == 0
          then []
          else send_media_data session 8 0 r.aac_header_payload ∷ [])
        ++ (if length r.cached_video_payload == 0
            then []
            else cached_to session r.cached_video_payload))

-- What the room notes of it.
unfoldable pub welcomed : Room → VisitorState
welcomed r = record {
  has_sent_audio = not (length r.aac_header_payload == 0);
  has_sent_video = not (length r.cached_video_payload == 0);
}

unfoldable pub enter : ℕ → Room → Room × Bool × List Send
unfolding insert_visitor
enter session r =
    let (visitors, entered) = insert_visitor session (welcomed r) r.visitors in
    if r.is_alive
    then (record r { visitors = visitors }, entered, welcome session r)
    else (r, false, [])

unfoldable pub erase_visitor : ℕ → List (ℕ × VisitorState) → List (ℕ × VisitorState)
erase_visitor session [] = []
erase_visitor session ((s, state) ∷ rest) =
    if s == session then erase_visitor session rest else (s, state) ∷ erase_visitor session rest

unfoldable pub leave : ℕ → Room → Room
unfolding erase_visitor
leave session r = if r.is_alive then record r { visitors = erase_visitor session r.visitors } else r
