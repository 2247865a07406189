-- ===== src/Lib.antt =====
-- live-streaming: an RTMP server that relays a publisher's video and audio to viewers, and a player
-- and a recorder that share the media pipeline in util/.
--
-- The server (server/) takes connections through libevent. The listener gives the bytes of
-- a connection to its session; the session shakes hands, takes chunks off its read buffer, puts them
-- together to messages, and handles these: a command may make it the publisher or a viewer of
-- a room, and media and metadata go to its room, which passes them on to the sessions that watch.
--
-- The player (player/) reads packets on one thread, decodes them on two, and gives the frames to the
-- renderer and the speaker of util/, each with a thread and a queue; SDL's callback takes the sound
-- from the speaker and tells the player's clock what plays, by which the renderer delays pictures. The
-- recorder (recorder/) decodes its inputs on a thread each; the pictures go through a filter, and all
-- frames to the muxer, which encodes and writes them.
--
-- Which file models what:
--   Base         names, lists, numbers and maps that the other modules share.
--   Result       how a call ends: with a value, an exception, a failed assertion (aborts),
--                undefined behaviour (faults), or without fuel (exhausted).
--   Stream       server/stream.h, server/stream.cc: ByteStream. Stream A is an operation on
--                a stream that may throw; Codec says what it is to write and to read given bytes,
--                Shrinking that a reader ends.
--   Chunk        server/chunk_message.h, server/chunk_message.cc: ChunkHeader (serialize_header,
--                deserialize_header), Message, and in Chunk/Sending ChunkSerializeHelper.
--   Command      server/command_message.h, server/command_message.cc: ActionScriptObject and
--                CommandMessage.
--   Handshake    server/handshake_message.h.
--   Control      server/control_message.h.
--   Room         server/room.h: Room, and in Room/Manager RoomManager.
--   Session      server/net.h, class Session, and the state of server/rtmp.h; Session/Chunks is the
--                chunk reader of server/rtmp.cc.
--   Server       the rest of server/rtmp.cc and server/net.cc: Commands has HandleCommandMessage,
--                Reading HandleMessage, the handshake, OnRead and OnClose, Listener the callbacks. Linked has
--                the steps that these make of the server's state, and who is in which room.
--   Queue        util/queue.h.
--   Media        what util/ reads and writes of FFmpeg's frames. Below it Resampling is
--                util/audio_resample_helper.cc, Scaling util/video_scale_helper.cc, Speaker
--                util/speaker.cc (Speaker/Device has ResetAudioDevice, Speak and Submit), Decoder
--                util/decoder.cc, Muxer InitStream of util/muxer.cc and Muxer/Muxing its thread and
--                Submit, Filter the thread and Submit of util/filter.cc, Renderer
--                util/renderer.cc; Coding is the loop over what a codec has ready, which the
--                decoder, the muxer and the filter share, Frames AVFrameWrapper of util/base.h.
--   Player       player/context.h: the clock; of player/main.cc, Player/Reading is the reading thread
--                and Player/Decoding the one that decodes sound.
--   Recorder     the flags of recorder/context.cc and InputVideoParam of recorder/base.cc;
--                Recorder/Input is Input::Decode and IsAlive.
--   Net          util/net, a library that the programs do not call yet. Octets is the class Octets of
--                octets.h with its counted blocks, and Octets/Values says what it promises, byte
--                strings that are not shared and are edited as Octets/Editing says; Stream is its OctetsStream. Receiver is
--                GenerateProtocol of neter.h and ExchangerReadFunc of session.cpp, Sender what
--                a session sends and its flags, with the steps of Sender/Steps; Delivery connects
--                the two.
--   Examples     the theorems at concrete inputs.
--
-- State is passed on explicitly. A session is named by the pointer that rooms and the listener hold,
-- as a number; World has the sessions by these and the room manager. Room's calls on sessions are
-- values of Send, which make_sends carries out. Maps are functions, except where the program
-- iterates: there a list in the program's order. Of the order in which a map gives its entries nothing
-- is assumed, but the pool of free room ids starts as 0, 1, 2, 3 and gets an id that comes back in
-- front; no theorem depends on that.
--
-- Bounds: integers are natural numbers, with % 2 ^ w where the program's can wrap around. A double
-- is its bit pattern. Reading an object has one more unit of fuel than bytes are left, and each call
-- takes a byte or ends; the loop that sends chunks has a unit for each byte, and its limit is
-- positive (128); the listener's loop has two more units than bytes, and goes on only while the
-- buffer shrinks. SDL's callback has one unit more than frames are queued, the loop over what a codec
-- has ready takes one for each thing, and the loops over the recorder's flags one for each character;
-- that these are enough is part of the theorems. The waiting loop of ResetAudioDevice has no fuel that
-- is always enough.
--
-- Parameters: whether bufferevent_write fails, and the clock (Environment). FFmpeg and SDL are records
-- of functions (Swr, Sws, AudioLibrary, Libav, Coder, Output, Device) or function arguments; where
-- a theorem relies on more than their types, this is a hypothesis of its own: that a frame is
-- converted to the format that was set in it, that a buffer can be allocated, or what a codec has
-- ready. Uninitialised memory is an argument (the random data of a new session, the options of a new
-- resampler) or a value that is read nowhere.
--
-- Not modelled: logging; sockets and the event loop; server/flv.h, which nothing uses; the
-- thread pool and the log of util/net, and of its sessions Listen, Connect, accept and Wait;
-- util/reader.cc; the calls that set FFmpeg and SDL up, and the destructors. An AVFrame is a
-- value, but in Media/Frames, which has who owns it and not what it holds; that av_frame_ref can
-- fail is not modelled. A block of Octets has the bytes up to its length; malloc gives an
-- address that was not used before, the bytes given to an edit are not those of the object
-- itself. A protocol of util/net is what Receiver/Reassembly's Codec says; Generate has a round
-- more than there are bytes. The thread pool runs one writing task at a time. frob_size has as
-- much fuel as the size, which is at most 2 ^ 63. That release unlocks a lock in a block which it has
-- deleted is undefined behaviour, unless the heap says that freed memory can be unlocked without harm. memcpy is taken as a move where the program's
-- ranges overlap, and memory does not run out but where av_image_alloc says so. The mutex of the
-- queue is held for a whole step of Queue/Runs. The doubles of the renderer and of the player's
-- clock are exact quotients, cut off. int and int64_t do not overflow in sizes and times.
pub mod Base
pub mod Result
pub mod Stream
pub mod Chunk
pub mod Command
pub mod Handshake
pub mod Control
pub mod Room
pub mod Session
pub mod Server
pub mod Queue
pub mod Media
pub mod Player
pub mod Recorder
pub mod Net
pub mod Examples
