-- ===== src/Command/Marker.antt =====
-- server/command_message.h: the enumeration ActionScriptObject::Type.
use live_streaming.Base.{ℕ}

abbrev pub double : ℕ
double = 0

abbrev pub boolean : ℕ
boolean = 1

abbrev pub string : ℕ
string = 2

abbrev pub object : ℕ
object = 3

abbrev pub null_type : ℕ
null_type = 5

abbrev pub ecma_array : ℕ
ecma_array = 8

abbrev pub end : ℕ
end = 9

abbrev pub uninit : ℕ
uninit = 255
