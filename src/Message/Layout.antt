-- ===== src/Message/Layout.antt =====
-- `s_message` of src/common/message.h: packed structs, so that the place of a field is the sum of
-- the sizes of the fields before it. A struct is the list of its fields' sizes. Offsets count from
-- the start of `s_message`, whose header takes the first five bytes.
use pcsc_proxy_android.Prelude.{ℕ, zero, suc, ◌+◌, ◌*◌, List, [], ◌∷◌}

abbrev pub max_message_len : ℕ
max_message_len = 65 * 1024

abbrev pub max_buffer_len : ℕ
max_buffer_len = 4096

-- `MAX_READERNAME` and `MAX_ATR_SIZE` of jni/pcsclite.h
abbrev pub max_readername : ℕ
max_readername = 128

abbrev pub max_atr_size : ℕ
max_atr_size = 33

-- `sizeof` of a packed struct
abbrev pub size_of : List ℕ → ℕ
size_of [] = 0
size_of (n ∷ s) = n + size_of s

-- the place of field number `i`
abbrev pub offset_in : List ℕ → ℕ → ℕ
offset_in s zero = 0
offset_in [] (suc i) = 0
offset_in (n ∷ s) (suc i) = n + offset_in s i

abbrev pub msg_header : List ℕ
msg_header = 1 ∷ 4 ∷ []

abbrev pub header_type : ℕ
header_type = offset_in msg_header 0

abbrev pub header_len : ℕ
header_len = offset_in msg_header 1

-- `PP_MSG_SIZE`
abbrev pub msg_size : List ℕ → ℕ
msg_size s = size_of msg_header + size_of s

-- Field `i` of a payload struct, counted from the start of the message.
abbrev pub field : List ℕ → ℕ → ℕ
field s i = size_of msg_header + offset_in s i

abbrev pub establish : List ℕ
establish = 4 ∷ 4 ∷ 4 ∷ []

abbrev pub release : List ℕ
release = 4 ∷ 4 ∷ []

abbrev pub isvalid : List ℕ
isvalid = 4 ∷ 4 ∷ []

abbrev pub settimeout : List ℕ
settimeout = 4 ∷ 4 ∷ 4 ∷ []

abbrev pub connect : List ℕ
connect = 4 ∷ max_readername ∷ 4 ∷ 4 ∷ 4 ∷ 4 ∷ 4 ∷ []

abbrev pub reconnect : List ℕ
reconnect = 4 ∷ 4 ∷ 4 ∷ 4 ∷ 4 ∷ 4 ∷ []

abbrev pub disconnect : List ℕ
disconnect = 4 ∷ 4 ∷ 4 ∷ []

abbrev pub begin : List ℕ
begin = 4 ∷ 4 ∷ []

abbrev pub end : List ℕ
end = 4 ∷ 4 ∷ 4 ∷ []

abbrev pub cancel : List ℕ
cancel = 4 ∷ 4 ∷ []

abbrev pub status : List ℕ
status = 4 ∷ max_readername ∷ 4 ∷ 4 ∷ 4 ∷ max_atr_size ∷ 4 ∷ 4 ∷ []

abbrev pub readerstate : List ℕ
readerstate = max_readername ∷ 4 ∷ 4 ∷ max_atr_size ∷ 4 ∷ []

abbrev pub getstatuschange : List ℕ
getstatuschange = 4 ∷ 4 ∷ 4 ∷ 4 ∷ size_of readerstate ∷ []

abbrev pub transmit : List ℕ
transmit = 4 ∷ 4 ∷ 4 ∷ 4 ∷ 4 ∷ 4 ∷ 4 ∷ 4 ∷ 1 ∷ []

abbrev pub control : List ℕ
control = 4 ∷ 4 ∷ max_buffer_len ∷ 4 ∷ max_buffer_len ∷ 4 ∷ 4 ∷ 4 ∷ []

abbrev pub getset : List ℕ
getset = 4 ∷ 4 ∷ max_buffer_len ∷ 4 ∷ 4 ∷ []

abbrev pub listreaders : List ℕ
listreaders = 4 ∷ 4 ∷ 4 ∷ 4 ∷ 1 ∷ []

abbrev pub listgroups : List ℕ
listgroups = 4 ∷ 4 ∷ 4 ∷ 4 ∷ 1 ∷ []
