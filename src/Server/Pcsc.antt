-- ===== src/Server/Pcsc.antt =====
-- The PC/SC library that the service calls (winscard.h), which is not part of this program: a record
-- of its functions over a state of its own. Arguments and results are the machine's 64-bit words.
-- A function returns the new state, its `LONG` result, and what its output parameters hold after
-- the call; a pointer to text or to a buffer is the memory from there on.
use pcsc_proxy_android.Prelude.{
  ℕ, ◌+◌, ◌-◌, ◌^◌, ◌≤◌, Bool, true, Option, List, ltb, if◌then◌else◌, length,
}
use pcsc_proxy_android.Memory.{Bytes}

-- an `int32_t` passed where a `LONG` is expected
abbrev pub sign_extend : ℕ → ℕ
sign_extend w = if ltb w (2 ^ 31) then w else w + 2 ^ 64 - 2 ^ 32

abbrev pub scard_s_success : ℕ
scard_s_success = 0

abbrev pub scard_f_internal_error : ℕ
scard_f_internal_error = 0x80100001

abbrev pub scard_e_invalid_value : ℕ
scard_e_invalid_value = 0x80100011

-- `SCARD_IO_REQUEST`
pub record IoRequest : Type 0 where
  pub protocol : ℕ
  pub pci_length : ℕ

-- `SCARD_READERSTATE`, less `pvUserData`, which no code here uses
pub record ReaderState : Type 0 where
  pub reader : Option Bytes
  pub current_state : ℕ
  pub event_state : ℕ
  pub cb_atr : ℕ
  pub rgb_atr : Bytes

-- A buffer filled by the library, and the length it reports, which may be another number.
pub record Answer : Type 0 where
  pub bytes : List ℕ
  pub size : ℕ

pub record CardStatus : Type 0 where
  pub reader : Answer
  pub state : ℕ
  pub protocol : ℕ
  pub atr : Answer

pub record Pcsc (P : Type 0) : Type 0 where
  pub establish_context : P → (scope : ℕ) → P × ℕ × ℕ
  pub release_context : P → (context : ℕ) → P × ℕ
  pub is_valid_context : P → (context : ℕ) → P × ℕ
  pub connect : P → (context : ℕ) → (reader : Bytes) → (share preferred : ℕ) → P × ℕ × ℕ × ℕ
  pub reconnect : P → (card share preferred initialization : ℕ) → P × ℕ × ℕ
  pub disconnect : P → (card disposition : ℕ) → P × ℕ
  pub begin_transaction : P → (card : ℕ) → P × ℕ
  pub end_transaction : P → (card disposition : ℕ) → P × ℕ
  pub cancel : P → (context : ℕ) → P × ℕ
  pub status : P → (card reader_room atr_room : ℕ) → P × ℕ × CardStatus
  pub get_status_change : P → (context timeout : ℕ) → List ReaderState → P × ℕ × List ReaderState
  pub control : P → (card control_code : ℕ) → List ℕ → (room : ℕ) → P × ℕ × Answer
  pub transmit :
      P → (card : ℕ) → IoRequest → List ℕ → IoRequest → (room : ℕ) → P × ℕ × IoRequest × Answer
  pub get_attrib : P → (card attribute room : ℕ) → P × ℕ × Answer
  pub set_attrib : P → (card attribute : ℕ) → List ℕ → P × ℕ
  -- The `Bool` says whether a buffer is given; the pointer is null if not.
  pub list_readers : P → (context : ℕ) → Bool → (room : ℕ) → P × ℕ × Answer
  pub list_reader_groups : P → (context : ℕ) → Bool → (room : ℕ) → P × ℕ × Answer

-- What the library documents of the buffers that it is given: it writes no more bytes than the
-- caller says fit.
pub record IsBounded {P : Type 0} (lib : Pcsc P) : Type 0 where
  pub reader_fits : (p : P) (card a b : ℕ) → length (lib.status p card a b).2.reader.bytes ≤ a
  pub atr_fits : (p : P) (card a b : ℕ) → length (lib.status p card a b).2.atr.bytes ≤ b
  pub control_fits :
      (p : P) (card ccode : ℕ) (xs : List ℕ) (room : ℕ)
      → length (lib.control p card ccode xs room).2.bytes ≤ room
  pub transmit_fits :
      (p : P) (card : ℕ) (spci : IoRequest) (xs : List ℕ) (rpci : IoRequest) (room : ℕ)
      → length (lib.transmit p card spci xs rpci room).3.bytes ≤ room
  pub attrib_fits :
      (p : P) (card attribute room : ℕ)
      → length (lib.get_attrib p card attribute room).2.bytes ≤ room
  pub readers_fit :
      (p : P) (context : ℕ) (room : ℕ)
      → length (lib.list_readers p context true room).2.bytes ≤ room
  pub groups_fit :
      (p : P) (context : ℕ) (room : ℕ)
      → length (lib.list_reader_groups p context true room).2.bytes ≤ room
