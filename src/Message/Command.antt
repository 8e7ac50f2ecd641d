-- ===== src/Message/Command.antt =====
-- `enum message_commands` of src/common/message.h and `pp_getMsgTypeText` of src/common/message.c.
pub mod Laws
use Prim.Native.String.{String}
use pcsc_proxy_android.Prelude.{ℕ, List, [], ◌∷◌, Option, none, some, get_elem?}

pub data Command : Type 0 where
  establish_context release_context isvalidcontext settimeout connect : Command
  reconnect disconnect begin_transaction end_transaction cancel_transaction : Command
  status get_status_change transmit control cancel : Command
  get_attrib set_attrib list_readers list_groups : Command

-- the value of the enumerator
abbrev pub code : Command → ℕ
code Command.establish_context = 0
code Command.release_context = 1
code Command.isvalidcontext = 2
code Command.settimeout = 3
code Command.connect = 4
code Command.reconnect = 5
code Command.disconnect = 6
code Command.begin_transaction = 7
code Command.end_transaction = 8
code Command.cancel_transaction = 9
code Command.status = 10
code Command.get_status_change = 11
code Command.transmit = 12
code Command.control = 13
code Command.cancel = 14
code Command.get_attrib = 15
code Command.set_attrib = 16
code Command.list_readers = 17
code Command.list_groups = 18

-- the enumerators in the order of their declaration
abbrev pub commands : List Command
commands =
    establish_context ∷ release_context ∷ isvalidcontext ∷ settimeout ∷ connect ∷ reconnect
    ∷ disconnect ∷ begin_transaction ∷ end_transaction ∷ cancel_transaction ∷ status
    ∷ get_status_change ∷ transmit ∷ control ∷ cancel ∷ get_attrib ∷ set_attrib ∷ list_readers
    ∷ list_groups ∷ []

-- the label of a `switch` over the message type that a number selects; `none` is `default`
unfoldable pub command_of : ℕ → Option Command
command_of t = get_elem? commands t

command_text : Command → String
command_text Command.establish_context = "establishContext"
command_text Command.release_context = "releaseContext"
command_text Command.isvalidcontext = "isValidContext"
command_text Command.settimeout = "setTimeout"
command_text Command.connect = "connect"
command_text Command.reconnect = "reconnect"
command_text Command.disconnect = "disconnect"
command_text Command.begin_transaction = "beginTransaction"
command_text Command.end_transaction = "endTransaction"
command_text Command.cancel_transaction = "cancelTransaction"
command_text Command.status = "status"
command_text Command.get_status_change = "getStatusChange"
command_text Command.transmit = "transmit"
command_text Command.control = "control"
command_text Command.cancel = "cancel"
command_text Command.get_attrib = "getAttrib"
command_text Command.set_attrib = "setAttrib"
command_text Command.list_readers = "listReaders"
command_text Command.list_groups = "listGroups"

text_or_unknown : Option Command → String
text_or_unknown none = "(unknown)"
text_or_unknown (some c) = command_text c

-- `pp_getMsgTypeText`
unfoldable pub pp_get_msg_type_text : ℕ → String
unfolding command_of command_text text_or_unknown
pp_get_msg_type_text t = text_or_unknown (command_of t)
