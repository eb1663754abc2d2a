-- ===== src/Stores.antt =====
-- The other kinds of store of src/storage/store/account: what fills `StoreDef` for reactions
-- (reaction_store.rs), verifications (verification_store.rs) and user data (user_data_store.rs).
pub mod Reaction
pub mod Verification
pub mod UserData
pub mod Cast
pub mod Fnames
pub mod Fresh
use hypersnap.Shared.{Option, none, some, Result, ok, err, Error, panic}
use hypersnap.Proto.{Message, MessageData, Body}

-- `message.data.as_ref().unwrap().body.as_ref().unwrap()`
unfoldable pub body_of : Message → Result Error (MessageData × Body)
body_of message = elim message.message_data [
  | none ↦ err panic
  | some d ↦ elim d.body [ none ↦ err panic | some body ↦ ok (d, body) ]
]
