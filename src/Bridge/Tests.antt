-- ===== src/Bridge/Tests.antt =====
-- The theorems about automate/src/bridge at concrete inputs.
use jiascheduler.Base.{
  ℕ, nat_eq, if◌then◌else◌, refl, String, some, List, [], ◌∷◌, Result, ok, err, arith,
}
use jiascheduler.Bridge.Protocol.{Bytes}
use jiascheduler.Bridge.Link.{MsgKind, Msg, Link}
use jiascheduler.Bridge.Link.Replies.{Event, out, IsAnswered, reply-IsAnswered}

-- A transport of two messages.
abbrev kind_bytes : MsgKind → Bytes
kind_bytes (MsgKind.request v) = 7 ∷ []
kind_bytes (MsgKind.response v) = 8 ∷ []

abbrev to_vec : Msg → Bytes
to_vec m = kind_bytes m.data_

abbrev message_of : ℕ → Msg
message_of kind =
    if nat_eq kind 7
    then record { id = 1; data_ = MsgKind.request "ping" }
    else record { id = 1; data_ = MsgKind.response "pong" }

abbrev from_slice : Bytes → Result String Msg
from_slice [] = err "no message"
from_slice (kind ∷ _) = ok (message_of kind)

abbrev fresh_link : Link
fresh_link = record { id_count = 1; msg_box = []; written = []; delivered = [] }

abbrev another_request : List Event
another_request = out 20 (MsgKind.request "other") 0 (some 4) ∷ []

reply-IsAnswered_example :
    IsAnswered to_vec from_slice
      (λ v. v)
      (λ v. "pong")
      10
      30
      90
      "ping"
      3
      another_request
      fresh_link
      fresh_link
reply-IsAnswered_example =
    reply-IsAnswered to_vec from_slice (λ v. v) (λ v. "pong") 10 30 90 "ping" 3 another_request
      fresh_link fresh_link refl refl (omega arith)
