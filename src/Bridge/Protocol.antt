-- ===== src/Bridge/Protocol.antt =====
-- automate/src/bridge/protocol.rs: how a message becomes bytes, each a number below 256. The JSON
-- of a message, `to_vec` and `from_slice`, is a parameter. `none` is the panic of `data[0]` on no
-- bytes.
use jiascheduler.Base.{
  ℕ, nat_eq, String, Bool, Option, none, some, List, [], ◌∷◌, Result, err, if◌then◌else◌,
}

abbrev pub Bytes : Type 0
Bytes = List ℕ

abbrev pub req_mark : ℕ
req_mark = 0

abbrev pub resp_mark : ℕ
resp_mark = 1

unfoldable pub is_response : Bytes → Option Bool
is_response [] = none
is_response (mark ∷ data_) = some (nat_eq mark resp_mark)

module _ {Msg : Type 0} (to_vec : Msg → Bytes) where
  unfoldable pub pack_request : Msg → Bytes
  pack_request data_ = req_mark ∷ to_vec data_

  unfoldable pub pack_response : Msg → Bytes
  pack_response data_ = resp_mark ∷ to_vec data_

module _ {Msg : Type 0} (from_slice : Bytes → Result String Msg) where
  unfoldable pub unpack_request : Bytes → Option (Result String Msg)
  unpack_request [] = none
  unpack_request (mark ∷ data_) =
      some (if nat_eq mark req_mark then from_slice data_ else err "invalid request msg format")

  unfoldable pub unpack_response : Bytes → Option (Result String Msg)
  unpack_response [] = none
  unpack_response (mark ∷ data_) =
      some (if nat_eq mark resp_mark then from_slice data_ else err "invalid response msg format")
