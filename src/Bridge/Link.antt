-- ===== src/Bridge/Link.antt =====
-- automate/src/bridge/client.rs: one end of a connection. A message that goes out as a request gets
-- a number of its own, and the channel that waits for its response is kept under the number for
-- five seconds; a response that comes in goes to the channel under its number. Times are
-- nanoseconds, a JSON value is its text.
pub mod Replies
use jiascheduler.Base.{
  ℕ, ◌+◌, ◌%◌, ◌^◌, nat_eq, ltb, String, Bool, true, false, Option, none, some, List, [], ◌∷◌, ◌++◌,
  Result, ok, err, if◌then◌else◌,
}
use jiascheduler.Bridge.Protocol.{
  Bytes, is_response, pack_request, pack_response, unpack_request, unpack_response,
}

pub data MsgKind : Type 0 where
  request response : String → MsgKind

pub record Msg : Type 0 where
  pub id : ℕ
  pub data_ : MsgKind

-- A channel that waits, and the end of its time in the cache.
pub record Transaction : Type 0 where
  pub tx : ℕ
  pub deadline : ℕ

-- `msg_box` is the cache, newest entry first; `written` the frames sent over the socket and
-- `delivered` the values sent over channels, oldest first.
pub record Link : Type 0 where
  pub id_count : ℕ
  pub msg_box : List (ℕ × Transaction)
  pub written : List Bytes
  pub delivered : List (ℕ × String)

-- `time_to_live`.
abbrev pub time_to_live : ℕ
time_to_live = 5000000000

abbrev pub u64_mod : ℕ
u64_mod = 2 ^ 64

abbrev pub find_box : ℕ → List (ℕ × Transaction) → Option Transaction
find_box id [] = none
find_box id ((k, v) ∷ entries) = if nat_eq k id then some v else find_box id entries

abbrev pub keep : ℕ → ℕ → Option ℕ → List (ℕ × Transaction) → List (ℕ × Transaction)
keep now id none msg_box = msg_box
keep now id (some tx) msg_box = (id, record { tx = tx; deadline = now + time_to_live }) ∷ msg_box

-- `cache.get`: an entry whose time is over is gone.
abbrev pub alive : ℕ → Option Transaction → Option ℕ
alive now none = none
alive now (some entry) = if ltb now entry.deadline then some entry.tx else none

abbrev pub send_value : Option ℕ → MsgKind → Link → Link
send_value (some tx) (MsgKind.response v) l = record l { delivered = l.delivered ++ (tx, v) ∷ [] }
send_value _ _ l = l

abbrev pub deliver : ℕ → Msg → Link → Link
deliver now resp l = send_value (alive now (find_box resp.id l.msg_box)) resp.data_ l

abbrev pub received : ℕ → Option (Result String Msg) → Link → Link
received now (some (ok resp)) l = deliver now resp l
received now _ l = l

-- The answer of this end to a request.
abbrev pub answer_of : (String → String) → MsgKind → MsgKind
answer_of handler (MsgKind.request req) = MsgKind.response (handler req)
answer_of handler (MsgKind.response v) = MsgKind.response "\"invalid data type\""

module _ (to_vec : Msg → Bytes) (from_slice : Bytes → Result String Msg) where
  -- The task that writes what is queued for the other end.
  unfoldable pub send_out : ℕ → MsgKind → ℕ → Option ℕ → Link → Link
  send_out now (MsgKind.response v) id tx l = record l {
    written =
        l.written ++ pack_response to_vec (record { id = id; data_ = MsgKind.response v }) ∷ [];
  }
  send_out now (MsgKind.request v) id tx l = record l {
    id_count = (l.id_count + 1) % u64_mod;
    msg_box = keep now l.id_count tx l.msg_box;
    written =
        l.written
        ++ pack_request to_vec (record { id = l.id_count; data_ = MsgKind.request v }) ∷ [];
  }

  abbrev answered : (String → String) → ℕ → Option (Result String Msg) → Link → Link
  answered handler now (some (ok msg)) l = send_out now (answer_of handler msg.data_) msg.id none l
  answered handler now _ l = l

  -- A frame from the other end, in a task of its own: a panic of `unwrap` ends only that task.
  unfoldable pub recv : (String → String) → ℕ → Bytes → Link → Link
  recv handler now buf l = elim (is_response buf) [
    | none ↦ l
    | some true ↦ received now (unpack_response from_slice buf) l
    | some false ↦ answered handler now (unpack_request from_slice buf) l
  ]
