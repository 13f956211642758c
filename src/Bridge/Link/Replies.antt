-- ===== src/Bridge/Link/Replies.antt =====
-- Where the reply to a request goes (automate/src/bridge/client.rs).
use native.Mathlib.Nat.{mod-eq_of_lt}
use mathlib.Core.List.{append-nil}
use jiascheduler.Base.{
  ℕ, ◌+◌, ◌%◌, ◌≤◌, ◌<◌, ◌≡◌, ◌∙◌, ap, sym, refl, inl, inr, nat_eq, ltb, String, true, false,
  Option, none, some, List, [], ◌∷◌, ◌++◌, length, Result, ok, err, Bool-cases, Option-cases, arith,
  if◌then◌else◌,
}
use jiascheduler.Bridge.Protocol.{
  Bytes, is_response, pack_request, pack_response, unpack_request, unpack_response,
}
use jiascheduler.Bridge.Link.{
  MsgKind, Msg, Transaction, Link, time_to_live, u64_mod, find_box, keep, alive, send_value,
  send_out, received, answer_of, answered, recv,
}

-- A message that goes out, or a frame that comes in.
pub data Event : Type 0 where
  out : ℕ → MsgKind → ℕ → Option ℕ → Event
  come : ℕ → Bytes → Event

module _ (to_vec : Msg → Bytes) (from_slice : Bytes → Result String Msg)
    (handler : String → String) where
  abbrev pub step : Event → Link → Link
  step (out now kind id tx) l = send_out to_vec from_slice now kind id tx l
  step (come now buf) l = recv to_vec from_slice handler now buf l

  abbrev pub run : List Event → Link → Link
  run [] l = l
  run (e ∷ events) l = run events (step e l)

  -- The cache and the counter are as they were.
  abbrev SameBox : Link → Link → Type 0
  SameBox l t = (t.msg_box ≡ l.msg_box) × (t.id_count ≡ l.id_count)

  send_value-SameBox :
      (tx : Option ℕ) (kind : MsgKind) (l : Link) → SameBox l (send_value tx kind l)
  send_value-SameBox none kind l = (refl, refl)
  send_value-SameBox (some tx) (MsgKind.response v) l = (refl, refl)
  send_value-SameBox (some tx) (MsgKind.request v) l = (refl, refl)

  received-SameBox :
      (now : ℕ) (resp : Option (Result String Msg)) (l : Link) → SameBox l (received now resp l)
  received-SameBox now none l = (refl, refl)
  received-SameBox now (some (err e)) l = (refl, refl)
  received-SameBox now (some (ok resp)) l =
      send_value-SameBox (alive now (find_box resp.id l.msg_box)) resp.data_ l

  answer-SameBox :
      (now : ℕ) (kind : MsgKind) (id : ℕ) (l : Link)
      → SameBox l (send_out to_vec from_slice now (answer_of handler kind) id none l)
  unfolding send_out
  answer-SameBox now (MsgKind.request v) id l = (refl, refl)
  answer-SameBox now (MsgKind.response v) id l = (refl, refl)

  answered-SameBox :
      (now : ℕ) (msg : Option (Result String Msg)) (l : Link)
      → SameBox l (answered to_vec from_slice handler now msg l)
  answered-SameBox now none l = (refl, refl)
  answered-SameBox now (some (err e)) l = (refl, refl)
  answered-SameBox now (some (ok msg)) l = answer-SameBox now msg.data_ msg.id l

  recv-SameBox :
      (now : ℕ) (buf : Bytes) (l : Link) → SameBox l (recv to_vec from_slice handler now buf l)
  unfolding recv
  recv-SameBox now buf l = elim (Option-cases (is_response buf)) [
    | inl empty ↦ rw (empty, recv) (refl, refl)
    | inr (true, e) ↦ rw (e, recv) (received-SameBox now (unpack_response from_slice buf) l)
    | inr (false, e) ↦ rw (e, recv) (answered-SameBox now (unpack_request from_slice buf) l)
  ]

  -- The entry of a number that has been given out stays, while no number is given out again.
  abbrev StaysBox : ℕ → Link → Link → Type 0
  StaysBox k l t =
      (find_box k t.msg_box ≡ find_box k l.msg_box)
      × (k < t.id_count)
      × (t.id_count ≤ l.id_count + 1)

  keep-find :
      (now id k : ℕ) (tx : Option ℕ) (box : List (ℕ × Transaction))
      → k < id
      → find_box k (keep now id tx box) ≡ find_box k box
  keep-find now id k none box h = refl
  keep-find now id k (some tx) box h =
      let other : nat_eq id k ≡ false = ground (arith, h) in rw other refl

  step-StaysBox :
      (e : Event) (k : ℕ) (l : Link)
      → k < l.id_count
      → l.id_count + 1 < u64_mod
      → StaysBox k l (step e l)
  unfolding send_out
  step-StaysBox (out now (MsgKind.response v) id tx) k l known room = (refl, known, omega arith)
  step-StaysBox (out now (MsgKind.request v) id tx) k l known room =
      let next : (l.id_count + 1) % u64_mod ≡ l.id_count + 1 = mod-eq_of_lt room in
      (
        keep-find now l.id_count k tx l.msg_box known,
        omega (arith, next, known),
        omega (arith, next),
      )
  step-StaysBox (come now buf) k l known room =
      let (box, count) = recv-SameBox now buf l in
      (ap (find_box k) box, omega (arith, count, known), omega (arith, count))

  run-find :
      (events : List Event) (k : ℕ) (l : Link)
      → k < l.id_count
      → l.id_count + length events < u64_mod
      → find_box k (run events l).msg_box ≡ find_box k l.msg_box
  run-find [] k l known room = refl
  run-find (e ∷ events) k l known room =
      let (same, still, grown) = step-StaysBox e k l known (omega (arith, room)) in
      run-find events k (step e l) still (omega (arith, room, grown)) ∙ same

module _ (to_vec : Msg → Bytes) (from_slice : Bytes → Result String Msg) where
  -- The JSON of the message is read as the message.
  abbrev pub IsReadBack : ℕ → MsgKind → Type 0
  IsReadBack id kind =
      from_slice (to_vec (record { id = id; data_ = kind })) ≡ ok (record { id = id; data_ = kind })

  -- The other end answers the frame of a request with one frame, of the request's number.
  recv-answers :
      (handler : String → String) (now id : ℕ) (req : String) (l : Link)
      → IsReadBack id (MsgKind.request req)
      → (recv to_vec from_slice handler now
          (pack_request to_vec (record { id = id; data_ = MsgKind.request req }))
          l).written
        ≡ l.written
          ++ pack_response to_vec (record { id = id; data_ = MsgKind.response (handler req) }) ∷ []
  unfolding recv is_response pack_request unpack_request pack_response send_out
  recv-answers handler now id req l read_back = rw read_back refl

  -- A frame of a response goes to the channel that is alive under its number.
  recv-delivers :
      (handler : String → String) (now id : ℕ) (v : String) (l : Link)
      → IsReadBack id (MsgKind.response v)
      → recv to_vec from_slice handler now
          (pack_response to_vec (record { id = id; data_ = MsgKind.response v }))
          l
        ≡ send_value (alive now (find_box id l.msg_box)) (MsgKind.response v) l
  unfolding recv is_response pack_response unpack_response
  recv-delivers handler now id v l read_back = rw read_back refl

  -- The link after it has sent a request that a channel waits for.
  abbrev pub asked : ℕ → String → ℕ → Link → Link
  asked sent req tx l = send_out to_vec from_slice sent (MsgKind.request req) 0 (some tx) l

  -- The frame of that request.
  abbrev pub request_frame : String → Link → Bytes
  request_frame req l =
      pack_request to_vec (record { id = l.id_count; data_ = MsgKind.request req })

  -- The other end writes one frame for the request, and when that comes in the channel gets the
  -- value, if it comes in time, and nobody anything, if it does not.
  abbrev pub IsAnswered :
      (String → String)
      → (String → String)
      → ℕ
      → ℕ
      → ℕ
      → String
      → ℕ
      → List Event
      → Link
      → Link
      → Type 0
  IsAnswered handler theirs sent read now req tx events l other =
      let later = run to_vec from_slice handler events (asked sent req tx l) in
      (reply : Bytes) × ((recv to_vec from_slice theirs read (request_frame req l) other).written
        ≡ other.written ++ reply ∷ [])
      × ((recv to_vec from_slice handler now reply later).delivered
          ≡ later.delivered
            ++ (if ltb now (sent + time_to_live) then (tx, theirs req) ∷ [] else []))

  alive-delivers :
      (now : ℕ) (entry : Transaction) (v : String) (l : Link)
      → (send_value (alive now (some entry)) (MsgKind.response v) l).delivered
        ≡ l.delivered ++ (if ltb now entry.deadline then (entry.tx, v) ∷ [] else [])
  alive-delivers now entry v l = elim (Bool-cases (ltb now entry.deadline)) [
    | inl e ↦ rw e refl
    | inr e ↦ rw e (sym (append-nil l.delivered))
  ]

  asked-find :
      (sent : ℕ) (req : String) (tx : ℕ) (l : Link)
      → find_box l.id_count (asked sent req tx l).msg_box
        ≡ some (record { tx = tx; deadline = sent + time_to_live })
  unfolding send_out
  asked-find sent req tx l =
      let own : nat_eq l.id_count l.id_count ≡ true = ground arith in rw own refl

  asked-count :
      (sent : ℕ) (req : String) (tx : ℕ) (l : Link)
      → l.id_count + 1 < u64_mod
      → (asked sent req tx l).id_count ≡ l.id_count + 1
  unfolding send_out
  asked-count sent req tx l room = mod-eq_of_lt room

  -- If the JSON of a request and of its response is read back as what it was: when the request is
  -- sent, with a channel that waits, and the other end reads its frame, that writes one frame; after whatever else goes out and comes in, fewer messages than make the numbers wrap
  -- around, this frame gives the channel the value that the other end's handler has for the
  -- request, if it comes in within five seconds after the request was sent. If it comes in later,
  -- no channel gets anything.
  pub reply-IsAnswered :
      (handler theirs : String → String) (sent read now : ℕ) (req : String) (tx : ℕ)
      (events : List Event) (l other : Link)
      → IsReadBack l.id_count (MsgKind.request req)
      → IsReadBack l.id_count (MsgKind.response (theirs req))
      → l.id_count + 1 + length events < u64_mod
      → IsAnswered handler theirs sent read now req tx events l other
  reply-IsAnswered handler theirs sent read now req tx events l other read_req read_resp room =
      let start = asked sent req tx l in
      let later = run to_vec from_slice handler events start in
      let count = asked-count sent req tx l (omega (arith, room)) in
      let found =
        run-find to_vec from_slice handler events l.id_count start (omega (arith, count))
          (omega (arith, count, room))
        ∙ asked-find sent req tx l in
      let id = l.id_count in
      (
        pack_response to_vec (record { id = id; data_ = MsgKind.response (theirs req) }),
        recv-answers theirs read id req other read_req,
        ap (λ t. t.delivered) (recv-delivers handler now id (theirs req) later read_resp)
            ∙ ap
                (λ entry.
                  (send_value (alive now entry) (MsgKind.response (theirs req)) later).delivered)
                found
            ∙ alive-delivers now (record { tx = tx; deadline = sent + time_to_live }) (theirs req)
                later,
      )
