-- ===== src/Ping/ProbesLaws.antt =====
-- ping.go: what a ping makes its receiver do, and who is asked to ping in our place.
use mlist.Prelude.{◌<◌, ◌≡◌, refl, ◌∙◌, [], ◌∷◌, some, arith, length}
use mlist.Members.Types.{Bytes, Suspect}
use mlist.Wire.Compound.{pack_compound_msg}
use mlist.Inbox.LongRun.{suspect_msg}
use mlist.Inbox.Dispatch.{
  handle_ping, queue_long_run, handle_each, handle_udp_msg, handle_fueled, handle_quick, msg_type,
}
use mlist.Inbox.DispatchLaws.{handle_udp_msg-pack_compound_msg}
use mlist.Inbox.Replies.{Ping, MsgCodec}
use mlist.Ping.Probes.{ping_code, suspect_code, buddy_ping_msg}

-- A node that is pinged while it is suspected answers the ping and then has the suspicion in its queue,
-- so that it can refute: both come out of the one message, whole and in this order, if each fits 16
-- bits.
pub handle_udp_msg-buddy_ping_msg :
    (msgs : MsgCodec) (p : Ping) (s : Suspect) (a b msg : Bytes)
    → msgs.put_ping p ≡ some a
    → msgs.put_suspect s ≡ some b
    → length a < 65535
    → length b < 65535
    → buddy_ping_msg msgs p s ≡ some msg
    → handle_udp_msg msg ≡ handle_ping a ∷ queue_long_run suspect_msg b ∷ []
unfolding buddy_ping_msg
handle_udp_msg-buddy_ping_msg msgs p s a b msg put_p put_s la lb e =
    let packed : pack_compound_msg ((ping_code ∷ a) ∷ (suspect_code ∷ b) ∷ []) ≡ msg =
      ground arith in
    rw packed at (
      handle_udp_msg-pack_compound_msg ((ping_code ∷ a) ∷ (suspect_code ∷ b) ∷ []) (omega arith)
        (omega arith, (omega arith, tt)))
    ∙ unfold handle_each handle_udp_msg handle_fueled handle_quick msg_type in refl
