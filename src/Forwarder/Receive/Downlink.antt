-- ===== src/Forwarder/Receive/Downlink.antt =====
-- `handle_pull_resp`: a downlink that goes through, and the command socket after one that does not.
use chirpstack_udp_forwarder.Prelude.{Bool, ℕ, ◌≡◌, ◌∙◌, true, false, some, Bytes}
use chirpstack_udp_forwarder.Prelude.Outcome.{ok, err, panic}
use chirpstack_udp_forwarder.External.{External, Json, Fields}
use chirpstack_udp_forwarder.Gw
use chirpstack_udp_forwarder.Runtime.{Runtime, IsReq}
use chirpstack_udp_forwarder.Structs.PullResp.{PullResp}
use chirpstack_udp_forwarder.Structs.PullResp
use chirpstack_udp_forwarder.Structs.PullResp.Laws.{
  IsPullResp, IsNoU64, bad_datr, deserialize_payload_panics, from_bytes_outcome,
}
use chirpstack_udp_forwarder.Structs.TxPk
use chirpstack_udp_forwarder.Forwarder.World.{World, no_down_response}
use chirpstack_udp_forwarder.Forwarder.Receive.{
  receive, handle_pull_resp, command_send, command_poll,
}

module _ {X : External} (R : Runtime X) where
  -- A PULL_RESP datagram that becomes the downlink frame `f`.
  pub record IsDownlink (b : Bytes) (w : World R) : Type 0 where
    pub resp : PullResp X
    pub frame : Gw.DownlinkFrame
    pub parsed : PullResp.from_bytes X b ≡ ok resp
    pub converted :
        TxPk.to_proto X resp.payload.txpk resp.random_token w.state.gateway_id ≡ ok frame

  abbrev pub command : {b : Bytes} {w : World R} → IsDownlink b w → Bytes
  command d = R.encode_command (Gw.send_downlink_frame d.frame)

  -- An answer that does not come within the timeout leaves the REQ socket waiting: the handler
  -- fails, and nothing is sent to the server.
  pub handle_pull_resp_socket :
      (req : IsReq R) (b : Bytes) (w : World R) (d : IsDownlink b w) (s1 s2 : R.Sock)
      → R.send w.command_sock (command d) ≡ some s1
      → R.poll s1 ≡ some (false, s2)
      → (handle_pull_resp R b w ≡ (err no_down_response, record w { command_sock = s2 }))
        × (req.awaiting s2 ≡ true)
  unfolding handle_pull_resp
  handle_pull_resp_socket req b w d s1 s2 p q = (
    rw (d.parsed, d.converted, p, command_send) (rw (q, command_poll)),
    req.poll-awaiting s1 s2 false q ∙ req.send-awaiting w.command_sock s1 (command d) p,
  )

  -- While a reply is outstanding on the REQ socket, every downlink panics.
  handle_pull_resp_panics :
      (req : IsReq R) (b : Bytes) (w : World R)
      → IsDownlink b w
      → req.awaiting w.command_sock ≡ true
      → handle_pull_resp R b w ≡ (panic, w)
  unfolding handle_pull_resp
  handle_pull_resp_panics req b w d h =
      rw (d.parsed, d.converted, req.send_refused w.command_sock (command d) h, command_send)

  -- Once the concentratord has not answered a downlink within the timeout, the next PULL_RESP that
  -- becomes a downlink frame panics, and so ends the process: on a REQ socket, whose next send is
  -- refused while a reply is outstanding, and whose failure the handler unwraps.
  pub second_downlink_panics :
      IsReq R
      → (b c : Bytes) (w : World R) (d : IsDownlink b w) (s1 s2 : R.Sock)
      → R.send w.command_sock (command d) ≡ some s1
      → R.poll s1 ≡ some (false, s2)
      → IsDownlink c (record w { command_sock = s2 })
      → (handle_pull_resp R c (handle_pull_resp R b w).1).0 ≡ panic
  second_downlink_panics req b c w d s1 s2 p q e =
      let (failed, waits) = handle_pull_resp_socket req b w d s1 s2 p q in
      rw (failed, handle_pull_resp_panics req c (record w { command_sock = s2 }) e waits)

  -- A PULL_RESP whose `txpk` object begins with a `datr` number that is no u64 (negative, or with a
  -- fraction) makes the receive loop panic, whatever the token, the other members, the text behind
  -- that number, which may be no JSON and may end there, and the state.
  pub receive-bad_datr_panics :
      (b : Bytes) (token : ℕ) (d : Json X.F64 X.F32) (rest rest' : Fields X.F64 X.F32)
      (whole : Bool) (w : World R)
      → IsNoU64 X d
      → IsPullResp X b token (bad_datr X d rest rest') whole
      → (receive R b w).0 ≡ panic
  unfolding receive handle_pull_resp
  receive-bad_datr_panics b token d rest rest' whole w h i =
      let bad =
        (from_bytes_outcome X b).1.1
          (token, _, whole, i, deserialize_payload_panics X d rest rest' h) in
      rw i.wire (rw (rw i.wire at bad))
