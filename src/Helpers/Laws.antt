-- ===== src/Helpers/Laws.antt =====
-- How the request for the gateway id can end.
use chirpstack_udp_forwarder.Prelude.{
  ◌≡◌, ◌↔◌, Bool, true, false, Option, none, some, Bytes, Text, refl, arith, ap, ◌∙◌, if◌then◌else◌,
}
use chirpstack_udp_forwarder.Prelude.Outcome.{Outcome, ok, err, unwrap, or_fail, ◌>>=◌}
use chirpstack_udp_forwarder.External.{External}
use chirpstack_udp_forwarder.Gw
use chirpstack_udp_forwarder.Runtime.{Runtime}
use chirpstack_udp_forwarder.Helpers.{
  HelperError, could_not_read_gateway_id, invalid_hex, get_gateway_id,
}

-- What a call that succeeded has unwrapped.
unwrapped :
    {A B : Type 0} (o : Option A) (f : A → Outcome HelperError B) (b : B)
    → unwrap o >>= f ≡ ok b
    → (a : A) × (o ≡ some a) × (f a ≡ ok b)
unwrapped none f b h = cc
unwrapped (some a) f b h = (a, refl, h)

readable_only :
    {A B : Type 0} (c : Bool) (o : Outcome HelperError A) (f : A → Outcome HelperError B) (b : B)
    → (if c then o else err could_not_read_gateway_id) >>= f ≡ ok b
    → (c ≡ true) × (o >>= f ≡ ok b)
readable_only true o f b h = (refl, h)
readable_only false o f b h = cc

found : {A : Type 0} (o : Option A) (a : A) → or_fail o invalid_hex ≡ ok a → o ≡ some a
found none a h = cc
found (some c) a h = ground arith

module _ {X : External} (R : Runtime X) where
  -- The concentratord answers in time, with a message that decodes to a hex text of these bytes.
  pub record Answers (sock : R.Sock) (id : Bytes) : Type 0 where
    pub sent : R.Sock
    pub polled : R.Sock
    pub reply : Bytes
    pub left : R.Sock
    pub text : Text
    pub sends : R.send sock (R.encode_command Gw.get_gateway_id) ≡ some sent
    pub readable : R.poll sent ≡ some (true, polled)
    pub receives : R.recv polled ≡ some (reply, left)
    pub decodes : R.decode_gateway_id reply ≡ some text
    pub is_hex : X.hex_decode text ≡ some id

  -- `get_gateway_id` gives a gateway id exactly if the concentratord answers the request in time
  -- with a message that decodes to the hex text of this id.
  pub get_gateway_id_iff :
      (sock : R.Sock) (id : Bytes) → (get_gateway_id R sock ≡ ok id) ↔ Answers sock id
  unfolding get_gateway_id
  get_gateway_id_iff sock id =
      (answers, λ a. rw (a.sends, a.readable, a.receives, a.decodes, a.is_hex) refl)
    where
      answers : get_gateway_id R sock ≡ ok id → Answers sock id
      answers h =
          let (sent, sends, h1) =
            unwrapped (R.send sock (R.encode_command Gw.get_gateway_id)) _ id h in
          let ((ready, polled), polls, h2) = unwrapped (R.poll sent) _ id h1 in
          let (is_ready, h3) = readable_only ready (unwrap (R.recv polled)) _ id h2 in
          let ((reply, left), receives, h4) = unwrapped (R.recv polled) _ id h3 in
          let (text, decodes, h5) = unwrapped (R.decode_gateway_id reply) _ id h4 in
          record {
            sent = sent;
            polled = polled;
            reply = reply;
            left = left;
            text = text;
            sends = sends;
            readable = polls ∙ ap (λ r. some (r, polled)) is_ready;
            receives = receives;
            decodes = decodes;
            is_hex = found (X.hex_decode text) id h5;
          }
