-- ===== src/Client/Rtc.antt =====
-- client_cli/src/rtc: what the wrapper of the WebRTC library tells the other client, and what it
-- asks of the library. The flag tells whether `pc_` holds an object.
use zaza.Common.{ℕ, Bool, Bytes, bytes, List, [], ◌∷◌, if◌then◌else◌}
use zaza.Signaling.Json.{JsonLibrary}
use zaza.Client.Session.{TurnConfig, Session}
use zaza.Client.Commands.{Effect, sends, prints}

pub record IceServer : Type 0 where
  pub url : Bytes
  pub username : Bytes
  pub password : Bytes

-- The configuration of `init`: both servers have the same name and password.
unfoldable pub ice_servers : TurnConfig → List IceServer
ice_servers turn =
    record { url = turn.turn_url; username = turn.username; password = turn.credential }
    ∷ record { url = turn.turns_url; username = turn.username; password = turn.credential }
    ∷ []

-- The type of a local description: an offer, an answer, or another one.
pub data DescriptionType : Type 0 where
  offer answer other_type : DescriptionType

pub data RtcRequest : Type 0 where
  adds_track sets_local_offer : RtcRequest
  sets_remote : DescriptionType → Bytes → RtcRequest
  adds_remote_candidate : Bytes → Bytes → RtcRequest

unfoldable pub create_offer : Bool → List RtcRequest
create_offer pc = if pc then adds_track ∷ sets_local_offer ∷ [] else []

unfoldable pub apply_offer : Bool → Bytes → List RtcRequest
apply_offer pc sdp = if pc then sets_remote offer sdp ∷ [] else []

unfoldable pub apply_answer : Bool → Bytes → List RtcRequest
apply_answer pc sdp = if pc then sets_remote answer sdp ∷ [] else []

unfoldable pub add_remote_candidate : Bool → Bytes → Bytes → ℕ → List RtcRequest
add_remote_candidate pc candidate mid mlineindex =
    if pc then adds_remote_candidate candidate mid ∷ [] else []

module _ (lib : JsonLibrary) where
  -- The callbacks of `SdpHandler`, as `main` sets `ws_send`.
  unfoldable pub on_offer : Session → Bytes → List Effect
  on_offer s sdp =
      sends (
        lib.dump (
          lib.object (
            (bytes "type", bytes "webrtc.offer")
            ∷ (bytes "callId", s.call.call_id)
            ∷ (bytes "sdp", sdp)
            ∷ [])))
      ∷ prints (bytes "[rtc] offer sent")
      ∷ []

  unfoldable pub on_answer : Session → Bytes → List Effect
  on_answer s sdp =
      sends (
        lib.dump (
          lib.object (
            (bytes "type", bytes "webrtc.answer")
            ∷ (bytes "callId", s.call.call_id)
            ∷ (bytes "sdp", sdp)
            ∷ [])))
      ∷ prints (bytes "[rtc] answer sent")
      ∷ []

  -- The callback of `IceHandler`.
  unfoldable pub on_ice : Session → Bytes → Bytes → ℕ → List Effect
  on_ice s candidate mid mlineindex =
      sends (
        lib.dump (
          lib.fields (
            (bytes "type", lib.text (bytes "webrtc.ice"))
            ∷ (bytes "callId", lib.text s.call.call_id)
            ∷ (bytes "candidate", lib.text candidate)
            ∷ (bytes "mid", lib.text mid)
            ∷ (bytes "mlineindex", lib.number mlineindex)
            ∷ [])))
      ∷ []

  -- The callbacks that `setupCallbacks` sets for a local description and a local candidate.
  unfoldable pub on_local_description : Session → DescriptionType → Bytes → List Effect
  unfolding on_offer on_answer
  on_local_description s offer sdp = on_offer s sdp
  on_local_description s answer sdp = on_answer s sdp
  on_local_description s other_type sdp = []

  unfoldable pub on_local_candidate : Session → Bytes → Bytes → List Effect
  unfolding on_ice
  on_local_candidate s candidate mid = on_ice s candidate mid 0
