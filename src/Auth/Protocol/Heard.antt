-- ===== src/Auth/Protocol/Heard.antt =====
-- What a handshake that succeeds has heard, frame by frame.
use embed_beetroot_hw_2_7_pr.Auth.Protocol.Replies.{Heard}
use embed_beetroot_hw_2_7_pr.Prelude.{◌≡◌, List, Result, ok, err}
use embed_beetroot_hw_2_7_pr.Packet.Reassembly.{Frame}
use embed_beetroot_hw_2_7_pr.Session.{Session}
use embed_beetroot_hw_2_7_pr.Config.{EcoflowConfig}
use embed_beetroot_hw_2_7_pr.Auth.{Platform}
use embed_beetroot_hw_2_7_pr.Auth.Protocol.Hears.{Hears}

-- After a success what was heard, and after an error the session as it was.
abbrev pub HeardOrKept :
    Platform → EcoflowConfig → List Frame → Session → Result (Unit {0}) → Session → Type 0
HeardOrKept p cfg frames before (ok done) session = Heard p cfg frames session
HeardOrKept p cfg frames before (err e) session = session ≡ before
