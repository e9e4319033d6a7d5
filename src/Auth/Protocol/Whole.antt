-- ===== src/Auth/Protocol/Whole.antt =====
-- A frame is sent whole or not at all.
use embed_beetroot_hw_2_7_pr.Prelude.{
  ℕ, ◌≡◌, refl, sym, subst, List, [], ◌∷◌, ◌++◌, Result, ok, err,
}
use embed_beetroot_hw_2_7_pr.Packet.Words.{river2_frame_data}
use embed_beetroot_hw_2_7_pr.Session.{Session}
use embed_beetroot_hw_2_7_pr.Auth.{World, Platform, send_frame, send_inner_encrypted}
use embed_beetroot_hw_2_7_pr.Auth.Protocol.{encode, seal}
use embed_beetroot_hw_2_7_pr.Auth.Protocol.Sending.{send_frame-encode, send_inner_encrypted-seal}

-- One frame more was written, which the BLE client took; or nothing was done.
abbrev pub IsWhole : Platform → World → Result (Unit {0}) × World → Type 0
IsWhole p w (ok done, w') =
    (bytes : List ℕ) × (p.ble_write w.sent bytes ≡ ok tt)
    × (w' ≡ record w { sent = w.sent ++ bytes ∷ [] })
IsWhole p w (err e, w') = w' ≡ w

module _ (p : Platform) (w : World) where
  written-IsWhole :
      (bytes : List ℕ) (r : Result (Unit {0}))
      → p.ble_write w.sent bytes ≡ r
      → IsWhole p w (elim r [
        | err e ↦ (err e, w)
        | ok done ↦ (ok tt, record w { sent = w.sent ++ bytes ∷ [] })
      ])
  written-IsWhole bytes (ok done) e = (bytes, e, refl)
  written-IsWhole bytes (err code) e = refl

  encoded-IsWhole :
      (r : Result (List ℕ))
      → IsWhole p w (elim r [
        | err e ↦ (err e, w)
        | ok bytes ↦ elim (p.ble_write w.sent bytes) [
          | err e ↦ (err e, w)
          | ok done ↦ (ok tt, record w { sent = w.sent ++ bytes ∷ [] })
        ]
      ])
  encoded-IsWhole (ok bytes) = written-IsWhole bytes (p.ble_write w.sent bytes) refl
  encoded-IsWhole (err e) = refl

  pub send_frame-IsWhole :
      (frame_type : ℕ) (payload : List ℕ) → IsWhole p w (send_frame p frame_type payload w)
  send_frame-IsWhole frame_type payload =
      subst (IsWhole p w) (sym (send_frame-encode p frame_type payload w))
        (encoded-IsWhole (encode p frame_type payload))

  sealed-IsWhole :
      (r : Result (List ℕ))
      → IsWhole p w (elim r [
        | err e ↦ (err e, w)
        | ok encrypted ↦ send_frame p river2_frame_data encrypted w
      ])
  sealed-IsWhole (ok encrypted) = send_frame-IsWhole river2_frame_data encrypted
  sealed-IsWhole (err e) = refl

  pub send_inner_encrypted-IsWhole :
      (c : Session) (src dst cmd_set cmd_id : ℕ) (payload : List ℕ)
      → IsWhole p w (send_inner_encrypted p c src dst cmd_set cmd_id payload w)
  send_inner_encrypted-IsWhole c src dst cmd_set cmd_id payload =
      subst (IsWhole p w) (sym (send_inner_encrypted-seal p c src dst cmd_set cmd_id payload w))
        (sealed-IsWhole (seal p c src dst cmd_set cmd_id payload))
