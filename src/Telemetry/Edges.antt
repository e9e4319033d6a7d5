-- ===== src/Telemetry/Edges.antt =====
-- What the owner task is told by a packet.
use embed_beetroot_hw_2_7_pr.Prelude.{
  ℕ, ◌+◌, ◌*◌, ◌≤◌, ◌≡◌, ◌≢◌, ◌↔◌, ◌⊎◌, refl, arith, Bool, true, false, not, ◌&&◌, bit_or, bit_and,
  ◌∷◌, if◌then◌else◌, ltb, leb, ◌==◌, get_or, Bool-cases, inl, inr,
}
use embed_beetroot_hw_2_7_pr.Packet.Words.{
  river2_addr_pd, river2_addr_mppt, river2_cmdset_heartbeat, river2_cmdid_heartbeat,
}
use embed_beetroot_hw_2_7_pr.Packet.Inner.{InnerPacket}
use embed_beetroot_hw_2_7_pr.Telemetry.{
  Telemetry, evt_battery_level, evt_dc_state, evt_ac_state, battery_update, ac_update, dc_update,
  notify_bits, handle_packet, pd_soc_offset, mppt_cfg_ac_enabled_offset, mppt_car_state_offset,
}

abbrev pub sends : ℕ → ℕ → Bool
sends bits mask = not (bit_and bits mask == 0)

-- What a packet did: the bits that were sent, if any, have the bit of a value exactly when that
-- value changed, and the bit of the battery only when the next time was reached and moved on.
pub record Told (interval_ms now_us : ℕ) (s s' : Telemetry) : Type 0 where
  pub bits : ℕ
  pub posted : s'.notified ≡ (if bits == 0 then s.notified else bits ∷ s.notified)
  pub ac_edge : (sends bits evt_ac_state ≡ true) ↔ (s'.ac_enabled ≢ s.ac_enabled)
  pub dc_edge : (sends bits evt_dc_state ≡ true) ↔ (s'.dc_out_state ≢ s.dc_out_state)
  pub battery_due :
      ((sends bits evt_battery_level ≡ true)
        × (s.next_notify_us ≤ now_us)
        × (s'.next_notify_us ≡ now_us + interval_ms * 1000))
      ⊎ ((sends bits evt_battery_level ≡ false) × (s'.next_notify_us ≡ s.next_notify_us))

module _ (interval_ms now_us : ℕ) where
  nothing : (s : Telemetry) → Told interval_ms now_us s s
  nothing s = record {
    bits = 0;
    posted = refl;
    ac_edge = ((λ e. cc), (λ e. absurd (e refl)));
    dc_edge = ((λ e. cc), (λ e. absurd (e refl)));
    battery_due = inr (refl, refl);
  }

  battery-Told :
      (pkt : InnerPacket) (s : Telemetry)
      → Told interval_ms now_us s (notify_bits (battery_update interval_ms now_us pkt s))
  unfolding notify_bits battery_update
  battery-Told pkt s = elim (Bool-cases (ltb pd_soc_offset pkt.payload_len)) [
    | inr short ↦ rw short (nothing s)
    | inl long ↦ rw long (elim (Bool-cases (leb s.next_notify_us now_us)) [
      | inl due ↦ rw due (record {
        bits = 16;
        posted = refl;
        ac_edge = ((λ e. cc), (λ e. absurd (e refl)));
        dc_edge = ((λ e. cc), (λ e. absurd (e refl)));
        battery_due = inl (refl, (ground arith), refl);
      })
      | inr early ↦ rw early (record {
        bits = 0;
        posted = refl;
        ac_edge = ((λ e. cc), (λ e. absurd (e refl)));
        dc_edge = ((λ e. cc), (λ e. absurd (e refl)));
        battery_due = inr (refl, refl);
      })
    ])
  ]

ac_cases :
    (pkt : InnerPacket) (s : Telemetry)
    → ((v : ℕ) × (v ≢ s.ac_enabled) × (ac_update pkt s ≡ (256, record s { ac_enabled = v })))
      ⊎ (ac_update pkt s ≡ (0, s))
unfolding ac_update
ac_cases pkt s = elim (Bool-cases (ltb mppt_cfg_ac_enabled_offset pkt.payload_len)) [
  | inr short ↦ rw short (inr refl)
  | inl long ↦
      rw long (elim (Bool-cases (get_or pkt.payload mppt_cfg_ac_enabled_offset 0 == s.ac_enabled)) [
        | inl same ↦ rw same (inr refl)
        | inr changed ↦
            rw changed (inl (get_or pkt.payload mppt_cfg_ac_enabled_offset 0, (ground arith), refl))
      ])
]

dc_cases :
    (pkt : InnerPacket) (s : Telemetry)
    → ((v : ℕ) × (v ≢ s.dc_out_state) × (dc_update pkt s ≡ (128, record s { dc_out_state = v })))
      ⊎ (dc_update pkt s ≡ (0, s))
unfolding dc_update
dc_cases pkt s = elim (Bool-cases (ltb mppt_car_state_offset pkt.payload_len)) [
  | inr short ↦ rw short (inr refl)
  | inl long ↦
      rw long (elim (Bool-cases (get_or pkt.payload mppt_car_state_offset 0 == s.dc_out_state)) [
        | inl same ↦ rw same (inr refl)
        | inr changed ↦
            rw changed (inl (get_or pkt.payload mppt_car_state_offset 0, (ground arith), refl))
      ])
]

module _ (interval_ms now_us : ℕ) where
  abbrev mppt_update : InnerPacket → Telemetry → Telemetry
  mppt_update pkt s =
      let (ac_bit, s1) = ac_update pkt s in
      let (dc_bit, s2) = dc_update pkt s1 in notify_bits (bit_or ac_bit dc_bit, s2)

  mppt-Told : (pkt : InnerPacket) (s : Telemetry) → Told interval_ms now_us s (mppt_update pkt s)
  unfolding notify_bits
  mppt-Told pkt s = elim (ac_cases pkt s) [
    | inl (v, differ, e) ↦ elim (dc_cases pkt (record s { ac_enabled = v })) [
      | inl (v', differ', e') ↦
          rw (e, e')
            (record {
              bits = 384;
              posted = refl;
              ac_edge = ((λ h. differ), (λ h. refl));
              dc_edge = ((λ h. differ'), (λ h. refl));
              battery_due = inr (refl, refl);
            })
      | inr e' ↦
          rw (e, e')
            (record {
              bits = 256;
              posted = refl;
              ac_edge = ((λ h. differ), (λ h. refl));
              dc_edge = ((λ h. cc), (λ h. absurd (h refl)));
              battery_due = inr (refl, refl);
            })
    ]
    | inr e ↦ elim (dc_cases pkt s) [
      | inl (v', differ', e') ↦
          rw (e, e')
            (record {
              bits = 128;
              posted = refl;
              ac_edge = ((λ h. cc), (λ h. absurd (h refl)));
              dc_edge = ((λ h. differ'), (λ h. refl));
              battery_due = inr (refl, refl);
            })
      | inr e' ↦ rw (e, e') (nothing interval_ms now_us s)
    ]
  ]

  -- Whatever the packet, the owner is sent the AC and the DC bit exactly when the value kept for
  -- the output changes, so no change is missed and none is made up; and the battery bit only when
  -- the time set by the last one is reached, and then the next is set by the interval.
  pub handle_packet-Told :
      (pkt : InnerPacket) (s : Telemetry)
      → Told interval_ms now_us s (handle_packet interval_ms now_us pkt s)
  unfolding handle_packet
  handle_packet-Told pkt s = elim (Bool-cases (pkt.cmd_id == river2_cmdid_heartbeat)) [
    | inr other ↦ rw other (nothing interval_ms now_us s)
    | inl heartbeat ↦
        rw heartbeat
          (elim (Bool-cases (pkt.src == river2_addr_pd && pkt.cmd_set == river2_cmdset_heartbeat)) [
            | inl pd ↦ rw pd (battery-Told interval_ms now_us pkt s)
            | inr not_pd ↦ rw not_pd (elim (Bool-cases (pkt.src == river2_addr_mppt)) [
              | inl mppt ↦ rw mppt (mppt-Told pkt s)
              | inr neither ↦ rw neither (nothing interval_ms now_us s)
            ])
          ])
  ]
