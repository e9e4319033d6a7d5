-- ===== src/Telemetry/Values.antt =====
-- The values that the owner reads, by the packets that were decoded.
use embed_beetroot_hw_2_7_pr.Prelude.{
  ℕ, ◌≡◌, refl, ap, sym, leb, ==_iff, ◌∙◌, arith, Bool, true, false, ◌&&◌, List, Option, none, some,
  ltb, ◌==◌, bit_or, if◌then◌else◌, get_or, Bool-cases, inl, inr, Result, ok, err,
}
use embed_beetroot_hw_2_7_pr.Packet.Words.{
  river2_frame_data, river2_addr_pd, river2_addr_mppt, river2_cmdset_heartbeat,
  river2_cmdid_heartbeat,
}
use embed_beetroot_hw_2_7_pr.Packet.Inner.{InnerPacket, river2_inner_parse}
use embed_beetroot_hw_2_7_pr.Packet.Reassembly.{Frame}
use embed_beetroot_hw_2_7_pr.Session.{Psa, river2_session_decrypt}
use embed_beetroot_hw_2_7_pr.Telemetry.{
  Telemetry, TelemetryCtx, battery_update, ac_update, dc_update, notify_bits, handle_packet,
  handle_frame, pd_soc_offset, mppt_cfg_ac_enabled_offset, mppt_car_state_offset,
}

pub record Values : Type 0 where
  pub battery_percent : ℕ
  pub dc_out_state : ℕ
  pub ac_enabled : ℕ

abbrev pub values : Telemetry → Values
values s = record {
  battery_percent = s.battery_percent;
  dc_out_state = s.dc_out_state;
  ac_enabled = s.ac_enabled;
}

abbrev pub is_pd_heartbeat : InnerPacket → Bool
is_pd_heartbeat pkt = pkt.cmd_id == 0x02 && (pkt.src == 0x02 && pkt.cmd_set == 0x20)

abbrev pub is_from_mppt : InnerPacket → Bool
is_from_mppt pkt = pkt.cmd_id == 0x02 && pkt.src == 0x05

-- A byte of the payload, where there is one.
abbrev pub byte_or : Bool → InnerPacket → ℕ → ℕ → ℕ
byte_or here pkt offset old =
    if here && ltb offset pkt.payload_len then get_or pkt.payload offset 0 else old

-- What the code takes from a packet: it tests the command set of the PD heartbeat only.
abbrev pub heed : InnerPacket → Values → Values
heed pkt v = record {
  battery_percent = byte_or (is_pd_heartbeat pkt) pkt 14 v.battery_percent;
  dc_out_state = byte_or (is_from_mppt pkt) pkt 56 v.dc_out_state;
  ac_enabled = byte_or (is_from_mppt pkt) pkt 66 v.ac_enabled;
}

-- The packet that a frame brings, if it does.
abbrev pub decode : Psa → TelemetryCtx → List ℕ → Frame → Option InnerPacket
decode psa ctx stack frame =
    if frame.frame_type == river2_frame_data
    then elim (river2_session_decrypt psa ctx.session frame.payload stack 256) [
      | err e ↦ none
      | ok decrypted ↦ river2_inner_parse decrypted
    ]
    else none

abbrev pub heed_if : Option InnerPacket → Values → Values
heed_if none v = v
heed_if (some pkt) v = heed pkt v

notify_bits-values : (r : ℕ × Telemetry) → values (notify_bits r) ≡ values r.1
unfolding notify_bits
notify_bits-values (bits, s) = elim (Bool-cases (bits == 0)) [
  | inl none_set ↦ rw none_set refl
  | inr some_set ↦ rw some_set refl
]

-- The three updates, whether or not a bit is set.
battery_update-values :
    (interval_ms now_us : ℕ) (pkt : InnerPacket) (s : Telemetry)
    → values (battery_update interval_ms now_us pkt s).1
      ≡ record (values s) { battery_percent = byte_or true pkt 14 s.battery_percent }
unfolding battery_update
battery_update-values interval_ms now_us pkt s =
    elim (Bool-cases (ltb pd_soc_offset pkt.payload_len)) [
      | inr short ↦ rw short refl
      | inl long ↦ rw long (elim (Bool-cases (leb s.next_notify_us now_us)) [
        | inl due ↦ rw due refl
        | inr early ↦ rw early refl
      ])
    ]

ac_update-ac :
    (pkt : InnerPacket) (s : Telemetry)
    → (ac_update pkt s).1 ≡ record s { ac_enabled = byte_or true pkt 66 s.ac_enabled }
unfolding ac_update
ac_update-ac pkt s = elim (Bool-cases (ltb mppt_cfg_ac_enabled_offset pkt.payload_len)) [
  | inr short ↦ rw short refl
  | inl long ↦
      rw long (elim (Bool-cases (get_or pkt.payload mppt_cfg_ac_enabled_offset 0 == s.ac_enabled)) [
        | inr changed ↦ rw changed refl
        | inl same ↦ rw same (
            ap (λ v. record s { ac_enabled = v })
              (sym
                ((==_iff (get_or pkt.payload mppt_cfg_ac_enabled_offset 0) s.ac_enabled).0 same)))
      ])
]

dc_update-dc :
    (pkt : InnerPacket) (s : Telemetry)
    → (dc_update pkt s).1 ≡ record s { dc_out_state = byte_or true pkt 56 s.dc_out_state }
unfolding dc_update
dc_update-dc pkt s = elim (Bool-cases (ltb mppt_car_state_offset pkt.payload_len)) [
  | inr short ↦ rw short refl
  | inl long ↦
      rw long (elim (Bool-cases (get_or pkt.payload mppt_car_state_offset 0 == s.dc_out_state)) [
        | inr changed ↦ rw changed refl
        | inl same ↦ rw same (
            ap (λ v. record s { dc_out_state = v })
              (sym ((==_iff (get_or pkt.payload mppt_car_state_offset 0) s.dc_out_state).0 same)))
      ])
]

mppt_update-values :
    (pkt : InnerPacket) (s : Telemetry)
    → (let (ac_bit, s1) = ac_update pkt s in
        let (dc_bit, s2) = dc_update pkt s1 in values (notify_bits (bit_or ac_bit dc_bit, s2)))
      ≡ record (values s) {
        dc_out_state = byte_or true pkt 56 s.dc_out_state;
        ac_enabled = byte_or true pkt 66 s.ac_enabled;
      }
mppt_update-values pkt s =
    notify_bits-values (
      bit_or (ac_update pkt s).0 (dc_update pkt (ac_update pkt s).1).0,
      (dc_update pkt (ac_update pkt s).1).1,
    )
    ∙ ap values (dc_update-dc pkt (ac_update pkt s).1)
    ∙ ap (λ t. record (values t) { dc_out_state = byte_or true pkt 56 t.dc_out_state })
        (ac_update-ac pkt s)

handle_packet-values :
    (interval_ms now_us : ℕ) (pkt : InnerPacket) (s : Telemetry)
    → values (handle_packet interval_ms now_us pkt s) ≡ heed pkt (values s)
unfolding handle_packet
handle_packet-values interval_ms now_us pkt s =
    elim (Bool-cases (pkt.cmd_id == river2_cmdid_heartbeat)) [
      | inr other ↦ rw other refl
      | inl heartbeat ↦
          elim (Bool-cases (pkt.src == river2_addr_pd && pkt.cmd_set == river2_cmdset_heartbeat)) [
            | inl pd ↦
                let not_mppt : (pkt.src == 0x05) ≡ false = ground arith in
                rw (heartbeat, pd, not_mppt)
                  (notify_bits-values (battery_update interval_ms now_us pkt s)
                    ∙ battery_update-values interval_ms now_us pkt s)
            | inr not_pd ↦ elim (Bool-cases (pkt.src == river2_addr_mppt)) [
              | inl mppt ↦ rw (heartbeat, not_pd, mppt) (mppt_update-values pkt s)
              | inr other ↦ rw (heartbeat, not_pd, other) refl
            ]
          ]
    ]

handle_packet-fb :
    (interval_ms now_us : ℕ) (pkt : InnerPacket) (s : Telemetry)
    → (handle_packet interval_ms now_us pkt s).fb ≡ s.fb
unfolding handle_packet battery_update ac_update dc_update notify_bits
handle_packet-fb interval_ms now_us pkt s = ground arith

module _ (psa : Psa) (ctx : TelemetryCtx) (now_us : ℕ) (stack : List ℕ) where
  -- The packet is handled, if there is one.
  handle_if : Option InnerPacket → Telemetry → Telemetry
  handle_if none s = s
  handle_if (some pkt) s = handle_packet ctx.interval_ms now_us pkt s

  handle_parsed :
      (o : Option InnerPacket) (s : Telemetry)
      → (elim o [ none ↦ s | some pkt ↦ handle_packet ctx.interval_ms now_us pkt s ])
        ≡ handle_if o s
  unfolding handle_if
  handle_parsed none s = refl
  handle_parsed (some pkt) s = refl

  handle_opened :
      (r : Result (List ℕ)) (s : Telemetry)
      → (elim r [
        | err e ↦ s
        | ok decrypted ↦ elim (river2_inner_parse decrypted) [
          | none ↦ s
          | some pkt ↦ handle_packet ctx.interval_ms now_us pkt s
        ]
      ])
        ≡ handle_if (elim r [ err e ↦ none | ok decrypted ↦ river2_inner_parse decrypted ]) s
  unfolding handle_if
  handle_opened (ok decrypted) s = handle_parsed (river2_inner_parse decrypted) s
  handle_opened (err e) s = refl

  handle_frame-decode :
      (frame : Frame) (s : Telemetry)
      → handle_frame psa ctx now_us stack frame s ≡ handle_if (decode psa ctx stack frame) s
  unfolding handle_frame handle_if
  handle_frame-decode frame s = elim (Bool-cases (frame.frame_type == river2_frame_data)) [
    | inl data_frame ↦
        rw data_frame
          (handle_opened (river2_session_decrypt psa ctx.session frame.payload stack 256) s)
    | inr other ↦ rw other refl
  ]

  handle_if-heed :
      (o : Option InnerPacket) (s : Telemetry)
      → (values (handle_if o s) ≡ heed_if o (values s)) × ((handle_if o s).fb ≡ s.fb)
  unfolding handle_if
  handle_if-heed none s = (refl, refl)
  handle_if-heed (some pkt) s = (
    handle_packet-values ctx.interval_ms now_us pkt s,
    handle_packet-fb ctx.interval_ms now_us pkt s,
  )

  -- What a frame does to the values; the reassembler's buffer is left alone.
  pub handle_frame-heed :
      (frame : Frame) (s : Telemetry)
      → (let s' = handle_frame psa ctx now_us stack frame s in
          (values s' ≡ heed_if (decode psa ctx stack frame) (values s)) × (s'.fb ≡ s.fb))
  handle_frame-heed frame s =
      let o = decode psa ctx stack frame in
      let same = handle_frame-decode frame s in
      let done = handle_if-heed o s in (ap values same ∙ done.0, ap (λ t. t.fb) same ∙ done.1)
