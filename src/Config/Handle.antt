-- ===== src/Config/Handle.antt =====
-- What `read_ecoflow_config` does with the NVS handle and the five calls.
use embed_beetroot_hw_2_7_pr.Prelude.{Result, ◌≡◌, ◌⊎◌, inl, inr, refl, List, ℕ, ok, err, EspErr}
use embed_beetroot_hw_2_7_pr.Config.{
  EcoflowConfig, Nvs, NvsHandle, ConfigRead, given_up, not_opened, left_open, closed, key_ef_user,
  key_ef_mac, key_ef_serial, key_lookup_table, read_ecoflow_config,
}

-- All five calls succeeded: the values are in the structure, and the handle is closed.
pub record AllRead (nvs : Nvs) (c0 : EcoflowConfig) (r : ConfigRead) : Type 0 where
  pub opened : nvs.open_ecoflow ≡ ok tt
  pub user : nvs.get_str key_ef_user c0.ef_user ≡ ok r.config.ef_user
  pub mac : nvs.get_blob key_ef_mac c0.ef_mac ≡ ok r.config.ef_mac
  pub serial : nvs.get_str key_ef_serial c0.ef_serial ≡ ok r.config.ef_serial
  pub table : nvs.get_blob key_lookup_table c0.lookup_table ≡ ok r.config.lookup_table
  pub succeeded : r.result ≡ ok tt
  pub is_closed : r.handle ≡ closed

-- The namespace could not be opened: there is no handle, and nothing was read.
pub record NotOpened (nvs : Nvs) (c0 : EcoflowConfig) (r : ConfigRead) : Type 0 where
  pub code : EspErr
  pub refused : nvs.open_ecoflow ≡ err code
  pub failed : r.result ≡ err code
  pub untouched : r.config ≡ c0
  pub none_open : r.handle ≡ not_opened

-- The first of the four reads that fails, with its code.
abbrev pub FirstFailure : Nvs → EcoflowConfig → EspErr → Type 0
FirstFailure nvs c0 code =
    (nvs.get_str key_ef_user c0.ef_user ≡ err code)
    ⊎ ((user : List ℕ) × (nvs.get_str key_ef_user c0.ef_user ≡ ok user)
        × ((nvs.get_blob key_ef_mac c0.ef_mac ≡ err code)
            ⊎ ((mac : List ℕ) × (nvs.get_blob key_ef_mac c0.ef_mac ≡ ok mac)
                × ((nvs.get_str key_ef_serial c0.ef_serial ≡ err code)
                    ⊎ ((serial : List ℕ) × (nvs.get_str key_ef_serial c0.ef_serial ≡ ok serial)
                        × (nvs.get_blob key_lookup_table c0.lookup_table ≡ err code))))))

-- A read failed: the handle is left open, and the lookup table is as it was.
pub record Leaked (nvs : Nvs) (c0 : EcoflowConfig) (r : ConfigRead) : Type 0 where
  pub opened : nvs.open_ecoflow ≡ ok tt
  pub code : EspErr
  pub failure : FirstFailure nvs c0 code
  pub failed : r.result ≡ err code
  pub same_table : r.config.lookup_table ≡ c0.lookup_table
  pub is_open : r.handle ≡ left_open

abbrev pub Ends : Nvs → EcoflowConfig → ConfigRead → Type 0
Ends nvs c0 r = AllRead nvs c0 r ⊎ (NotOpened nvs c0 r ⊎ Leaked nvs c0 r)

leaked :
    (nvs : Nvs) (c0 : EcoflowConfig) (e : EspErr) (user mac serial : List ℕ)
    → nvs.open_ecoflow ≡ ok tt
    → FirstFailure nvs c0 e
    → Ends nvs c0 (record {
      result = err e;
      config = record c0 { ef_user = user; ef_mac = mac; ef_serial = serial };
      handle = left_open;
    })
leaked nvs c0 e user mac serial opened failure = inr (
    inr (record {
      opened = opened;
      code = e;
      failure = failure;
      failed = refl;
      same_table = refl;
      is_open = refl;
    }))

-- Either the call fails and the function returns, or it goes on.
given_up_cases :
    {A : Type 0} (Goal : ConfigRead → Type 0) (handle : NvsHandle) (r : Result A)
    (c : EcoflowConfig) (rest : A → ConfigRead)
    → ((e : EspErr) → r ≡ err e → Goal (record { result = err e; config = c; handle = handle }))
    → ((a : A) → r ≡ ok a → Goal (rest a))
    → Goal (given_up handle r c rest)
given_up_cases Goal handle (ok a) c rest fails goes_on = goes_on a refl
given_up_cases Goal handle (err e) c rest fails goes_on = fails e refl

-- Whatever NVS returns: either all five calls succeed, their values are in the structure, the code
-- is success and the handle is closed; or the namespace cannot be opened, its code is returned,
-- there is no handle and the structure is as it was; or the code of the first of the four reads
-- that fails is returned, the handle is left open and the lookup table is as it was.
pub read_ecoflow_config-Ends :
    (nvs : Nvs) (c0 : EcoflowConfig) → Ends nvs c0 (read_ecoflow_config nvs c0)
unfolding read_ecoflow_config
read_ecoflow_config-Ends nvs c0 =
    given_up_cases (Ends nvs c0) not_opened nvs.open_ecoflow c0 _
      (λ e e0. inr (
        inl (record { code = e; refused = e0; failed = refl; untouched = refl; none_open = refl })))
      λ opened e0.
        given_up_cases (Ends nvs c0) left_open (nvs.get_str key_ef_user c0.ef_user) c0 _
          (λ e e1. leaked nvs c0 e c0.ef_user c0.ef_mac c0.ef_serial e0 (inl e1))
          λ user e1.
            given_up_cases (Ends nvs c0) left_open (nvs.get_blob key_ef_mac c0.ef_mac)
              (record c0 { ef_user = user }) _
              (λ e e2. leaked nvs c0 e user c0.ef_mac c0.ef_serial e0 (inr (user, e1, inl e2)))
              λ mac e2.
                given_up_cases (Ends nvs c0) left_open (nvs.get_str key_ef_serial c0.ef_serial)
                  (record c0 { ef_user = user; ef_mac = mac }) _
                  (λ e e3.
                    leaked nvs c0 e user mac c0.ef_serial e0
                      (inr (user, e1, inr (mac, e2, inl e3))))
                  λ serial e3.
                    given_up_cases (Ends nvs c0) left_open
                      (nvs.get_blob key_lookup_table c0.lookup_table)
                      (record c0 { ef_user = user; ef_mac = mac; ef_serial = serial }) _
                      (λ e e4.
                        leaked nvs c0 e user mac serial e0
                          (inr (user, e1, inr (mac, e2, inr (serial, e3, e4)))))
                      λ table e4. inl (record {
                        opened = e0;
                        user = e1;
                        mac = e2;
                        serial = e3;
                        table = e4;
                        succeeded = refl;
                        is_closed = refl;
                      })
