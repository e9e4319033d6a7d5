-- ===== src/Config.antt =====
-- main/src/config.c and main/include/config.h: the configuration and its four reads from NVS.
pub mod Handle
mod Tests
use embed_beetroot_hw_2_7_pr.Prelude.{
  ℕ, suc, Bool, true, false, List, [], ◌∷◌, ◌==◌, if◌then◌else◌, ltb, length, Result, ok, err,
  and_then,
}

abbrev pub user_id_size : ℕ
user_id_size = 20

abbrev pub mac_size : ℕ
mac_size = 6

abbrev pub serial_size : ℕ
serial_size = 17

abbrev pub lut_size : ℕ
lut_size = 65280

-- The arrays of `ecoflow_config_t`, whole.
pub record EcoflowConfig : Type 0 where
  pub ef_user : List ℕ
  pub ef_mac : List ℕ
  pub ef_serial : List ℕ
  pub lookup_table : List ℕ

-- The keys under which the namespace "ecoflow" stores the values.
pub data ConfigKey : Type 0 where
  key_ef_user key_ef_mac key_ef_serial key_lookup_table : ConfigKey

-- The calls of the NVS library: `open` of the namespace, and a read of a key into an array of the
-- given contents, which returns the array afterwards.
pub record Nvs : Type 0 where
  pub open_ecoflow : Result (Unit {0})
  pub get_str : ConfigKey → List ℕ → Result (List ℕ)
  pub get_blob : ConfigKey → List ℕ → Result (List ℕ)

-- The NVS handle at the end.
pub data NvsHandle : Type 0 where
  not_opened left_open closed : NvsHandle

-- The results: the code that is returned, the configuration, and the handle.
pub record ConfigRead : Type 0 where
  pub result : Result (Unit {0})
  pub config : EcoflowConfig
  pub handle : NvsHandle

-- `ESP_RETURN_ON_ERROR`, with what the call leaves when it returns.
abbrev pub given_up :
    {A : Type 0} → NvsHandle → Result A → EcoflowConfig → (A → ConfigRead) → ConfigRead
given_up handle (ok a) config next = next a
given_up handle (err e) config next = record { result = err e; config = config; handle = handle }

-- An early return leaves what was read before it in the structure.
pub read_ecoflow_config : Nvs → EcoflowConfig → ConfigRead
read_ecoflow_config nvs c0 = given_up not_opened nvs.open_ecoflow c0 λ opened.
    given_up left_open (nvs.get_str key_ef_user c0.ef_user) c0 λ ef_user.
      let c1 = record c0 { ef_user = ef_user } in
      given_up left_open (nvs.get_blob key_ef_mac c1.ef_mac) c1 λ ef_mac.
        let c2 = record c1 { ef_mac = ef_mac } in
        given_up left_open (nvs.get_str key_ef_serial c2.ef_serial) c2 λ ef_serial.
          let c3 = record c2 { ef_serial = ef_serial } in
          given_up left_open (nvs.get_blob key_lookup_table c3.lookup_table) c3 λ lookup_table.
            record {
              result = ok tt;
              config = record c3 { lookup_table = lookup_table };
              handle = closed;
            }
