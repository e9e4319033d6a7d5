-- ===== src/Config/Tests.antt =====
-- A configuration whose last key is missing.
use embed_beetroot_hw_2_7_pr.Prelude.{[], ◌∷◌, replicate, ok, err, not_found}
use embed_beetroot_hw_2_7_pr.Config.{EcoflowConfig, Nvs, key_lookup_table, read_ecoflow_config}
use embed_beetroot_hw_2_7_pr.Config.Handle.{Ends, read_ecoflow_config-Ends}

abbrev blank : EcoflowConfig
blank = record {
  ef_user = replicate 20 0;
  ef_mac = replicate 6 0;
  ef_serial = replicate 17 0;
  lookup_table = [];
}

abbrev no_table : Nvs
no_table = record {
  open_ecoflow = ok tt;
  get_str = λ key before. ok (65 ∷ before);
  get_blob = λ key before. elim key [ key_lookup_table ↦ err not_found | other ↦ ok before ];
}

read_ecoflow_config-Ends_example : Ends no_table blank (read_ecoflow_config no_table blank)
read_ecoflow_config-Ends_example = read_ecoflow_config-Ends no_table blank
