-- ===== src/Config.antt =====
-- config/config.go. Durations are nanoseconds; node counts are natural numbers.
use klef.Prelude.{ℕ, ℤ, pos, ◌+◌, ◌*◌, ◌≡◌, refl, Bool, true}
use klef.Prelude.Float.{Float64, floor_mul}

abbrev pub Duration : Type 0
Duration = ℤ

abbrev pub millisecond : ℕ
millisecond = 1000000

pub record DagConfig : Type 0 where
  pub orphan_capacity : ℤ
  pub orphan_ttl : Duration
  pub sync_trigger_threshold : ℤ

pub record SyncConfig : Type 0 where
  pub enable_step_sync : Bool
  pub step1_timeout : Duration
  pub step2_timeout : Duration
  pub step3_timeout : Duration
  pub max_random_peers : ℤ

pub record RequestConfig : Type 0 where
  pub base_timeout : Duration
  pub max_backoff : Duration
  pub max_fetch_request_hashes : ℤ
  pub max_fetch_response_vtx : ℤ

pub record ConsensusConfig : Type 0 where
  pub total_nodes : ℕ
  pub committee_nodes : ℕ
  pub global_quorum_ratio : Float64
  pub committee_quorum_ratio : Float64

pub record SecurityConfig : Type 0 where
  pub slash_threshold : ℤ
  pub malformed_vertex_penalty : ℤ
  pub equivocation_penalty : ℤ

pub record ResourceConfig : Type 0 where
  pub fetcher_channel_size : ℕ
  pub validator_channel_size : ℕ

-- The key path, which only a file reader would use, is left out.
pub record Config : Type 0 where
  pub node_id : ℤ
  pub dag : DagConfig
  pub sync : SyncConfig
  pub request : RequestConfig
  pub consensus : ConsensusConfig
  pub security : SecurityConfig
  pub resource : ResourceConfig

-- The float64 values nearest to 0.67 and 0.75.
abbrev pub ratio_067 : Float64
ratio_067 = record { mantissa = 6034823500676465; scale = 53 }

abbrev pub ratio_075 : Float64
ratio_075 = record { mantissa = 3; scale = 2 }

unfoldable pub default_config : Config
default_config = record {
  node_id = pos 0;
  dag = record {
    orphan_capacity = pos 10000;
    orphan_ttl = pos (30 * 60 * 1000 * millisecond);
    sync_trigger_threshold = pos 2;
  };
  sync = record {
    enable_step_sync = true;
    step1_timeout = pos (300 * millisecond);
    step2_timeout = pos (500 * millisecond);
    step3_timeout = pos (1000 * millisecond);
    max_random_peers = pos 3;
  };
  request = record {
    base_timeout = pos (500 * millisecond);
    max_backoff = pos (640 * 1000 * millisecond);
    max_fetch_request_hashes = pos 100;
    max_fetch_response_vtx = pos 50;
  };
  consensus = record {
    total_nodes = 4;
    committee_nodes = 4;
    global_quorum_ratio = ratio_067;
    committee_quorum_ratio = ratio_075;
  };
  security = record {
    slash_threshold = pos 100;
    malformed_vertex_penalty = pos 15;
    equivocation_penalty = pos 100;
  };
  resource = record { fetcher_channel_size = 100; validator_channel_size = 1024 };
}

unfoldable pub load_config : Config
unfolding default_config
load_config = record default_config { node_id = pos 0 }

unfoldable pub get_global_threshold : Config → ℕ → ℕ
unfolding floor_mul
get_global_threshold c total_nodes = floor_mul total_nodes c.consensus.global_quorum_ratio + 1

unfoldable pub get_committee_threshold : Config → ℕ → ℕ
unfolding floor_mul
get_committee_threshold c committee_nodes =
    floor_mul committee_nodes c.consensus.committee_quorum_ratio + 1

default_thresholds :
    (get_global_threshold default_config 4 ≡ 3)
    × (get_committee_threshold default_config 4 ≡ 4)
    × (get_global_threshold default_config 100 ≡ 68)
unfolding get_global_threshold get_committee_threshold default_config
default_thresholds = (refl, refl, refl)
