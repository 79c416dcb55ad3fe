-- ===== src/Consensus/Quorum.antt =====
-- consensus/quorumpolicy.go. Node counts are below 2 ^ 53, where float64(n) is exact.
pub mod Rounding
pub mod Intersection
use klef.Prelude.{ℕ, ◌+◌, Bool, true, false, length, leb, ltb, if◌then◌else◌}
use klef.Prelude.Float.{Float64, floor_mul}
use klef.Types.Vertex.{QcType, qc_global, qc_committee, Qc}

pub record QuorumPolicy : Type 0 where
  pub old_total_n : ℕ
  pub new_total_n : ℕ
  pub old_committee_n : ℕ
  pub new_committee_n : ℕ
  pub is_transitioning : Bool
  pub global_ratio : Float64
  pub committee_ratio : Float64

unfoldable pub new_quorum_policy : ℕ → ℕ → Float64 → Float64 → QuorumPolicy
new_quorum_policy total_n committee_n g_ratio c_ratio = record {
  old_total_n = total_n;
  new_total_n = total_n;
  old_committee_n = committee_n;
  new_committee_n = committee_n;
  is_transitioning = false;
  global_ratio = g_ratio;
  committee_ratio = c_ratio;
}

unfoldable pub calc : ℕ → Float64 → ℕ
unfolding floor_mul
calc n r = floor_mul n r + 1

-- The stricter of the two thresholds.
unfoldable pub stricter : ℕ → ℕ → ℕ
stricter old_q new_q = if ltb new_q old_q then old_q else new_q

unfoldable pub size_of : Bool → ℕ → ℕ → Float64 → ℕ
unfolding calc stricter
size_of is_transitioning old_n new_n ratio =
    if is_transitioning then stricter (calc old_n ratio) (calc new_n ratio) else calc new_n ratio

unfoldable pub quorum_size : QuorumPolicy → QcType → ℕ
unfolding size_of
quorum_size p qc_global = size_of p.is_transitioning p.old_total_n p.new_total_n p.global_ratio
quorum_size p qc_committee =
    size_of p.is_transitioning p.old_committee_n p.new_committee_n p.committee_ratio

unfoldable pub is_quorum : QuorumPolicy → Qc → Bool
unfolding quorum_size
is_quorum p qc = leb (quorum_size p qc.kind) (length qc.signatures)
