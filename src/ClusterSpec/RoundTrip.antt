-- ===== src/ClusterSpec/RoundTrip.antt =====
-- A specification and its config map.
use arlon.Prelude.{ap, ◌∙◌, ◌≡◌, refl, string_eq}
use arlon.Go.Exec.{ok}
use arlon.Go.Map.{lookup, read}
use arlon.Go.Strconv.{ℤ, IsInt64, atoi}
use arlon.Go.Strconv.RoundTrip.{atoi-itoa, parse_bool-format_bool}
use arlon.ClusterSpec.{ClusterSpec, ConfigMap, with_node_count, from_config_map, to_config_map}

-- The four numbers fit in 64 bits.
abbrev pub InRange : ClusterSpec → Type 0
InRange cs =
    IsInt64 cs.node_count
    × IsInt64 cs.master_node_count
    × IsInt64 cs.cluster_autoscaler_min_nodes
    × IsInt64 cs.cluster_autoscaler_max_nodes

from_config_map_lem :
    (cm : ConfigMap) (n : ℤ)
    → atoi (read cm.contents "nodeCount") ≡ ok n
    → from_config_map cm ≡ ok (with_node_count cm n)
unfolding from_config_map
from_config_map_lem cm n e = rw (from_config_map, e) refl

with_node_count-to_config_map :
    (cs : ClusterSpec) → InRange cs → with_node_count (to_config_map cs) cs.node_count ≡ cs
unfolding to_config_map lookup string_eq
with_node_count-to_config_map cs (nodes, masters, least, most) =
    rw
      (
        atoi-itoa cs.master_node_count masters,
        atoi-itoa cs.cluster_autoscaler_min_nodes least,
        atoi-itoa cs.cluster_autoscaler_max_nodes most,
        parse_bool-format_bool cs.cluster_autoscaler_enabled,
      )
      refl

-- A specification whose four numbers fit in 64 bits is read back, in all its fields, from the
-- config map that is made of it.
pub from_config_map-to_config_map :
    (cs : ClusterSpec) → InRange cs → from_config_map (to_config_map cs) ≡ ok cs
unfolding to_config_map lookup string_eq
from_config_map-to_config_map cs fits =
    from_config_map_lem (to_config_map cs) cs.node_count (atoi-itoa cs.node_count fits.0)
    ∙ ap ok (with_node_count-to_config_map cs fits)
