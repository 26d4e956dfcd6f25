-- ===== src/Readiness/Edges.antt =====
-- The edges of the upgrade-path graph against the rows that they come from.
use gard.Prelude.{
  String, none, some, List, [], ◌∷◌, ◌≡◌, refl, ap, map, filter_by, is_none, str_eq, ◌&&◌,
  if◌then◌else◌, Bool-cases, Option-cases, inl, inr,
}
use gard.Db.{FirmwareUpgradePath, Db}
use gard.UpgradePath.{EdgeSpec}
use gard.Readiness.{platform_edges}

abbrev edge_of : FirmwareUpgradePath → EdgeSpec
edge_of p = record { from_version = p.from_version; to_version = p.to_version; weight = p.weight }

-- The edges of a platform: one for each row of the platform that is not removed.
unfoldable pub live_edges : String → List FirmwareUpgradePath → List EdgeSpec
live_edges platform [] = []
live_edges platform (p ∷ paths) = elim p.removed_at [
  | some t ↦ live_edges platform paths
  | none ↦
      if str_eq p.platform_family platform
      then record { from_version = p.from_version; to_version = p.to_version; weight = p.weight }
        ∷ live_edges platform paths
      else live_edges platform paths
]

pub platform_edges-live_edges :
    (db : Db) (platform : String)
    → platform_edges db platform ≡ live_edges platform db.upgrade_paths
unfolding platform_edges live_edges
platform_edges-live_edges db platform = each db.upgrade_paths
  where
    each :
        (paths : List FirmwareUpgradePath)
        → map
            (λ p. record {
              from_version = p.from_version;
              to_version = p.to_version;
              weight = p.weight;
            })
            (filter_by (λ p. is_none p.removed_at && str_eq p.platform_family platform) paths)
          ≡ live_edges platform paths
    each [] = refl
    each (p ∷ paths) = elim (Option-cases p.removed_at) [
      | inr (t, e) ↦ rw e (each paths)
      | inl e ↦ elim (Bool-cases (str_eq p.platform_family platform)) [
        | inl k ↦ rw (e, k) (ap (λ l. edge_of p ∷ l) (each paths))
        | inr k ↦ rw (e, k) (each paths)
      ]
    ]
