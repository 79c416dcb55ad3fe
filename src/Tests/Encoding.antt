-- ===== src/Tests/Encoding.antt =====
-- The byte stream of small vertices.
use klef.Prelude.{ℤ, pos, ◌≡◌, refl, sym, subst, int_eq, some, List, [], ◌∷◌, map, arith}
use klef.Prelude.Map.{lookup}
use klef.Types.Hash.{Bytes}
use klef.Types.Vertex.{Vertex, Qc, qc_global}
use klef.Types.Encoding.{vertex_bytes, sorted_ids}
use klef.Types.Encoding.Codes.{ListFits}
use klef.Types.Encoding.Certificates.{SeenFits, EntryFits, entries, seen}
use klef.Types.Encoding.Injective.{HeadFits, BodyFits, vertex_bytes_inj}
use klef.Tests.Data.{genesis, child}

pub genesis-HeadFits : HeadFits genesis
genesis-HeadFits = record {
  author = (omega arith, omega arith);
  round = (omega arith, omega arith);
  parents = (omega arith, tt);
}

pub child-HeadFits : HeadFits child
child-HeadFits = record {
  author = (omega arith, omega arith);
  round = (omega arith, omega arith);
  parents = (omega arith, (omega arith, tt));
}

-- A child with a certificate, whose two signatures come in either order of the map.
abbrev certificate : List (ℤ × Bytes) → Qc
certificate signatures = record {
  kind = qc_global;
  vertex_hash = 32;
  round = pos 0;
  proposer_id = pos 2;
  signatures = signatures;
}

abbrev certified : List (ℤ × Bytes) → Vertex
certified signatures = record child {
  parent_qcs = some (certificate signatures) ∷ [];
  payload = (1 ∷ 2 ∷ []) ∷ [];
}

abbrev upwards : List (ℤ × Bytes)
upwards = (pos 1, 7 ∷ []) ∷ (pos 2, 9 ∷ []) ∷ []

abbrev downwards : List (ℤ × Bytes)
downwards = (pos 2, 9 ∷ []) ∷ (pos 1, 7 ∷ []) ∷ []

certified-HeadFits : (signatures : List (ℤ × Bytes)) → HeadFits (certified signatures)
certified-HeadFits signatures = record {
  author = child-HeadFits.author;
  round = child-HeadFits.round;
  parents = child-HeadFits.parents;
}

certificate_fits :
    (signatures : List (ℤ × Bytes))
    → ListFits EntryFits (entries signatures)
    → SeenFits (seen (some (certificate signatures)))
certificate_fits signatures h = (
  (omega arith, omega arith),
  ((omega arith, omega arith), ((omega arith, omega arith), (omega arith, h))),
)

-- Both orders give the entries of `upwards`.
upwards-entries : entries upwards ≡ upwards
unfolding sorted_ids lookup
upwards-entries = refl

downwards-entries : entries downwards ≡ upwards
unfolding sorted_ids lookup
downwards-entries = refl

two_fit : ListFits EntryFits upwards
two_fit = (
  omega arith,
  (((omega arith, omega arith), omega arith), (((omega arith, omega arith), omega arith), tt)),
)

certified-BodyFits :
    (signatures : List (ℤ × Bytes)) → entries signatures ≡ upwards → BodyFits (certified signatures)
certified-BodyFits signatures e = record {
  certificates =
      (omega arith, (certificate_fits signatures (subst (ListFits EntryFits) (sym e) two_fit), tt));
  timestamp = (omega arith, omega arith);
  payload = (omega arith, (omega arith, tt));
}

same_bytes : vertex_bytes (certified upwards) ≡ vertex_bytes (certified downwards)
unfolding vertex_bytes sorted_ids lookup
same_bytes = refl

vertex_bytes_inj_example :
    ((certified upwards).author ≡ (certified downwards).author)
    × ((certified upwards).round ≡ (certified downwards).round)
    × ((certified upwards).parents ≡ (certified downwards).parents)
    × (map seen (certified upwards).parent_qcs ≡ map seen (certified downwards).parent_qcs)
    × ((certified upwards).timestamp ≡ (certified downwards).timestamp)
    × ((certified upwards).payload ≡ (certified downwards).payload)
vertex_bytes_inj_example =
    vertex_bytes_inj (certified upwards) (certified downwards) (certified-HeadFits upwards)
      (certified-BodyFits upwards upwards-entries) (certified-HeadFits downwards)
      (certified-BodyFits downwards downwards-entries) same_bytes
