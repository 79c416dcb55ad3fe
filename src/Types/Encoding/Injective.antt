-- ===== src/Types/Encoding/Injective.antt =====
-- CalculateHash of pkg/types/vertex.go: which vertices share a byte stream.
use mathlib.Core.List.{append_assoc}
use klef.Prelude.{ℤ, ◌<◌, ◌^◌, ◌≡◌, sym, ap, ◌∙◌, Option, List, [], ◌++◌, map, length, int_eq}
use klef.Types.Hash.{Hash, Bytes}
use klef.Types.Vertex.{Vertex}
use klef.Types.Encoding.{
  int_bytes, length_bytes, hash_bytes, blob_bytes, concat_map, qc_bytes, vertex_bytes,
}
use klef.Types.Encoding.Codes.{
  IsCode, IntFits, pair_bytes, list_bytes, ListFits, int_bytes-IsCode, pair_bytes-IsCode,
  list_bytes-IsCode, hash_bytes-IsCode, blob_bytes-IsCode,
}
use klef.Types.Encoding.Certificates.{
  list_bytes-map, Seen, seen, SeenFits, seen_bytes, seen_bytes-IsCode, qc_bytes-seen,
}

-- Author, round and parents, which are written first.
abbrev Head : Type 0
Head = ℤ × (ℤ × List Hash)

abbrev Body : Type 0
Body = List (Option Seen) × (ℤ × List Bytes)

abbrev head_of : Vertex → Head
head_of v = (v.author, (v.round, v.parents))

abbrev body_of : Vertex → Body
body_of v = (map seen v.parent_qcs, (v.timestamp, v.payload))

abbrev head_bytes : Head → Bytes
head_bytes = pair_bytes (int_bytes 4) (pair_bytes (int_bytes 8) (list_bytes hash_bytes))

abbrev body_bytes : Body → Bytes
body_bytes = pair_bytes (list_bytes seen_bytes) (pair_bytes (int_bytes 8) (list_bytes blob_bytes))

regroup :
    (a b l c q u t : Bytes)
    → a ++ (b ++ (l ++ (c ++ (q ++ (u ++ t))))) ≡ (a ++ (b ++ (l ++ c))) ++ ((q ++ u) ++ t)
regroup a b l c q u t = sym (
    append_assoc a (b ++ (l ++ c)) ((q ++ u) ++ t)
    ∙ ap (λ x. a ++ x)
        (append_assoc b (l ++ c) ((q ++ u) ++ t)
          ∙ ap (λ x. b ++ x)
              (append_assoc l c ((q ++ u) ++ t) ∙ ap (λ x. l ++ (c ++ x)) (append_assoc q u t))))

vertex_bytes-parts :
    (v : Vertex) → vertex_bytes v ≡ head_bytes (head_of v) ++ body_bytes (body_of v)
unfolding vertex_bytes
vertex_bytes-parts v =
    regroup (int_bytes 4 v.author) (int_bytes 8 v.round) (length_bytes v.parents)
      (concat_map hash_bytes v.parents) (length_bytes v.parent_qcs)
      (concat_map qc_bytes v.parent_qcs)
      (int_bytes 8 v.timestamp ++ list_bytes blob_bytes v.payload)
    ∙ ap
        (λ b.
          head_bytes (head_of v)
          ++ (b ++ (int_bytes 8 v.timestamp ++ list_bytes blob_bytes v.payload)))
        (list_bytes-map seen_bytes qc_bytes seen qc_bytes-seen v.parent_qcs)

-- Author, round and parents fit their widths.
pub record HeadFits (v : Vertex) : Type 0 where
  pub author : IntFits 4 v.author
  pub round : IntFits 8 v.round
  pub parents : ListFits (λ h. h < 256 ^ 32) v.parents

-- So do the certificates, of which none is missing, the time and the payload.
pub record BodyFits (v : Vertex) : Type 0 where
  pub certificates : ListFits SeenFits (map seen v.parent_qcs)
  pub timestamp : IntFits 8 v.timestamp
  pub payload : ListFits (λ b. length b < 2 ^ 31) v.payload

head_bytes-IsCode :
    IsCode
      (λ (h : Head). IntFits 4 h.0 × (IntFits 8 h.1.0 × ListFits (λ h. h < 256 ^ 32) h.1.1))
      head_bytes
head_bytes-IsCode = pair_bytes-IsCode (IntFits 4) _ (int_bytes 4) _ (int_bytes-IsCode 4) (
    pair_bytes-IsCode (IntFits 8) (ListFits (λ h. h < 256 ^ 32)) (int_bytes 8)
      (list_bytes hash_bytes) (int_bytes-IsCode 8)
      (list_bytes-IsCode (λ h. h < 256 ^ 32) hash_bytes hash_bytes-IsCode))

body_bytes-IsCode :
    IsCode
      (λ (b : Body).
        ListFits SeenFits b.0 × (IntFits 8 b.1.0 × ListFits (λ b. length b < 2 ^ 31) b.1.1))
      body_bytes
body_bytes-IsCode =
    pair_bytes-IsCode (ListFits SeenFits) _ (list_bytes seen_bytes) _
      (list_bytes-IsCode SeenFits seen_bytes seen_bytes-IsCode)
      (pair_bytes-IsCode (IntFits 8) (ListFits (λ b. length b < 2 ^ 31)) (int_bytes 8)
        (list_bytes blob_bytes) (int_bytes-IsCode 8)
        (list_bytes-IsCode (λ b. length b < 2 ^ 31) blob_bytes blob_bytes-IsCode))

same_head :
    (v w : Vertex)
    → HeadFits v
    → HeadFits w
    → vertex_bytes v ≡ vertex_bytes w
    → (head_of v ≡ head_of w) × (body_bytes (body_of v) ≡ body_bytes (body_of w))
same_head v w fv fw e =
    head_bytes-IsCode (head_of v) (head_of w) (body_bytes (body_of v)) (body_bytes (body_of w))
      (fv.author, (fv.round, fv.parents)) (fw.author, (fw.round, fw.parents))
      (sym (vertex_bytes-parts v) ∙ e ∙ vertex_bytes-parts w)

-- Vertices that are hashed from the same bytes have the same author, round and parents.
pub vertex_bytes-head :
    (v w : Vertex)
    → HeadFits v
    → HeadFits w
    → vertex_bytes v ≡ vertex_bytes w
    → (v.author ≡ w.author) × (v.round ≡ w.round) × (v.parents ≡ w.parents)
vertex_bytes-head v w fv fw e =
    let h = (same_head v w fv fw e).0 in
    (ap (λ (x : Head). x.0) h, ap (λ (x : Head). x.1.0) h, ap (λ (x : Head). x.1.1) h)

-- The bytes that are hashed determine the vertex: if the fields fit the widths with which they are
-- written and no certificate is missing, then the same bytes mean the same author, round, parents,
-- time and payload, and the same certificates with the signatures in the order of their signers.
pub vertex_bytes_inj :
    (v w : Vertex)
    → HeadFits v
    → BodyFits v
    → HeadFits w
    → BodyFits w
    → vertex_bytes v ≡ vertex_bytes w
    → (v.author ≡ w.author)
      × (v.round ≡ w.round)
      × (v.parents ≡ w.parents)
      × (map seen v.parent_qcs ≡ map seen w.parent_qcs)
      × (v.timestamp ≡ w.timestamp)
      × (v.payload ≡ w.payload)
vertex_bytes_inj v w fv bv fw bw e =
    let (author, round, parents) = vertex_bytes-head v w fv fw e in
    let rest = (same_head v w fv fw e).1 in
    let same =
      (body_bytes-IsCode (body_of v) (body_of w) [] [] (bv.certificates, (bv.timestamp, bv.payload))
        (bw.certificates, (bw.timestamp, bw.payload)) (ap (λ b. b ++ []) rest)).0 in
    (
      author,
      round,
      parents,
      ap (λ (x : Body). x.0) same,
      ap (λ (x : Body). x.1.0) same,
      ap (λ (x : Body). x.1.1) same,
    )
