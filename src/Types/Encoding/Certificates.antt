-- ===== src/Types/Encoding/Certificates.antt =====
-- CalculateHash of pkg/types/vertex.go: what is written of a certificate.
use klef.Prelude.{
  ℤ, pos, suc, ◌<◌, ◌^◌, ◌≡◌, refl, sym, ap, ◌∙◌, Option, none, some, List, [], ◌∷◌, ◌++◌, map,
  length, or_zero, int_eq, ltb_ℤ,
}
use klef.Prelude.Map.{lookup, keys}
use klef.Prelude.Sorting.{sort-length}
use klef.Types.Hash.{Hash, Bytes}
use klef.Types.Vertex.{Qc}
use klef.Types.Encoding.{
  int_bytes, length_bytes, hash_bytes, blob_bytes, concat_map, signature_bytes, sorted_ids,
  qc_bytes, qc_type_value,
}
use klef.Types.Encoding.Codes.{
  IsCode, IntFits, pair_bytes, list_bytes, ListFits, int_bytes-IsCode, pair_bytes-IsCode,
  list_bytes-IsCode, hash_bytes-IsCode, blob_bytes-IsCode,
}

length-map : {A B : Type 0} (f : A → B) (xs : List A) → length (map f xs) ≡ length xs
length-map f [] = refl
length-map f (x ∷ xs) = ap suc (length-map f xs)

concat_map-map :
    {A B : Type 0} (f : B → Bytes) (g : A → Bytes) (view : A → B)
    → ((a : A) → g a ≡ f (view a))
    → (xs : List A) → concat_map g xs ≡ concat_map f (map view xs)
unfolding concat_map
concat_map-map f g view h [] = refl
concat_map-map f g view h (x ∷ xs) =
    ap (λ b. b ++ concat_map g xs) (h x) ∙ ap (λ b. f (view x) ++ b) (concat_map-map f g view h xs)

length_bytes-length :
    {A B : Type 0} (xs : List A) (ys : List B)
    → length xs ≡ length ys
    → length_bytes xs ≡ length_bytes ys
unfolding length_bytes
length_bytes-length xs ys e = ap (λ n. int_bytes 4 (pos n)) e

pub list_bytes-map :
    {A B : Type 0} (f : B → Bytes) (g : A → Bytes) (view : A → B)
    → ((a : A) → g a ≡ f (view a))
    → (xs : List A)
    → length_bytes xs ++ concat_map g xs ≡ length_bytes (map view xs) ++ concat_map f (map view xs)
list_bytes-map f g view h xs =
    ap (λ b. b ++ concat_map g xs) (length_bytes-length xs (map view xs) (sym (length-map view xs)))
    ∙ ap (λ b. length_bytes (map view xs) ++ b) (concat_map-map f g view h xs)

-- A certificate's signatures in the order in which they are written.
abbrev pub entries : List (ℤ × Bytes) → List (ℤ × Bytes)
entries signatures = map (λ id. (id, or_zero (lookup id signatures) [])) (sorted_ids signatures)

-- What is written of a certificate.
abbrev pub Seen : Type 0
Seen = ℤ × (ℤ × (ℤ × (Hash × List (ℤ × Bytes))))

abbrev pub seen : Option Qc → Option Seen
seen none = none
seen (some qc) =
    some
      (qc_type_value qc.kind, (qc.round, (qc.proposer_id, (qc.vertex_hash, entries qc.signatures))))

abbrev entry_bytes : ℤ × Bytes → Bytes
entry_bytes = pair_bytes (int_bytes 4) blob_bytes

abbrev pub EntryFits : ℤ × Bytes → Type 0
EntryFits e = IntFits 4 e.0 × (length e.1 < 2 ^ 31)

entry_bytes-IsCode : IsCode EntryFits entry_bytes
entry_bytes-IsCode =
    pair_bytes-IsCode (IntFits 4) (λ b. length b < 2 ^ 31) (int_bytes 4) blob_bytes
      (int_bytes-IsCode 4) blob_bytes-IsCode

-- The fields of a certificate fit their widths; a missing certificate is not written, so it does not.
abbrev pub SeenFits : Option Seen → Type 0
SeenFits none = ⊥
SeenFits (some x) =
    IntFits 1 x.0
    × (IntFits 8 x.1.0
        × (IntFits 4 x.1.1.0 × ((x.1.1.1.0 < 256 ^ 32) × ListFits EntryFits x.1.1.1.1)))

abbrev pub seen_bytes : Option Seen → Bytes
seen_bytes none = []
seen_bytes (some x) =
    pair_bytes (int_bytes 1)
      (pair_bytes (int_bytes 8)
        (pair_bytes (int_bytes 4) (pair_bytes hash_bytes (list_bytes entry_bytes))))
      x

pub seen_bytes-IsCode : IsCode SeenFits seen_bytes
seen_bytes-IsCode none b r s ha hb e = absurd ha
seen_bytes-IsCode (some x) none r s ha hb e = absurd hb
seen_bytes-IsCode (some x) (some y) r s ha hb e =
    let code = pair_bytes-IsCode (IntFits 1) _ (int_bytes 1) _ (int_bytes-IsCode 1) (
      pair_bytes-IsCode (IntFits 8) _ (int_bytes 8) _ (int_bytes-IsCode 8) (
        pair_bytes-IsCode (IntFits 4) _ (int_bytes 4) _ (int_bytes-IsCode 4) (
          pair_bytes-IsCode (λ h. h < 256 ^ 32) (ListFits EntryFits) hash_bytes
            (list_bytes entry_bytes) hash_bytes-IsCode
            (list_bytes-IsCode EntryFits entry_bytes entry_bytes-IsCode)))) in
    let (same, rest) = code x y r s ha hb e in (ap some same, rest)

signature_bytes-entries :
    (signatures : List (ℤ × Bytes))
    → length_bytes signatures ++ concat_map (signature_bytes signatures) (sorted_ids signatures)
      ≡ list_bytes entry_bytes (entries signatures)
unfolding signature_bytes sorted_ids
signature_bytes-entries signatures =
    let count : length signatures ≡ length (sorted_ids signatures) =
      sym (sort-length ltb_ℤ (keys signatures) ∙ length-map (λ e. e.0) signatures) in
    ap (λ b. b ++ concat_map (signature_bytes signatures) (sorted_ids signatures))
      (length_bytes-length signatures (sorted_ids signatures) count)
    ∙ list_bytes-map entry_bytes (signature_bytes signatures)
        (λ id. (id, or_zero (lookup id signatures) [])) (λ id. refl) (sorted_ids signatures)

pub qc_bytes-seen : (o : Option Qc) → qc_bytes o ≡ seen_bytes (seen o)
unfolding qc_bytes
qc_bytes-seen none = refl
qc_bytes-seen (some qc) =
    ap
      (λ b.
        int_bytes 1 (qc_type_value qc.kind)
        ++ (int_bytes 8 qc.round
            ++ (int_bytes 4 qc.proposer_id ++ (hash_bytes qc.vertex_hash ++ b))))
      (signature_bytes-entries qc.signatures)
