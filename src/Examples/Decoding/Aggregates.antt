-- ===== src/Examples/Decoding/Aggregates.antt =====
-- The theorem on the NetFlow v8 parser of internal/decoder at a concrete datagram.
use xflow_exporter.Common.{ℕ, ◌≡◌, replicate, List, [], ◌∷◌, some}
use xflow_exporter.Flow.{v4, unix}
use xflow_exporter.Decoder.Reason.{Reason, err}
use xflow_exporter.Decoder.Store.{Store, new_store}
use xflow_exporter.Decoder.Netflow8.{decode_netflow_v8}
use xflow_exporter.Decoder.Netflow8.Outcome.{answer, decode_netflow_v8_lem}

-- One record of method 1, a pair of autonomous systems.
abbrev as_matrix : List ℕ
as_matrix =
    0
    ∷ 8
    ∷ 0
    ∷ 1
    ∷ 0
    ∷ 0
    ∷ 3
    ∷ 232
    ∷ 101
    ∷ 83
    ∷ 241
    ∷ 0
    ∷ 0
    ∷ 0
    ∷ 0
    ∷ 0
    ∷ 0
    ∷ 0
    ∷ 0
    ∷ 9
    ∷ 0
    ∷ 1
    ∷ 1
    ∷ 2
    ∷ 0
    ∷ 0
    ∷ 0
    ∷ 0
    ∷ replicate 28 1

decode_netflow_v8_lem_example :
    (s' : Store) × (decode_netflow_v8 (v4 7) 2055 as_matrix [] (unix 100 0) (new_store 1000 60)
      ≡ some (answer (v4 7) as_matrix [], s'))
    × ((reason : Reason) → answer (v4 7) as_matrix [] ≡ err reason → s' ≡ new_store 1000 60)
decode_netflow_v8_lem_example =
    decode_netflow_v8_lem (v4 7) 2055 as_matrix [] (unix 100 0) (new_store 1000 60)
