-- ===== src/Examples/Pushing.antt =====
-- The theorem on internal/remotewrite/symbols.go at a concrete series.
use xflow_exporter.Common.{◌≡◌, refl, arith, List, [], ◌∷◌, lookup, list_eq, nat_eq}
use xflow_exporter.RemoteWrite.Symbols.{LabelPair, new_symbol_table, intern_pairs}
use xflow_exporter.RemoteWrite.Symbols.Reading.{IsIndexed, Extends, read_pairs, intern_pairs-read}

-- The labels a="b" and c="b".
abbrev labels : List LabelPair
labels =
    record { name = 97 ∷ []; value = 98 ∷ [] } ∷ record { name = 99 ∷ []; value = 98 ∷ [] } ∷ []

new_symbol_table-IsIndexed : IsIndexed new_symbol_table
unfolding lookup
new_symbol_table-IsIndexed = record {
  indexed = λ v ref is. ground (arith, is);
  seeded = (omega arith, refl);
}

same_table-Extends :
    Extends (intern_pairs labels new_symbol_table).0 (intern_pairs labels new_symbol_table).0
same_table-Extends = record { longer = omega arith; kept = λ ref h. refl }

intern_pairs-read_example :
    let (u, refs) = intern_pairs labels new_symbol_table in
    (read_pairs (intern_pairs labels new_symbol_table).0 refs ≡ labels)
    × IsIndexed u
    × Extends new_symbol_table u
intern_pairs-read_example =
    intern_pairs-read labels new_symbol_table (intern_pairs labels new_symbol_table).0
      new_symbol_table-IsIndexed (omega arith) same_table-Extends
