-- ===== src/RemoteWrite/Symbols.antt =====
-- internal/remotewrite/symbols.go: the symbol table through which a request spells its labels.
pub mod Reading
use xflow_exporter.Common.{
  ℕ, ◌%◌, ◌^◌, Option, none, some, List, [], ◌∷◌, ◌++◌, Map, lookup, insert, length, take, list_eq,
  nat_eq,
}
use xflow_exporter.Common.Bytes.{Text}

-- `symbolTable`
pub record SymbolTable : Type 0 where
  pub symbols : List Text
  pub index : Map Text ℕ

-- `labelPair`
pub record LabelPair : Type 0 where
  pub name : Text
  pub value : Text

-- `newSymbolTable`
abbrev pub new_symbol_table : SymbolTable
new_symbol_table = record { symbols = [] ∷ []; index = ([], 0) ∷ [] }

-- `symbolTable.intern`
unfoldable pub intern_symbol : Text → SymbolTable → SymbolTable × ℕ
intern_symbol value t = elim (lookup value t.index) [
  | some ref ↦ (t, ref)
  | none ↦
      let ref = length t.symbols % 2 ^ 32 in
      (record { symbols = t.symbols ++ (value ∷ []); index = insert value ref t.index }, ref)
]

-- `internPairs`
unfoldable pub intern_pairs : List LabelPair → SymbolTable → SymbolTable × List ℕ
unfolding intern_symbol
intern_pairs [] t = (t, [])
intern_pairs (pair ∷ rest) t =
    let (t', name_ref) = intern_symbol pair.name t in
    let (t'', value_ref) = intern_symbol pair.value t' in
    let (last, refs) = intern_pairs rest t'' in (last, name_ref ∷ value_ref ∷ refs)

-- `reset`
unfoldable pub reset_symbols : SymbolTable → SymbolTable
reset_symbols t = record { symbols = take 1 t.symbols; index = ([], 0) ∷ [] }
