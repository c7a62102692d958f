-- ===== src/RemoteWrite/Symbols/Reading.antt =====
-- What a receiver reads through the table of internal/remotewrite/symbols.go.
use xflow_exporter.Common.{
  ℕ, zero, suc, ◌+◌, ◌*◌, ◌<◌, ◌≤◌, ◌%◌, ◌^◌, ◌≡◌, refl, ◌∙◌, some, List, [], ◌∷◌, ◌++◌, lookup,
  insert, length, take, get_or, list_eq, nat_eq, list_eqb_iff, lookup-insert, Option-cases, inl,
  inr, arith, ◌==◌, Bool-cases, length-append,
}
use xflow_exporter.Common.Bytes.{Text}
use xflow_exporter.RemoteWrite.Symbols.{
  SymbolTable, LabelPair, new_symbol_table, intern_symbol, intern_pairs, reset_symbols,
}

abbrev pub symbol_at : SymbolTable → ℕ → Text
symbol_at t ref = get_or t.symbols ref []

-- Each reference of the index lies in the table and spells its string; so does 0 the empty one.
pub record IsIndexed (t : SymbolTable) : Type 0 where
  pub indexed :
      (v : Text) (ref : ℕ)
      → lookup v t.index ≡ some ref
      → (ref < length t.symbols) × (symbol_at t ref ≡ v)
  pub seeded : (0 < length t.symbols) × (symbol_at t 0 ≡ [])

-- No reference into the first table spells anything else in the second.
pub record Extends (t u : SymbolTable) : Type 0 where
  pub longer : length t.symbols ≤ length u.symbols
  pub kept : (ref : ℕ) → ref < length t.symbols → symbol_at u ref ≡ symbol_at t ref

get_or-append :
    (xs ys : List Text) (i : ℕ) → i < length xs → get_or (xs ++ ys) i [] ≡ get_or xs i []
get_or-append [] ys i h = ground (arith, h)
get_or-append (x ∷ xs) ys zero h = refl
get_or-append (x ∷ xs) ys (suc i) h = get_or-append xs ys i (omega (arith, h))

get_or-length : (xs : List Text) (v : Text) → get_or (xs ++ (v ∷ [])) (length xs) [] ≡ v
get_or-length [] v = refl
get_or-length (x ∷ xs) v = get_or-length xs v

Extends-trans : (t u v : SymbolTable) → Extends t u → Extends u v → Extends t v
Extends-trans t u v a b = record {
  longer = omega (arith, a.longer, b.longer);
  kept = λ ref h. b.kept ref (omega (arith, h, a.longer)) ∙ a.kept ref h;
}

-- The reference spells the string, the table stays indexed and grows by one string at most.
record IsInterned (value : Text) (t u : SymbolTable) (ref : ℕ) : Type 0 where
  spelled : (ref < length u.symbols) × (symbol_at u ref ≡ value)
  table : IsIndexed u
  extends : Extends t u
  grown : length u.symbols ≤ length t.symbols + 1

intern_symbol_lem :
    (value : Text) (t : SymbolTable)
    → IsIndexed t
    → length t.symbols < 2 ^ 32
    → IsInterned value t (intern_symbol value t).0 (intern_symbol value t).1
unfolding intern_symbol
intern_symbol_lem value t h room = elim (Option-cases (lookup value t.index)) [
  | inr (ref, held) ↦
      rw (intern_symbol, held)
        (record {
          spelled = h.indexed value ref held;
          table = h;
          extends = record { longer = omega arith; kept = λ r hr. refl };
          grown = omega arith;
        })
  | inl new ↦
      let u : SymbolTable = record {
        symbols = t.symbols ++ (value ∷ []);
        index = insert value (length t.symbols) t.index;
      } in
      let long = length-append t.symbols (value ∷ []) in
      let same_ref : length t.symbols % 2 ^ 32 ≡ length t.symbols = omega (arith, room) in
      let longer : length t.symbols < length u.symbols = omega (arith, long) in
      rw (intern_symbol, new, same_ref)
        (record {
          spelled = (longer, get_or-length t.symbols value);
          table = record {
            indexed = λ v r is. elim (Bool-cases (value == v)) [
              | inl same ↦
                  let at_end : length t.symbols ≡ r =
                    ground (arith, is, lookup-insert value v (length t.symbols) t.index) in
                  rw (← at_end, ← (list_eqb_iff value v).0 same)
                    (longer, get_or-length t.symbols value)
              | inr other ↦
                  let before =
                    h.indexed v r
                      (ground (arith, is, lookup-insert value v (length t.symbols) t.index)) in
                  (
                    omega (arith, before.0, longer),
                    get_or-append t.symbols (value ∷ []) r before.0 ∙ before.1,
                  )
            ];
            seeded = (
              omega (arith, longer),
              get_or-append t.symbols (value ∷ []) 0 h.seeded.0 ∙ h.seeded.1,
            );
          };
          extends = record {
            longer = omega (arith, longer);
            kept = λ r hr. get_or-append t.symbols (value ∷ []) r hr;
          };
          grown = omega (arith, long);
        })
]

-- The labels that a list of references spells.
abbrev pub read_pairs : SymbolTable → List ℕ → List LabelPair
read_pairs t [] = []
read_pairs t (name_ref ∷ []) = []
read_pairs t (name_ref ∷ value_ref ∷ rest) =
    record { name = symbol_at t name_ref; value = symbol_at t value_ref } ∷ read_pairs t rest

intern_pairs_lem :
    (pairs : List LabelPair) (t : SymbolTable)
    → IsIndexed t
    → length t.symbols + 2 * length pairs < 2 ^ 32
    → let (u, refs) = intern_pairs pairs t in
      ((w : SymbolTable) → Extends u w → read_pairs w refs ≡ pairs) × IsIndexed u × Extends t u
unfolding intern_pairs
intern_pairs_lem [] t h room =
    (λ w e. refl, h, record { longer = omega arith; kept = λ r hr. refl })
intern_pairs_lem (pair ∷ rest) t h room =
    let t1 = (intern_symbol pair.name t).0 in
    let t2 = (intern_symbol pair.value t1).0 in
    let u = (intern_pairs rest t2).0 in
    let one = intern_symbol_lem pair.name t h (omega (arith, room)) in
    let two = intern_symbol_lem pair.value t1 one.table (omega (arith, room, one.grown)) in
    let (others, last, extends) =
      intern_pairs_lem rest t2 two.table (omega (arith, room, one.grown, two.grown)) in
    let from_two = Extends-trans t1 t2 u two.extends extends in
    (
      λ w e.
          let name_kept =
            (Extends-trans t1 u w from_two e).kept (intern_symbol pair.name t).1 one.spelled.0
            ∙ one.spelled.1 in
          let value_kept =
            (Extends-trans t2 u w extends e).kept (intern_symbol pair.value t1).1 two.spelled.0
            ∙ two.spelled.1 in
          rw (name_kept, value_kept, others w e) refl,
      last,
      Extends-trans t t1 u one.extends from_two,
    )

-- On a table whose references spell their strings and that the series' labels cannot take past 2^32
-- symbols, the references read back as those labels, also through any later table in which they
-- spell the same; what was spelled before is spelled still, and the table stays such.
pub intern_pairs-read :
    (pairs : List LabelPair) (t later : SymbolTable)
    → IsIndexed t
    → length t.symbols + 2 * length pairs < 2 ^ 32
    → Extends (intern_pairs pairs t).0 later
    → let (u, refs) = intern_pairs pairs t in
      (read_pairs later refs ≡ pairs) × IsIndexed u × Extends t u
intern_pairs-read pairs t later h room extends =
    let (read, indexed, kept) = intern_pairs_lem pairs t h room in
    (read later extends, indexed, kept)

first_only : (xs : List Text) → 0 < length xs → get_or xs 0 [] ≡ [] → take 1 xs ≡ [] ∷ []
first_only [] h e = ground (arith, h)
first_only (x ∷ xs) h e = rw e refl

-- A table that is emptied for the next request is a new one.
pub reset_symbols-new : (t : SymbolTable) → IsIndexed t → reset_symbols t ≡ new_symbol_table
unfolding reset_symbols
reset_symbols-new t h = rw (first_only t.symbols h.seeded.0 h.seeded.1) refl
