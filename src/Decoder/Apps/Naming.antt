-- ===== src/Decoder/Apps/Naming.antt =====
-- How many names and categories the application tables of internal/decoder/apps.go hold.
use xflow_exporter.Common.{
  ℕ, ◌≤◌, ◌≡◌, true, some, List, [], ◌∷◌, All, Map, lookup, insert, length, arith, Bool-cases,
  Option-cases, inl, inr, leb, ◌==◌, list_eq, nat_eq, length-insert,
}
use xflow_exporter.Common.Bytes.{Text, is_empty}
use xflow_exporter.Flow.{Addr}
use xflow_exporter.Flow.Identity.{addr_eq}
use xflow_exporter.Decoder.Apps.{
  AppTable, AppTables, intern, table_of, admits, set_name, set_category, sweep_apps,
  sweep_app_tables, max_apps_per_exporter,
}
use xflow_exporter.Decoder.Apps.Interning.{IsCanonical, intern_step}

-- A device's table within the budget.
pub record IsSized (t : AppTable) : Type 0 where
  pub names : length t.names ≤ max_apps_per_exporter
  pub categories : length t.categories ≤ max_apps_per_exporter

-- The interner canonical, and every table within the budget.
pub record IsResolver (a : AppTables) : Type 0 where
  pub strings : IsCanonical a.strings
  pub sized : All (λ (p : Addr × AppTable). IsSized p.1) a.tables

abbrev AllSized : Map Addr AppTable → Type 0
AllSized m = All (λ (p : Addr × AppTable). IsSized p.1) m

lookup-IsSized :
    (e : Addr) (t : AppTable) (m : Map Addr AppTable) → AllSized m → lookup e m ≡ some t → IsSized t
unfolding lookup
lookup-IsSized e t [] h is = cc is
lookup-IsSized e t ((k, u) ∷ m) (hu, hm) is = elim (Bool-cases (k == e)) [
  | inl same ↦ rw (the_one same) at hu
  | inr other ↦ lookup-IsSized e t m hm (ground (arith, is))
]
  where
    the_one : (k == e) ≡ true → u ≡ t
    the_one same = ground (arith, is)

insert-IsSized :
    (e : Addr) (t : AppTable) (m : Map Addr AppTable)
    → AllSized m
    → IsSized t
    → AllSized (insert e t m)
unfolding insert
insert-IsSized e t [] h ht = (ht, tt)
insert-IsSized e t ((k, u) ∷ m) (hu, hm) ht = elim (Bool-cases (k == e)) [
  | inl same ↦ rw (insert, same) (ht, hm)
  | inr other ↦ rw (insert, other) (hu, insert-IsSized e t m hm ht)
]

sweep_app_tables-IsSized :
    (cutoff : ℕ) (m : Map Addr AppTable) → AllSized m → AllSized (sweep_app_tables cutoff m).0
unfolding sweep_app_tables
sweep_app_tables-IsSized cutoff [] h = tt
sweep_app_tables-IsSized cutoff ((e, t) ∷ m) (ht, hm) =
    elim (Bool-cases (leb cutoff t.announced_at)) [
      | inl kept ↦ rw (sweep_app_tables, kept) (ht, sweep_app_tables-IsSized cutoff m hm)
      | inr gone ↦ rw (sweep_app_tables, gone) (sweep_app_tables-IsSized cutoff m hm)
    ]

table_of-IsSized : (e : Addr) (at : ℕ) (a : AppTables) → IsResolver a → IsSized (table_of e at a)
unfolding table_of
table_of-IsSized e at a h = elim (Option-cases (lookup e a.tables)) [
  | inl new ↦ rw (table_of, new) (record { names = omega arith; categories = omega arith })
  | inr (t, held) ↦
      let ht = lookup-IsSized e t a.tables h.sized held in
      rw (table_of, held) (record { names = ht.names; categories = ht.categories })
]

admitted-IsSized :
    (m : Map ℕ Text) (app_id : ℕ) (value : Text)
    → length m ≤ max_apps_per_exporter
    → admits m app_id ≡ true
    → length (insert app_id value m) ≤ max_apps_per_exporter
unfolding admits
admitted-IsSized m app_id value h room = ground (arith, length-insert app_id value m)

set_name-IsResolver :
    (e : Addr) (app_id : ℕ) (name : Text) (at : ℕ) (a : AppTables)
    → IsResolver a
    → IsResolver (set_name e app_id name at a)
unfolding set_name
set_name-IsResolver e app_id name at a h =
    let interned = (intern name a.strings).0 in
    let value = (intern name a.strings).1 in
    let a' : AppTables = record a { strings = interned } in
    let strings' = (intern_step name a.strings h.strings).1 in
    let h' : IsResolver a' = record { strings = strings'; sized = h.sized } in
    let t = table_of e at a' in
    let ht = table_of-IsSized e at a' h' in
    elim (Bool-cases (is_empty value)) [
      | inl unnamed ↦ rw (set_name, unnamed) h'
      | inr named ↦ elim (Bool-cases (admits t.names app_id)) [
        | inl room ↦
            rw (set_name, named, room)
              (record {
                strings = strings';
                sized =
                    insert-IsSized e (record t { names = insert app_id value t.names }) a.tables
                      h.sized
                      (record {
                        names = admitted-IsSized t.names app_id value ht.names room;
                        categories = ht.categories;
                      });
              })
        | inr full ↦
            rw (set_name, named, full)
              (record { strings = strings'; sized = insert-IsSized e t a.tables h.sized ht })
      ]
    ]

set_category-IsResolver :
    (e : Addr) (app_id : ℕ) (category : Text) (at : ℕ) (a : AppTables)
    → IsResolver a
    → IsResolver (set_category e app_id category at a)
unfolding set_category
set_category-IsResolver e app_id category at a h =
    let interned = (intern category a.strings).0 in
    let value = (intern category a.strings).1 in
    let a' : AppTables = record a { strings = interned } in
    let strings' = (intern_step category a.strings h.strings).1 in
    let h' : IsResolver a' = record { strings = strings'; sized = h.sized } in
    let t = table_of e at a' in
    let ht = table_of-IsSized e at a' h' in
    elim (Bool-cases (is_empty value)) [
      | inl unnamed ↦ rw (set_category, unnamed) h'
      | inr named ↦ elim (Bool-cases (admits t.categories app_id)) [
        | inl room ↦
            rw (set_category, named, room)
              (record {
                strings = strings';
                sized =
                    insert-IsSized e (record t { categories = insert app_id value t.categories })
                      a.tables h.sized
                      (record {
                        names = ht.names;
                        categories = admitted-IsSized t.categories app_id value ht.categories room;
                      });
              })
        | inr full ↦
            rw (set_category, named, full)
              (record { strings = strings'; sized = insert-IsSized e t a.tables h.sized ht })
      ]
    ]

-- What reaches the application tables.
pub data AppCall : Type 0 where
  naming_app : Addr → ℕ → Text → ℕ → AppCall
  filing_app : Addr → ℕ → Text → ℕ → AppCall
  app_sweep : ℕ → AppCall

unfoldable pub app_call : AppTables → AppCall → AppTables
app_call a (naming_app e app_id name at) = set_name e app_id name at a
app_call a (filing_app e app_id category at) = set_category e app_id category at a
app_call a (app_sweep cutoff) = (sweep_apps cutoff a).0

unfoldable pub app_calls : AppTables → List AppCall → AppTables
app_calls a [] = a
app_calls a (c ∷ rest) = app_calls (app_call a c) rest

app_call-IsResolver : (a : AppTables) (c : AppCall) → IsResolver a → IsResolver (app_call a c)
unfolding app_call sweep_apps
app_call-IsResolver a (naming_app e app_id name at) h = set_name-IsResolver e app_id name at a h
app_call-IsResolver a (filing_app e app_id category at) h =
    set_category-IsResolver e app_id category at a h
app_call-IsResolver a (app_sweep cutoff) h = record {
  strings = h.strings;
  sized = sweep_app_tables-IsSized cutoff a.tables h.sized;
}

-- From an interner whose strings stand for themselves and tables within the budget, whatever names and
-- categories are announced and whenever the tables are swept, the interner stays so and no device's
-- table passes 16384 names or 16384 categories.
pub app_calls-IsResolver :
    (a : AppTables) (run : List AppCall) → IsResolver a → IsResolver (app_calls a run)
unfolding app_calls
app_calls-IsResolver a [] h = h
app_calls-IsResolver a (c ∷ rest) h =
    app_calls-IsResolver (app_call a c) rest (app_call-IsResolver a c h)
