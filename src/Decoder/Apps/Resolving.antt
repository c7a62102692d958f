-- ===== src/Decoder/Apps/Resolving.antt =====
-- Which name an application resolves to after an announcement, internal/decoder/apps.go.
use xflow_exporter.Common.{
  ◌∙◌, ℕ, ◌≡◌, refl, Bool, true, false, not, ◌&&◌, Option, none, some, [], lookup, insert, arith,
  Bool-cases, Option-cases, inl, inr, if◌then◌else◌, nat_eqb, ◌==◌, list_eq, nat_eq, lookup-insert,
}
use xflow_exporter.Common.Bytes.{Text, is_empty}
use xflow_exporter.Flow.{Addr}
use xflow_exporter.Flow.Identity.{addr_eq, addr_eqb_iff}
use xflow_exporter.Decoder.Apps.{
  AppTable, AppTables, intern, table_of, admits, set_name, resolve, text_or_empty,
}
use xflow_exporter.Decoder.Apps.Interning.{clean, IsCanonical, intern_step}

tables-set_name :
    (e k : Addr) (app_id : ℕ) (name : Text) (at : ℕ) (a : AppTables)
    → lookup k (set_name e app_id name at a).tables ≡ (
        let value = (intern name a.strings).1 in
        let t = table_of e at a in
        if is_empty value
        then lookup k a.tables
        else if e == k
        then some
            (if admits t.names app_id then record t { names = insert app_id value t.names } else t)
        else lookup k a.tables)
unfolding set_name table_of
tables-set_name e k app_id name at a =
    let value = (intern name a.strings).1 in
    let t = table_of e at a in
    elim (Bool-cases (is_empty value)) [
      | inl unnamed ↦ rw (set_name, unnamed) refl
      | inr named ↦ elim (Bool-cases (admits t.names app_id)) [
        | inl room ↦
            rw (set_name, named, room)
              (lookup-insert e k (record t { names = insert app_id value t.names }) a.tables)
        | inr full ↦ rw (set_name, named, full) (lookup-insert e k t a.tables)
      ]
    ]

abbrev resolved : Option AppTable → ℕ → Text × Text
resolved none j = ([], [])
resolved (some t) j = (text_or_empty (lookup j t.names), text_or_empty (lookup j t.categories))

resolve-resolved :
    (k : Addr) (j : ℕ) (a : AppTables) → resolve k j a ≡ resolved (lookup k a.tables) j
unfolding resolve
resolve-resolved k j a = elim (Option-cases (lookup k a.tables)) [
  | inl absent ↦ rw (resolve, absent) refl
  | inr (t, held) ↦ rw (resolve, held) refl
]

-- The device's table, stamped or new, resolves as before.
resolved-table_of :
    (e : Addr) (at j : ℕ) (a : AppTables)
    → resolved (some (table_of e at a)) j ≡ resolved (lookup e a.tables) j
unfolding table_of lookup
resolved-table_of e at j a = elim (Option-cases (lookup e a.tables)) [
  | inl absent ↦ rw (table_of, absent) refl
  | inr (t, held) ↦ rw (table_of, held) refl
]

resolved-insert :
    (t : AppTable) (app_id j : ℕ) (value : Text)
    → resolved (some (record t { names = insert app_id value t.names })) j
      ≡ (if nat_eqb app_id j then value else (resolved (some t) j).0, (resolved (some t) j).1)
resolved-insert t app_id j value = elim (Bool-cases (nat_eqb app_id j)) [
  | inl same ↦ rw (lookup-insert app_id j value t.names, same) refl
  | inr other ↦ rw (lookup-insert app_id j value t.names, other) refl
]

-- With an interner whose strings stand for themselves, an announced name resolves to its cleaned text
-- for that device and application, where the text is not empty and the device's table admits it; in
-- every other case, and for every other device or application, the name stays what it was, and no
-- category changes.
pub resolve-set_name :
    (e k : Addr) (app_id j : ℕ) (name : Text) (at : ℕ) (a : AppTables)
    → IsCanonical a.strings
    → resolve k j (set_name e app_id name at a) ≡ (
      if (e == k && nat_eqb app_id j)
            && (not (is_empty (clean name)) && admits (table_of e at a).names app_id)
          then clean name
          else (resolve k j a).0,
      (resolve k j a).1,
    )
resolve-set_name e k app_id j name at a h =
    let t = table_of e at a in
    rw
      (
        resolve-resolved k j (set_name e app_id name at a),
        resolve-resolved k j a,
        tables-set_name e k app_id name at a,
        (intern_step name a.strings h).0,
      )
      (elim (Bool-cases (is_empty (clean name))) [
        | inl unnamed ↦ rw unnamed (ground arith)
        | inr named ↦ elim (Bool-cases (e == k)) [
          | inr other ↦ rw (named, other) refl
          | inl same ↦ elim (Bool-cases (admits t.names app_id)) [
            | inr full ↦ rw (named, same, full, ← still same) (unchanged (nat_eqb app_id j) _)
            | inl room ↦
                rw (named, same, room, ← still same)
                  (resolved-insert t app_id j (clean name) ∙ renamed (nat_eqb app_id j) _)
          ]
        ]
      ])
  where
    still : (e == k) ≡ true → resolved (some (table_of e at a)) j ≡ resolved (lookup k a.tables) j
    still same = rw (← (addr_eqb_iff e k).0 same) (resolved-table_of e at j a)

    unchanged :
        (b : Bool) (p : Text × Text)
        → ◌≡◌ {A = Text × Text} p (if b && false then clean name else p.0, p.1)
    unchanged true p = refl
    unchanged false p = refl

    renamed :
        (b : Bool) (p : Text × Text)
        → ◌≡◌ {A = Text × Text}
            (if b then clean name else p.0, p.1)
            (if b && true then clean name else p.0, p.1)
    renamed true p = refl
    renamed false p = refl
