-- ===== src/Decoder/Apps.antt =====
-- internal/decoder/apps.go: the interner of vendor strings and the application tables that each
-- device announces; and `resolveApplication` of internal/decoder/decoder.go.
pub mod Interning
pub mod Publishing
pub mod Naming
pub mod Resolving
use xflow_exporter.Common.{
  ℕ, zero, suc, ◌+◌, ◌-◌, Bool, true, false, not, ◌&&◌, ◌||◌, Option, none, some, List, [], ◌∷◌,
  Map, lookup, insert, keep_keys, length, if◌then◌else◌, ltb, leb, nat_eqb, is_some, add64, ◌==◌,
  nat_eq, list_eq,
}
use xflow_exporter.Common.Bytes.{Text, is_empty}
use xflow_exporter.Flow.{Addr, Record}
use xflow_exporter.Flow.Identity.{addr_eq}

abbrev pub max_interned_strings : ℕ
max_interned_strings = 65536

abbrev pub max_vendor_string_length : ℕ
max_vendor_string_length = 255

abbrev pub max_apps_per_exporter : ℕ
max_apps_per_exporter = 16384

-- `trimPadding`: `bytes.TrimRight` of NULs and spaces
unfoldable pub trim_padding : Text → Text
trim_padding [] = []
trim_padding (c ∷ s) =
    let rest = trim_padding s in
    if is_empty rest && (nat_eqb c 0 || nat_eqb c 32) then [] else c ∷ rest

abbrev pub within : ℕ → ℕ → ℕ → Bool
within lo hi b = leb lo b && leb b hi

-- The bytes that a first byte asks for, and the range of the first of them; `none` where no rune
-- begins so.
unfoldable pub utf8_lead : ℕ → Option (ℕ × ℕ × ℕ)
utf8_lead b =
    if leb b 127
    then some (0, 128, 191)
    else if within 194 223 b
    then some (1, 128, 191)
    else if nat_eqb b 224
    then some (2, 160, 191)
    else if nat_eqb b 237
    then some (2, 128, 159)
    else if within 225 239 b
    then some (2, 128, 191)
    else if nat_eqb b 240
    then some (3, 144, 191)
    else if within 241 243 b
    then some (3, 128, 191)
    else if nat_eqb b 244
    then some (3, 128, 143)
    else none

-- The rest of a text in the middle of a rune that still asks for bytes, the next one in a range.
unfoldable pub utf8_from : ℕ → ℕ → ℕ → Text → Bool
utf8_from zero lo hi [] = true
utf8_from (suc n) lo hi [] = false
utf8_from (suc n) lo hi (b ∷ s) = within lo hi b && utf8_from n 128 191 s
utf8_from zero lo hi (b ∷ s) = elim (utf8_lead b) [
  | none ↦ false
  | some (n, lo', hi') ↦ utf8_from n lo' hi' s
]

-- `utf8.Valid`
abbrev pub is_utf8 : Text → Bool
is_utf8 s = utf8_from 0 128 191 s

pub record Interner : Type 0 where
  pub refused : ℕ
  pub strings : Map Text Text

abbrev pub new_interner : Interner
new_interner = record { refused = 0; strings = [] }

abbrev pub refuse_string : Interner → Interner × Text
refuse_string i = (record i { refused = add64 i.refused 1 }, [])

-- `intern`
unfoldable pub intern : Text → Interner → Interner × Text
intern value i =
    let trimmed = trim_padding value in
    if is_empty trimmed
    then (i, [])
    else if ltb max_vendor_string_length (length trimmed)
    then refuse_string i
    else if not (is_utf8 trimmed)
    then refuse_string i
    else (elim (lookup trimmed i.strings) [
      | some s ↦ (i, s)
      | none ↦
          if leb max_interned_strings (length i.strings)
          then (i, trimmed)
          else (record i { strings = insert trimmed trimmed i.strings }, trimmed)
    ])

-- `appTable`
pub record AppTable : Type 0 where
  pub announced_at : ℕ
  pub names : Map ℕ Text
  pub categories : Map ℕ Text

-- `appTables`, with the interner that it shares
pub record AppTables : Type 0 where
  pub strings : Interner
  pub refused : ℕ
  pub tables : Map Addr AppTable

-- `newAppTables`
abbrev pub new_app_tables : Interner → AppTables
new_app_tables i = record { strings = i; refused = 0; tables = [] }

-- `table`: the device's table, stamped, or a new one
unfoldable pub table_of : Addr → ℕ → AppTables → AppTable
table_of exporter at a = elim (lookup exporter a.tables) [
  | some t ↦ record t { announced_at = at }
  | none ↦ record { announced_at = at; names = []; categories = [] }
]

-- `admits`
unfoldable pub admits : Map ℕ Text → ℕ → Bool
admits m app_id = is_some (lookup app_id m) || ltb (length m) max_apps_per_exporter

abbrev pub put_table : Addr → AppTable → AppTables → AppTables
put_table exporter t a = record a { tables = insert exporter t a.tables }

abbrev refuse_app : AppTables → AppTables
refuse_app a = record a { refused = add64 a.refused 1 }

-- `setName`
unfoldable pub set_name : Addr → ℕ → Text → ℕ → AppTables → AppTables
unfolding intern
set_name exporter app_id name at a =
    let (strings', value) = intern name a.strings in
    let a' : AppTables = record a { strings = strings' } in
    let t = table_of exporter at a' in
    if is_empty value
    then a'
    else if admits t.names app_id
    then put_table exporter (record t { names = insert app_id value t.names }) a'
    else refuse_app (put_table exporter t a')

-- `setCategory`
unfoldable pub set_category : Addr → ℕ → Text → ℕ → AppTables → AppTables
unfolding intern
set_category exporter app_id category at a =
    let (strings', value) = intern category a.strings in
    let a' : AppTables = record a { strings = strings' } in
    let t = table_of exporter at a' in
    if is_empty value
    then a'
    else if admits t.categories app_id
    then put_table exporter (record t { categories = insert app_id value t.categories }) a'
    else refuse_app (put_table exporter t a')

abbrev pub text_or_empty : Option Text → Text
text_or_empty none = []
text_or_empty (some s) = s

-- `resolve`: the name and the category
unfoldable pub resolve : Addr → ℕ → AppTables → Text × Text
resolve exporter app_id a = elim (lookup exporter a.tables) [
  | none ↦ ([], [])
  | some t ↦ (text_or_empty (lookup app_id t.names), text_or_empty (lookup app_id t.categories))
]

-- The loop of `sweep`: the tables that stay, and how many go
unfoldable pub sweep_app_tables : ℕ → Map Addr AppTable → Map Addr AppTable × ℕ
sweep_app_tables cutoff [] = ([], 0)
sweep_app_tables cutoff ((exporter, t) ∷ rest) =
    let (kept, evicted) = sweep_app_tables cutoff rest in
    if leb cutoff t.announced_at then ((exporter, t) ∷ kept, evicted) else (kept, evicted + 1)

-- `appTables.sweep`
unfoldable pub sweep_apps : ℕ → AppTables → AppTables × ℕ
unfolding sweep_app_tables
sweep_apps cutoff a =
    let (kept, evicted) = sweep_app_tables cutoff a.tables in (record a { tables = kept }, evicted)

-- `resolveApplication`
unfoldable pub resolve_application : Addr → AppTables → Record → Record
unfolding resolve
resolve_application exporter a r =
    if nat_eqb r.app_id 0 || not (is_empty r.app_name)
    then r
    else let (name, category) = resolve exporter r.app_id a in
      record r { app_name = name; app_category = category }
