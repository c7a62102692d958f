-- ===== src/Examples/Decoding/Names.antt =====
-- The theorems on the vendor strings and the application tables of internal/decoder at concrete inputs.
use xflow_exporter.Common.{
  ◌≡◌, arith, not, ◌&&◌, List, [], ◌∷◌, if◌then◌else◌, nat_eqb, lookup, ◌==◌,
}
use xflow_exporter.Common.Bytes.{Text, is_empty}
use xflow_exporter.Flow.{v4}
use xflow_exporter.Flow.Identity.{addr_eq}
use xflow_exporter.Decoder.Apps.{
  AppTables, new_interner, new_app_tables, set_name, resolve, admits, table_of,
}
use xflow_exporter.Decoder.Apps.Interning.{IsCanonical, clean, intern_all, after_all}
use xflow_exporter.Decoder.Apps.Publishing.{ArePublished, intern_all-ArePublished}
use xflow_exporter.Decoder.Apps.Naming.{
  AppCall, naming_app, filing_app, app_sweep, app_calls, IsResolver, app_calls-IsResolver,
}
use xflow_exporter.Decoder.Apps.Resolving.{resolve-set_name}

-- "dns" padded with NULs, and a name that ends inside a rune.
abbrev dns : Text
dns = 100 ∷ 110 ∷ 115 ∷ 0 ∷ 0 ∷ []

abbrev cut_rune : Text
cut_rune = 99 ∷ 195 ∷ []

new_interner-IsCanonical : IsCanonical new_interner
unfolding lookup
new_interner-IsCanonical = record {
  canonical = λ s c is. ground (arith, is);
  bounded = omega arith;
}

intern_all-ArePublished_example :
    ArePublished (dns ∷ cut_rune ∷ dns ∷ []) (intern_all (dns ∷ cut_rune ∷ dns ∷ []) new_interner)
    × IsCanonical (after_all (dns ∷ cut_rune ∷ dns ∷ []) new_interner)
intern_all-ArePublished_example =
    intern_all-ArePublished (dns ∷ cut_rune ∷ dns ∷ []) new_interner new_interner-IsCanonical

abbrev no_names : AppTables
no_names = new_app_tables new_interner

no_names-IsResolver : IsResolver no_names
no_names-IsResolver = record { strings = new_interner-IsCanonical; sized = tt }

abbrev announcements : List AppCall
announcements = naming_app (v4 1) 53 dns 5 ∷ filing_app (v4 1) 53 cut_rune 6 ∷ app_sweep 7 ∷ []

app_calls-IsResolver_example : IsResolver (app_calls no_names announcements)
app_calls-IsResolver_example = app_calls-IsResolver no_names announcements no_names-IsResolver

resolve-set_name_example : resolve (v4 1) 53 (set_name (v4 1) 53 dns 5 no_names) ≡ (
  if (v4 1 == v4 1 && nat_eqb 53 53)
        && (not (is_empty (clean dns)) && admits (table_of (v4 1) 5 no_names).names 53)
      then clean dns
      else (resolve (v4 1) 53 no_names).0,
  (resolve (v4 1) 53 no_names).1,
)
resolve-set_name_example =
    resolve-set_name (v4 1) (v4 1) 53 53 dns 5 no_names new_interner-IsCanonical
