-- ===== src/Decoder/Netflow8/Schemes.antt =====
-- The table of methods in internal/decoder/netflow8.go, against the layouts of their records.
use xflow_exporter.Common.{
  ℕ, zero, suc, ◌+◌, ◌≤◌, ◌<◌, ◌≡◌, refl, true, false, Option, none, some, List, [], ◌∷◌, Map,
  lookup, nat_eq, nat_eqb, get_elem?, arith,
}
use xflow_exporter.Decoder.AggregatedRecords.Layouts.{Layout, layouts, layout_of}
use xflow_exporter.Decoder.AggregatedRecords.Reading.{
  Reads, Reads-as, Reads-proto_port, Reads-src_prefix, Reads-dst_prefix, Reads-prefix,
  Reads-dest_only, Reads-src_dst, Reads-full_flow, Reads-tos_as, Reads-tos_proto_port,
  Reads-tos_src_prefix, Reads-tos_dst_prefix, Reads-tos_prefix, Reads-prefix_port,
}
use xflow_exporter.Decoder.Netflow8.{Scheme, netflow_v8_schemes, first_offset}

-- The method's scheme reads its layout, both of whose instants lie inside the record.
pub record IsLaidOut (method : ℕ) (scheme : Scheme) (l : Layout) : Type 0 where
  pub size : scheme.record_len ≡ l.size
  pub first : first_offset method ≡ l.first
  pub instants : l.first + 8 ≤ l.size
  pub reads : Reads l.size scheme.read l.fields

laid_out :
    (method : ℕ) (scheme : Scheme) (l : Layout)
    → scheme.record_len ≡ l.size
    → first_offset method ≡ l.first
    → l.first + 8 ≤ l.size
    → Reads l.size scheme.read l.fields
    → IsLaidOut method scheme l
laid_out method scheme l size first instants reads = record {
  size = size;
  first = first;
  instants = instants;
  reads = reads;
}

-- The schemes stand for the methods from `k` on, one after another, as their layouts do.
abbrev AreLaidOut : ℕ → Map ℕ Scheme → List Layout → Type 0
AreLaidOut k [] [] = Unit {0}
AreLaidOut k ((method, scheme) ∷ m) (l ∷ ls) =
    (method ≡ k) × IsLaidOut k scheme l × AreLaidOut (k + 1) m ls
AreLaidOut k _ _ = ⊥

schemes-AreLaidOut : AreLaidOut 1 netflow_v8_schemes layouts
unfolding first_offset
schemes-AreLaidOut =
    ((
      refl,
      laid_out 1 _ _ refl refl (omega arith) Reads-as,
      (
        refl,
        laid_out 2 _ _ refl refl (omega arith) Reads-proto_port,
        (
          refl,
          laid_out 3 _ _ refl refl (omega arith) Reads-src_prefix,
          (
            refl,
            laid_out 4 _ _ refl refl (omega arith) Reads-dst_prefix,
            (
              refl,
              laid_out 5 _ _ refl refl (omega arith) Reads-prefix,
              (
                refl,
                laid_out 6 _ _ refl refl (omega arith) Reads-dest_only,
                (
                  refl,
                  laid_out 7 _ _ refl refl (omega arith) Reads-src_dst,
                  (
                    refl,
                    laid_out 8 _ _ refl refl (omega arith) Reads-full_flow,
                    (
                      refl,
                      laid_out 9 _ _ refl refl (omega arith) Reads-tos_as,
                      (
                        refl,
                        laid_out 10 _ _ refl refl (omega arith) Reads-tos_proto_port,
                        (
                          refl,
                          laid_out 11 _ _ refl refl (omega arith) Reads-tos_src_prefix,
                          (
                            refl,
                            laid_out 12 _ _ refl refl (omega arith) Reads-tos_dst_prefix,
                            (
                              refl,
                              laid_out 13 _ _ refl refl (omega arith) Reads-tos_prefix,
                              (refl, laid_out 14 _ _ refl refl (omega arith) Reads-prefix_port, tt),
                            ),
                          ),
                        ),
                      ),
                    ),
                  ),
                ),
              ),
            ),
          ),
        ),
      ),
    ))

-- What is known of a method, or that nothing is.
abbrev pub IsKnownAs : ℕ → Option Scheme → Option Layout → Type 0
IsKnownAs method none none = Unit {0}
IsKnownAs method (some scheme) (some l) = IsLaidOut method scheme l
IsKnownAs method _ _ = ⊥

lookup-IsKnownAs :
    (k : ℕ) (m : Map ℕ Scheme) (ls : List Layout) (ahead method : ℕ)
    → AreLaidOut k m ls
    → method ≡ k + ahead
    → IsKnownAs method (lookup method m) (get_elem? ls ahead)
unfolding lookup
lookup-IsKnownAs k [] [] ahead method all e = tt
lookup-IsKnownAs k [] (l ∷ ls) ahead method all e = elim all [ ]
lookup-IsKnownAs k ((other, scheme) ∷ m) [] ahead method all e = elim all [ ]
lookup-IsKnownAs k ((other, scheme) ∷ m) (l ∷ ls) zero method (same, here, rest) e =
    let found : nat_eqb other method ≡ true = ground (arith, same, e) in
    let now : method ≡ k = omega (arith, e) in rw (lookup, found, now) here
lookup-IsKnownAs k ((other, scheme) ∷ m) (l ∷ ls) (suc ahead) method (same, here, rest) e =
    let passed : nat_eqb other method ≡ false = ground (arith, same, e) in
    rw (lookup, passed) (lookup-IsKnownAs (k + 1) m ls ahead method rest (omega (arith, e)))

lookup_behind :
    (k : ℕ) (m : Map ℕ Scheme) (ls : List Layout) (method : ℕ)
    → AreLaidOut k m ls
    → method < k
    → lookup method m ≡ none
unfolding lookup
lookup_behind k [] ls method all h = refl
lookup_behind k ((other, scheme) ∷ m) [] method all h = elim all [ ]
lookup_behind k ((other, scheme) ∷ m) (l ∷ ls) method (same, here, rest) h =
    ground (arith, same, h, lookup_behind (k + 1) m ls method rest (omega (arith, h)))

pub scheme-IsKnownAs :
    (method : ℕ) → IsKnownAs method (lookup method netflow_v8_schemes) (layout_of method)
scheme-IsKnownAs zero =
    rw (lookup_behind 1 netflow_v8_schemes layouts 0 schemes-AreLaidOut (omega arith)) tt
scheme-IsKnownAs (suc n) =
    lookup-IsKnownAs 1 netflow_v8_schemes layouts n (suc n) schemes-AreLaidOut (omega arith)
