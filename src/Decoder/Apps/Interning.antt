-- ===== src/Decoder/Apps/Interning.antt =====
-- What the interner of internal/decoder/apps.go gives back.
use xflow_exporter.Common.{
  ◌≤◌, ◌≡◌, refl, true, false, ◌&&◌, some, List, [], ◌∷◌, lookup, insert, length, arith, Bool-cases,
  Option-cases, inl, inr, map, if◌then◌else◌, ltb, leb, list_eq, nat_eq, list_eqb_iff,
  lookup-insert, length-insert,
}
use xflow_exporter.Common.Bytes.{Text, is_empty}
use xflow_exporter.Decoder.Apps.{
  Interner, intern, trim_padding, is_utf8, max_vendor_string_length, max_interned_strings,
  refuse_string,
}

-- The text that a field publishes: without its padding, unless that is too long or no UTF-8.
abbrev pub clean : Text → Text
clean value =
    let trimmed = trim_padding value in
    if leb (length trimmed) max_vendor_string_length && is_utf8 trimmed then trimmed else []

-- Every string stands for itself, and there are no more than the bound.
pub record IsCanonical (i : Interner) : Type 0 where
  pub canonical : (s c : Text) → lookup s i.strings ≡ some c → c ≡ s
  pub bounded : length i.strings ≤ max_interned_strings

pub empty_text : (s : Text) → is_empty s ≡ true → s ≡ []
empty_text [] h = refl
empty_text (c ∷ s) h = cc h

pub intern_step :
    (value : Text) (i : Interner)
    → IsCanonical i
    → ((intern value i).1 ≡ clean value) × IsCanonical (intern value i).0
unfolding intern
intern_step value i h =
    let trimmed = trim_padding value in
    elim (Bool-cases (is_empty trimmed)) [
      | inl empty ↦ rw (intern, empty) (rw (empty_text trimmed empty) (ground arith), h)
      | inr full ↦ elim (Bool-cases (ltb max_vendor_string_length (length trimmed))) [
        | inl long ↦ rw (intern, full, long) (ground arith, refused i h)
        | inr short ↦ elim (Bool-cases (is_utf8 trimmed)) [
          | inr odd ↦ rw (intern, full, short, odd) (ground arith, refused i h)
          | inl valid ↦ elim (Option-cases (lookup trimmed i.strings)) [
            | inr (c, held) ↦
                rw (intern, full, short, valid, held)
                  (ground (arith, h.canonical trimmed c held), h)
            | inl new ↦ elim (Bool-cases (leb max_interned_strings (length i.strings))) [
              | inl bound ↦ rw (intern, full, short, valid, new, bound) (ground arith, h)
              | inr room ↦
                  rw (intern, full, short, valid, new, room) (ground arith, grown trimmed i h room)
            ]
          ]
        ]
      ]
    ]
  where
    refused : (i : Interner) → IsCanonical i → IsCanonical (refuse_string i).0
    refused i h = record { canonical = h.canonical; bounded = h.bounded }

    grown :
        (s : Text) (i : Interner)
        → IsCanonical i
        → leb max_interned_strings (length i.strings) ≡ false
        → IsCanonical (record i { strings = insert s s i.strings })
    grown s i h room = record {
      canonical = λ k c is.
          ground (arith, is, h.canonical k c, lookup-insert s k s i.strings, list_eqb_iff s k);
      bounded = ground (arith, h.bounded, length-insert s s i.strings);
    }

-- The strings of a run of fields, each interned where the ones before left the interner.
unfoldable pub intern_all : List Text → Interner → List Text
intern_all [] i = []
intern_all (value ∷ rest) i = (intern value i).1 ∷ intern_all rest (intern value i).0

unfoldable pub after_all : List Text → Interner → Interner
after_all [] i = i
after_all (value ∷ rest) i = after_all rest (intern value i).0

pub after_all-IsCanonical :
    (values : List Text) (i : Interner) → IsCanonical i → IsCanonical (after_all values i)
unfolding after_all
after_all-IsCanonical [] i h = h
after_all-IsCanonical (value ∷ rest) i h =
    after_all-IsCanonical rest (intern value i).0 (intern_step value i h).1

-- Interning changes no reading. From any interner whose strings stand for themselves within the
-- bound, each field of a run gives its text without padding, or the empty text where that is longer
-- than 255 bytes or no UTF-8, whatever came before it; and the interner stays so, with at most 65536
-- strings.
pub intern_all-clean :
    (values : List Text) (i : Interner)
    → IsCanonical i
    → (intern_all values i ≡ map clean values) × IsCanonical (after_all values i)
unfolding intern_all after_all
intern_all-clean [] i h = (refl, h)
intern_all-clean (value ∷ rest) i h =
    let (here, kept) = intern_step value i h in
    let (others, last) = intern_all-clean rest (intern value i).0 kept in
    (rw (here, others) refl, last)
