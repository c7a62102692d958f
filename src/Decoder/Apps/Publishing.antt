-- ===== src/Decoder/Apps/Publishing.antt =====
-- The text that internal/decoder/apps.go publishes for the bytes of a field, told without the trimming
-- and the check that it runs.
use xflow_exporter.Common.{
  ℕ, zero, suc, ◌≤◌, ◌<◌, ◌≡◌, ◌≢◌, ◌↔◌, ◌⊎◌, inl, inr, refl, ◌∙◌, sym, Bool, true, false, ◌&&◌,
  ◌||◌, none, some, List, [], ◌∷◌, ◌++◌, All, length, arith, Bool-cases, leb, nat_eqb, map,
}
use xflow_exporter.Common.Bytes.{Text, is_empty}
use xflow_exporter.Decoder.Apps.{Interner, trim_padding, within, utf8_lead, utf8_from, is_utf8}
use xflow_exporter.Decoder.Apps.Interning.{
  clean, empty_text, IsCanonical, intern_all, after_all, intern_all-clean,
}

-- A NUL or a space.
abbrev pub IsPadding : ℕ → Type 0
IsPadding byte = (byte ≡ 0) ⊎ (byte ≡ 32)

abbrev pub EndsPadded : Text → Type 0
EndsPadded text = (kept : Text) × (byte : ℕ) × IsPadding byte × (text ≡ kept ++ (byte ∷ []))

-- The text is what stands ahead of the padding at the end of the bytes.
abbrev pub IsTrimmed : Text → Text → Type 0
IsTrimmed value text =
    ((padding : Text) × All IsPadding padding × (value ≡ text ++ padding)) × ¬ EndsPadded text

-- The byte sequences of UTF-8, by the grammar of RFC 3629, section 4.
pub data IsUtf8 : Text → Type 0 where
  end : IsUtf8 []
  one : (b : ℕ) (s : Text) → b ≤ 127 → IsUtf8 s → IsUtf8 (b ∷ s)
  two : (b c : ℕ) (s : Text) → 194 ≤ b → b ≤ 223 → 128 ≤ c → c ≤ 191 → IsUtf8 s → IsUtf8 (b ∷ c ∷ s)
  three :
      (b c d : ℕ) (s : Text)
      → ((b ≡ 224) × (160 ≤ c) × (c ≤ 191))
        ⊎ ((225 ≤ b) × (b ≤ 239) × (b ≢ 237) × (128 ≤ c) × (c ≤ 191))
        ⊎ ((b ≡ 237) × (128 ≤ c) × (c ≤ 159))
      → 128 ≤ d
      → d ≤ 191
      → IsUtf8 s
      → IsUtf8 (b ∷ c ∷ d ∷ s)
  four :
      (b c d f : ℕ) (s : Text)
      → ((b ≡ 240) × (144 ≤ c) × (c ≤ 191))
        ⊎ ((241 ≤ b) × (b ≤ 243) × (128 ≤ c) × (c ≤ 191))
        ⊎ ((b ≡ 244) × (128 ≤ c) × (c ≤ 143))
      → 128 ≤ d
      → d ≤ 191
      → 128 ≤ f
      → f ≤ 191
      → IsUtf8 s
      → IsUtf8 (b ∷ c ∷ d ∷ f ∷ s)

is_utf8_complete : (s : Text) → IsUtf8 s → is_utf8 s ≡ true
unfolding utf8_from utf8_lead
is_utf8_complete _ end = refl
is_utf8_complete _ (one b s hb h) = ground (arith, is_utf8_complete s h)
is_utf8_complete _ (two b c s hb hb' hc hc' h) = ground (arith, is_utf8_complete s h)
is_utf8_complete _ (three b c d s lead hd hd' h) = ground (arith, is_utf8_complete s h)
is_utf8_complete _ (four b c d f s lead hd hd' hf hf' h) = ground (arith, is_utf8_complete s h)

-- A text that still asks for a byte goes on with one of the range.
next_byte :
    (n lo hi : ℕ) (s : Text)
    → utf8_from (suc n) lo hi s ≡ true
    → (c : ℕ) × (rest : Text) × (s ≡ c ∷ rest)
      × (lo ≤ c)
      × (c ≤ hi)
      × (utf8_from n 128 191 rest ≡ true)
unfolding utf8_from
next_byte n lo hi [] h = ground arith
next_byte n lo hi (c ∷ s) h = (c, s, refl, ground arith, ground arith, ground arith)

-- What a first byte asks for.
abbrev LeadCase : ℕ → Type 0
LeadCase b =
    (utf8_lead b ≡ none)
    ⊎ ((b ≤ 127) × (utf8_lead b ≡ some (0, 128, 191)))
    ⊎ ((194 ≤ b) × (b ≤ 223) × (utf8_lead b ≡ some (1, 128, 191)))
    ⊎ ((lo : ℕ) × (hi : ℕ) × (utf8_lead b ≡ some (2, lo, hi))
        × ((c : ℕ)
            → lo ≤ c
            → c ≤ hi
            → ((b ≡ 224) × (160 ≤ c) × (c ≤ 191))
              ⊎ ((225 ≤ b) × (b ≤ 239) × (b ≢ 237) × (128 ≤ c) × (c ≤ 191))
              ⊎ ((b ≡ 237) × (128 ≤ c) × (c ≤ 159))))
    ⊎ ((lo : ℕ) × (hi : ℕ) × (utf8_lead b ≡ some (3, lo, hi))
        × ((c : ℕ)
            → lo ≤ c
            → c ≤ hi
            → ((b ≡ 240) × (144 ≤ c) × (c ≤ 191))
              ⊎ ((241 ≤ b) × (b ≤ 243) × (128 ≤ c) × (c ≤ 191))
              ⊎ ((b ≡ 244) × (128 ≤ c) × (c ≤ 143))))

lead_case : (b : ℕ) → LeadCase b
unfolding utf8_lead
lead_case b = elim (Bool-cases (leb b 127)) [
  | inl ascii ↦ inr (inl (ground arith, rw (utf8_lead, ascii) refl))
  | inr n1 ↦ elim (Bool-cases (within 194 223 b)) [
    | inl pair ↦ inr (inr (inl (ground arith, ground arith, rw (utf8_lead, n1, pair) refl)))
    | inr n2 ↦ elim (Bool-cases (nat_eqb b 224)) [
      | inl low ↦ inr (
          inr (
            inr (
              inl
                (160, 191, rw (utf8_lead, n1, n2, low) refl, λ c h h'. inl (ground arith, h, h')))))
      | inr n3 ↦ elim (Bool-cases (nat_eqb b 237)) [
        | inl surrogates ↦ inr (
            inr (
              inr (
                inl (
                  128,
                  159,
                  rw (utf8_lead, n1, n2, n3, surrogates) refl,
                  λ c h h'. inr (inr (ground arith, h, h')),
                ))))
        | inr n4 ↦ elim (Bool-cases (within 225 239 b)) [
          | inl triple ↦ inr (
              inr (
                inr (
                  inl (
                    128,
                    191,
                    rw (utf8_lead, n1, n2, n3, n4, triple) refl,
                    λ c h h'. inr (inl (ground arith, ground arith, λ e. ground arith, h, h')),
                  ))))
          | inr n5 ↦ elim (Bool-cases (nat_eqb b 240)) [
            | inl least ↦ inr (
                inr (
                  inr (
                    inr (
                      144,
                      191,
                      rw (utf8_lead, n1, n2, n3, n4, n5, least) refl,
                      λ c h h'. inl (ground arith, h, h'),
                    ))))
            | inr n6 ↦ elim (Bool-cases (within 241 243 b)) [
              | inl quad ↦ inr (
                  inr (
                    inr (
                      inr (
                        128,
                        191,
                        rw (utf8_lead, n1, n2, n3, n4, n5, n6, quad) refl,
                        λ c h h'. inr (inl (ground arith, ground arith, h, h')),
                      ))))
              | inr n7 ↦ elim (Bool-cases (nat_eqb b 244)) [
                | inl last ↦ inr (
                    inr (
                      inr (
                        inr (
                          128,
                          143,
                          rw (utf8_lead, n1, n2, n3, n4, n5, n6, n7, last) refl,
                          λ c h h'. inr (inr (ground arith, h, h')),
                        ))))
                | inr n8 ↦ inl (rw (utf8_lead, n1, n2, n3, n4, n5, n6, n7, n8) refl)
              ]
            ]
          ]
        ]
      ]
    ]
  ]
]

behind_lead :
    (b n lo hi : ℕ) (s : Text)
    → utf8_lead b ≡ some (n, lo, hi)
    → utf8_from 0 128 191 (b ∷ s) ≡ utf8_from n lo hi s
unfolding utf8_from
behind_lead b n lo hi s lead = rw (utf8_from, lead) refl

no_lead : (b : ℕ) (s : Text) → utf8_lead b ≡ none → utf8_from 0 128 191 (b ∷ s) ≡ false
unfolding utf8_from
no_lead b s ill = rw (utf8_from, ill) refl

utf8_from-IsUtf8 : (fuel : ℕ) (s : Text) → length s ≤ fuel → utf8_from 0 128 191 s ≡ true → IsUtf8 s
utf8_from-IsUtf8 fuel [] size h = end
utf8_from-IsUtf8 zero (b ∷ s) size h = absurd (omega (arith, size))
utf8_from-IsUtf8 (suc fuel) (b ∷ s) size h = elim (lead_case b) [
  | inl ill ↦ cc (no_lead b s ill, h)
  | inr (inl (ascii, lead)) ↦
      one b s ascii
        (utf8_from-IsUtf8 fuel s (omega (arith, size)) (sym (behind_lead b 0 128 191 s lead) ∙ h))
  | inr (inr (inl (low, high, lead))) ↦
      let (c, s1, e1, hc, hc', h1) =
        next_byte 0 128 191 s (sym (behind_lead b 1 128 191 s lead) ∙ h) in
      rw (e1)
        (two b c s1 low high hc hc' (utf8_from-IsUtf8 fuel s1 (omega (arith, rw (e1) at size)) h1))
  | inr (inr (inr (inl (lo, hi, lead, fits)))) ↦
      let (c, s1, e1, hc, hc', h1) = next_byte 1 lo hi s (sym (behind_lead b 2 lo hi s lead) ∙ h) in
      let (d, s2, e2, hd, hd', h2) = next_byte 0 128 191 s1 h1 in
      rw (e1, e2)
        (three b c d s2 (fits c hc hc') hd hd'
          (utf8_from-IsUtf8 fuel s2 (omega (arith, rw (e1, e2) at size)) h2))
  | inr (inr (inr (inr (lo, hi, lead, fits)))) ↦
      let (c, s1, e1, hc, hc', h1) = next_byte 2 lo hi s (sym (behind_lead b 3 lo hi s lead) ∙ h) in
      let (d, s2, e2, hd, hd', h2) = next_byte 1 128 191 s1 h1 in
      let (f, s3, e3, hf, hf', h3) = next_byte 0 128 191 s2 h2 in
      rw (e1, e2, e3)
        (four b c d f s3 (fits c hc hc') hd hd' hf hf'
          (utf8_from-IsUtf8 fuel s3 (omega (arith, rw (e1, e2, e3) at size)) h3))
]

-- `utf8.Valid` answers the grammar.
pub is_utf8_iff : (s : Text) → (is_utf8 s ≡ true) ↔ IsUtf8 s
is_utf8_iff s = (λ h. utf8_from-IsUtf8 (length s) s (omega arith) h, is_utf8_complete s)

never_padded : (kept : Text) (byte : ℕ) → [] ≢ (kept ++ (byte ∷ []))
never_padded [] byte e = cc e
never_padded (k ∷ kept) byte e = cc e

-- A byte ahead of a text that ends in no padding is followed by none either, unless it is all there is
-- and is padding itself.
EndsPadded-behind :
    (c : ℕ) (s : Text)
    → (is_empty s && (nat_eqb c 0 || nat_eqb c 32)) ≡ false
    → ¬ EndsPadded s
    → ¬ EndsPadded (c ∷ s)
EndsPadded-behind c [] kept_on ends ([], byte, pad, e) =
    let same : c ≡ byte = cc e in ground (arith, same)
EndsPadded-behind c (x ∷ s) kept_on ends ([], byte, pad, e) = cc e
EndsPadded-behind c s kept_on ends (k ∷ kept, byte, pad, e) = ends (kept, byte, pad, cc e)

padded_by : (empty : Bool) (c : ℕ) → (empty && (nat_eqb c 0 || nat_eqb c 32)) ≡ true → IsPadding c
padded_by empty c h = ground (arith, h)

padded_empty :
    (empty : Bool) (c : ℕ) → (empty && (nat_eqb c 0 || nat_eqb c 32)) ≡ true → empty ≡ true
padded_empty empty c h = ground (arith, h)

trim_padding-IsTrimmed : (value : Text) → IsTrimmed value (trim_padding value)
unfolding trim_padding
trim_padding-IsTrimmed [] = (([], tt, refl), λ (kept, byte, pad, e). never_padded kept byte e)
trim_padding-IsTrimmed (c ∷ s) =
    let ((padding, all, e), ends) = trim_padding-IsTrimmed s in
    elim (Bool-cases (is_empty (trim_padding s) && (nat_eqb c 0 || nat_eqb c 32))) [
      | inl padded ↦
          let nothing = empty_text (trim_padding s) (padded_empty _ c padded) in
          rw (trim_padding, padded)
            (
              (
                c ∷ padding,
                (padded_by (is_empty (trim_padding s)) c padded, all),
                cc (rw (nothing) at e),
              ),
              λ (kept, byte, pad, e'). never_padded kept byte e',
            )
      | inr kept ↦
          rw (trim_padding, kept)
            ((padding, all, cc e), EndsPadded-behind c (trim_padding s) kept ends)
    ]

-- What a field publishes: the bytes ahead of the padding where these are 255 at most and UTF-8, and
-- nothing otherwise.
abbrev pub IsPublished : Text → Text → Type 0
IsPublished value text =
    (trimmed : Text) × IsTrimmed value trimmed
    × (((length trimmed ≤ 255) × IsUtf8 trimmed × (text ≡ trimmed))
        ⊎ (((255 < length trimmed) ⊎ ¬ IsUtf8 trimmed) × (text ≡ [])))

clean-IsPublished : (value : Text) → IsPublished value (clean value)
clean-IsPublished value =
    let trimmed = trim_padding value in
    let (valid, grammatical) = is_utf8_iff trimmed in
    elim (Bool-cases (leb (length trimmed) 255)) [
      | inr long ↦ rw (long) (trimmed, trim_padding-IsTrimmed value, inr (inl (ground arith), refl))
      | inl short ↦ elim (Bool-cases (is_utf8 trimmed)) [
        | inl utf8 ↦
            rw (short, utf8)
              (trimmed, trim_padding-IsTrimmed value, inl (ground arith, valid utf8, refl))
        | inr other ↦
            rw (short, other)
              (
                trimmed,
                trim_padding-IsTrimmed value,
                inr (inr (λ h. cc (grammatical h, other)), refl),
              )
      ]
    ]

-- Each text beside the field that it is published for.
abbrev pub ArePublished : List Text → List Text → Type 0
ArePublished [] [] = Unit {0}
ArePublished (value ∷ values) (text ∷ texts) = IsPublished value text × ArePublished values texts
ArePublished _ _ = ⊥

map-clean-ArePublished : (values : List Text) → ArePublished values (map clean values)
map-clean-ArePublished [] = tt
map-clean-ArePublished (value ∷ values) = (clean-IsPublished value, map-clean-ArePublished values)

-- Interning changes no reading. From any interner whose strings stand for themselves within the
-- bound, each field of a run publishes its bytes ahead of the NULs and spaces at their end, or nothing
-- where those bytes are more than 255 or no UTF-8 by the grammar of RFC 3629, whatever came before it;
-- and the interner stays so, with at most 65536 strings.
pub intern_all-ArePublished :
    (values : List Text) (i : Interner)
    → IsCanonical i
    → ArePublished values (intern_all values i) × IsCanonical (after_all values i)
intern_all-ArePublished values i h =
    let (cleaned, kept) = intern_all-clean values i h in
    (rw (cleaned) (map-clean-ArePublished values), kept)
