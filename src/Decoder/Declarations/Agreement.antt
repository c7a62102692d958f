-- ===== src/Decoder/Declarations/Agreement.antt =====
-- The rate that a device's table lends after any run of calls, internal/decoder/templates.go.
use xflow_exporter.Common.{
  ℕ, ◌+◌, ◌≤◌, ◌<◌, ◌≡◌, ◌≢◌, ◌⊎◌, ◌↔◌, inl, inr, Bool, true, false, none, some, List, [], ◌∷◌,
  ◌++◌, All, Map, Comparable, ◌==◌, length, refl, lookup, insert, ltb, leb, Bool-cases, sym, ◌∙◌,
  not, ◌&&◌, is_some, nat_eq,
}
use xflow_exporter.Decoder.Domain.{
  SamplerTable, SamplerEntry, SamplerRef, ScopedRef, empty_sampler_table, sampler_ref_eq,
  scoped_ref_eq, max_samplers_per_exporter,
}
use xflow_exporter.Decoder.Declarations.{
  declare, declare_scoped, expire, announced_since, mark_sampled, scoped_rate, rates, declarations,
}
use xflow_exporter.Decoder.Declarations.Sole.{IsPositive, AgreesOn, sole_rate_iff}
use xflow_exporter.Decoder.Declarations.Budget.{
  Announcement, sampler, scope, sweep_at, naming_record, announce, announce_all,
  announce_all-IsCoherent,
}

-- Every declaration of a map states a rate of some kind.
abbrev pub States : {K : Type 0} → (ℕ → Type 0) → Map K SamplerEntry → Type 0
States P m = All (λ p. P p.1.rate) m

-- Something is declared for the device's records at large, with or without a sampler's name, and
-- each of those declarations states this rate.
abbrev pub IsAgreedRate : ℕ → SamplerTable → Type 0
IsAgreedRate rate t =
    ((t.named ≢ []) ⊎ (t.plain ≢ []))
    × States (λ r. r ≡ rate) t.named
    × States (λ r. r ≡ rate) t.plain

States-rates : {K : Type 0} (P : ℕ → Type 0) (m : Map K SamplerEntry) → States P m ↔ All P (rates m)
States-rates P [] = (λ h. tt, λ h. tt)
States-rates P ((k, entry) ∷ m) =
    let (there, back) = States-rates P m in
    (λ (h, rest). (h, there rest), λ (h, rest). (h, back rest))

All-append : (P : ℕ → Type 0) (xs ys : List ℕ) → All P (xs ++ ys) ↔ (All P xs × All P ys)
All-append P [] ys = (λ h. (tt, h), λ (u, h). h)
All-append P (x ∷ xs) ys =
    let (there, back) = All-append P xs ys in
    (λ (h, rest). ((h, (there rest).0), (there rest).1), λ ((h, hs), rest). (h, back (hs, rest)))

AgreesOn-iff :
    (rate : ℕ) (t : SamplerTable)
    → AgreesOn rate (rates t.named ++ rates t.plain) ↔ IsAgreedRate rate t
AgreesOn-iff rate t =
    let P : ℕ → Type 0 = λ r. r ≡ rate in
    (
      λ (some_rate, all).
          let (here, there) = (All-append P (rates t.named) (rates t.plain)).0 all in
          (
            either t.named t.plain some_rate,
            (States-rates P t.named).1 here,
            (States-rates P t.plain).1 there,
          ),
      λ (some_map, here, there). (
        neither t.named t.plain some_map,
        (All-append P (rates t.named) (rates t.plain)).1
            ((States-rates P t.named).0 here, (States-rates P t.plain).0 there),
      ),
    )
  where
    either :
        {K L : Type 0} (m : Map K SamplerEntry) (n : Map L SamplerEntry)
        → (rates m ++ rates n) ≢ []
        → (m ≢ []) ⊎ (n ≢ [])
    either [] [] h = absurd (h refl)
    either (p ∷ m) n h = inl (λ e. cc e)
    either [] (p ∷ n) h = inr (λ e. cc e)

    neither :
        {K L : Type 0} (m : Map K SamplerEntry) (n : Map L SamplerEntry)
        → (m ≢ []) ⊎ (n ≢ [])
        → (rates m ++ rates n) ≢ []
    neither [] [] (inl h) = absurd (h refl)
    neither [] [] (inr h) = absurd (h refl)
    neither ((k, entry) ∷ m) n h = λ e. cc e
    neither [] ((k, entry) ∷ n) h = λ e. cc e

States-insert :
    {K : Type 0} ⦃c : Comparable K⦄ (key : K) (entry : SamplerEntry) (m : Map K SamplerEntry)
    → 0 < entry.rate
    → States IsPositive m
    → States IsPositive (insert key entry m)
unfolding insert
States-insert key entry [] h all = (h, tt)
States-insert key entry ((other, held) ∷ m) h (first, rest) = elim (Bool-cases (other == key)) [
  | inl same ↦ rw (insert, same) (h, rest)
  | inr apart ↦ rw (insert, apart) (first, States-insert key entry m h rest)
]

States-announced_since :
    {K : Type 0} (cutoff : ℕ) (m : Map K SamplerEntry)
    → States IsPositive m
    → States IsPositive (announced_since cutoff m)
unfolding announced_since
States-announced_since cutoff [] all = tt
States-announced_since cutoff ((k, entry) ∷ m) (first, rest) =
    elim (Bool-cases (ltb entry.last_seen cutoff)) [
      | inl stale ↦ rw (announced_since, stale) (States-announced_since cutoff m rest)
      | inr fresh ↦ rw (announced_since, fresh) (first, States-announced_since cutoff m rest)
    ]

-- Every declaration for the device's records at large states a rate.
abbrev IsStated : SamplerTable → Type 0
IsStated t = States IsPositive t.named × States IsPositive t.plain

-- A rate that a device declares is never zero: an options record that states none declares none.
abbrev pub StatesRate : Announcement → Type 0
StatesRate (sampler odid id named rate at) = 0 < rate
StatesRate (scope ref rate at) = 0 < rate
StatesRate (sweep_at cutoff) = Unit {0}
StatesRate naming_record = Unit {0}

IsStated-declare :
    (t : SamplerTable) (odid id : ℕ) (named : Bool) (rate at : ℕ)
    → 0 < rate
    → IsStated t
    → IsStated (declare t odid id named rate at).0
unfolding declare
IsStated-declare t odid id true rate at h (named_ones, plain_ones) =
    let ref : SamplerRef = record { odid = odid; id = id } in
    let entry : SamplerEntry = record { rate = rate; last_seen = at } in
    elim (Bool-cases
      (not (is_some (lookup ref t.named)) && leb max_samplers_per_exporter (declarations t))) [
        | inl full ↦ rw (declare, full) (named_ones, plain_ones)
        | inr room ↦ rw (declare, room) (States-insert ref entry t.named h named_ones, plain_ones)
      ]
IsStated-declare t odid id false rate at h (named_ones, plain_ones) =
    let entry : SamplerEntry = record { rate = rate; last_seen = at } in
    elim (Bool-cases
      (not (is_some (lookup odid t.plain)) && leb max_samplers_per_exporter (declarations t))) [
        | inl full ↦ rw (declare, full) (named_ones, plain_ones)
        | inr room ↦ rw (declare, room) (named_ones, States-insert odid entry t.plain h plain_ones)
      ]

IsStated-declare_scoped :
    (t : SamplerTable) (ref : ScopedRef) (rate at : ℕ)
    → IsStated t
    → IsStated (declare_scoped t ref rate at).0
unfolding declare_scoped
IsStated-declare_scoped t ref rate at h =
    elim (Bool-cases
      (not (is_some (lookup ref t.scoped)) && leb max_samplers_per_exporter (declarations t))) [
        | inl full ↦ rw (declare_scoped, full) h
        | inr room ↦ rw (declare_scoped, room) h
      ]

IsStated-mark_sampled : (t : SamplerTable) → IsStated t → IsStated (mark_sampled t)
unfolding mark_sampled
IsStated-mark_sampled t h = elim (Bool-cases t.sampled) [
  | inl marked ↦ rw (mark_sampled, marked) h
  | inr unmarked ↦ rw (mark_sampled, unmarked) h
]

IsStated-announce :
    (t : SamplerTable) (a : Announcement) → StatesRate a → IsStated t → IsStated (announce t a)
unfolding announce expire
IsStated-announce t (sampler odid id named rate at) h stated =
    IsStated-declare t odid id named rate at h stated
IsStated-announce t (scope ref rate at) h stated = IsStated-declare_scoped t ref rate at stated
IsStated-announce t (sweep_at cutoff) h (named_ones, plain_ones) = (
  States-announced_since cutoff t.named named_ones,
  States-announced_since cutoff t.plain plain_ones,
)
IsStated-announce t naming_record h stated = IsStated-mark_sampled t stated

IsStated-announce_all :
    (run : List Announcement) (t : SamplerTable)
    → All StatesRate run
    → IsStated t
    → IsStated (announce_all t run)
unfolding announce_all
IsStated-announce_all [] t all stated = stated
IsStated-announce_all (a ∷ run) t (h, all) stated =
    IsStated-announce_all run (announce t a) all (IsStated-announce t a h stated)

-- Whatever rates a device announces, a sampler table that began empty holds at most 256 declarations;
-- it lends a rate exactly where something is declared beside the scoped ones and each of those
-- declarations states that rate, so that two which differ lend none; and it answers for a scope what
-- its scoped map holds: the flag that skips the map hides nothing.
pub announce_all_lem :
    (run : List Announcement) (ref : ScopedRef)
    → All StatesRate run
    → let t = announce_all empty_sampler_table run in
      (length t.named + length t.plain + length t.scoped ≤ 256)
      × ((rate : ℕ) → 0 < rate → (t.inherited ≡ rate) ↔ IsAgreedRate rate t)
      × (scoped_rate t ref
          ≡ (elim (lookup ref t.scoped) [ none ↦ none | some entry ↦ some entry.rate ]))
announce_all_lem run ref all =
    let t = announce_all empty_sampler_table run in
    let (coherent, answers) = announce_all-IsCoherent run ref in
    let (named_ones, plain_ones) = IsStated-announce_all run empty_sampler_table all (tt, tt) in
    (
      unfold declarations in coherent.within,
      λ rate pos.
          let (there, back) =
            sole_rate_iff t rate ((States-rates IsPositive t.named).0 named_ones)
              ((States-rates IsPositive t.plain).0 plain_ones) pos in
          let (agreed, listed) = AgreesOn-iff rate t in
          (
            λ lent. agreed (there (sym coherent.lends ∙ lent)),
            λ one. coherent.lends ∙ back (listed one),
          ),
      answers,
    )
