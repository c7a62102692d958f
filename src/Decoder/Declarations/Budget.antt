-- ===== src/Decoder/Declarations/Budget.antt =====
-- The state of a sampler table between its calls, internal/decoder/templates.go.
use xflow_exporter.Common.{
  ℕ, ◌≤◌, ◌≡◌, Bool, true, false, Option, none, some, List, [], ◌∷◌, Map, length, refl, arith,
  lookup, length-insert, if◌then◌else◌, ltb, nat_eq, lookup_nonempty,
}
use xflow_exporter.Decoder.Domain.{
  SamplerTable, SamplerEntry, SamplerRef, ScopedRef, max_samplers_per_exporter, empty_sampler_table,
  sampler_ref_eq, scoped_ref_eq,
}
use xflow_exporter.Decoder.Declarations.{
  declare, declare_scoped, expire, announced_since, mark_sampled, declarations, sole_rate,
  scoped_rate,
}

-- The table is within its budget; the rate that it lends is the one that `soleRateLocked` reads in
-- it; and the flag that lets a record skip the scoped map is up exactly where that map holds something.
pub record IsCoherent (t : SamplerTable) : Type 0 where
  pub within : declarations t ≤ max_samplers_per_exporter
  pub lends : t.inherited ≡ sole_rate t
  pub flag : t.has_scoped ≡ ltb 0 (length t.scoped)

length-announced_since :
    {K : Type 0} (cutoff : ℕ) (m : Map K SamplerEntry)
    → length (announced_since cutoff m) ≤ length m
unfolding announced_since
length-announced_since cutoff [] = omega arith
length-announced_since cutoff ((k, entry) ∷ m) = ground (arith, length-announced_since cutoff m)

declare-IsCoherent :
    (t : SamplerTable) (odid id : ℕ) (named : Bool) (rate at : ℕ)
    → IsCoherent t
    → IsCoherent (declare t odid id named rate at).0
unfolding declare
declare-IsCoherent t odid id true rate at h =
    let ref : SamplerRef = record { odid = odid; id = id } in
    let entry : SamplerEntry = record { rate = rate; last_seen = at } in
    record {
      within = ground (arith, h.within, length-insert ref entry t.named);
      lends = ground (arith, h.lends);
      flag = ground (arith, h.flag);
    }
declare-IsCoherent t odid id false rate at h =
    let entry : SamplerEntry = record { rate = rate; last_seen = at } in
    record {
      within = ground (arith, h.within, length-insert odid entry t.plain);
      lends = ground (arith, h.lends);
      flag = ground (arith, h.flag);
    }

declare_scoped-IsCoherent :
    (t : SamplerTable) (ref : ScopedRef) (rate at : ℕ)
    → IsCoherent t
    → IsCoherent (declare_scoped t ref rate at).0
unfolding declare_scoped sole_rate
declare_scoped-IsCoherent t ref rate at h =
    let entry : SamplerEntry = record { rate = rate; last_seen = at } in
    record {
      within = ground (arith, h.within, length-insert ref entry t.scoped);
      lends = ground (arith, h.lends);
      flag = ground (arith, h.flag, length-insert ref entry t.scoped, lookup_nonempty ref t.scoped);
    }

expire-IsCoherent : (t : SamplerTable) (cutoff : ℕ) → IsCoherent t → IsCoherent (expire t cutoff)
unfolding expire declarations sole_rate
expire-IsCoherent t cutoff h = record {
  within = omega (
    arith,
    h.within,
    length-announced_since cutoff t.named,
    length-announced_since cutoff t.plain,
    length-announced_since cutoff t.scoped,
  );
  lends = refl;
  flag = refl;
}

mark_sampled-IsCoherent : (t : SamplerTable) → IsCoherent t → IsCoherent (mark_sampled t)
unfolding mark_sampled declarations sole_rate
mark_sampled-IsCoherent t h = record {
  within = ground (arith, h.within);
  lends = ground (arith, h.lends);
  flag = ground (arith, h.flag);
}

-- What reaches a sampler table.
pub data Announcement : Type 0 where
  sampler : ℕ → ℕ → Bool → ℕ → ℕ → Announcement
  scope : ScopedRef → ℕ → ℕ → Announcement
  sweep_at : ℕ → Announcement
  naming_record : Announcement

unfoldable pub announce : SamplerTable → Announcement → SamplerTable
announce t (sampler odid id named rate at) = (declare t odid id named rate at).0
announce t (scope ref rate at) = (declare_scoped t ref rate at).0
announce t (sweep_at cutoff) = expire t cutoff
announce t naming_record = mark_sampled t

unfoldable pub announce_all : SamplerTable → List Announcement → SamplerTable
announce_all t [] = t
announce_all t (a ∷ rest) = announce_all (announce t a) rest

announce-IsCoherent :
    (t : SamplerTable) (a : Announcement) → IsCoherent t → IsCoherent (announce t a)
unfolding announce
announce-IsCoherent t (sampler odid id named rate at) h =
    declare-IsCoherent t odid id named rate at h
announce-IsCoherent t (scope ref rate at) h = declare_scoped-IsCoherent t ref rate at h
announce-IsCoherent t (sweep_at cutoff) h = expire-IsCoherent t cutoff h
announce-IsCoherent t naming_record h = mark_sampled-IsCoherent t h

announce_all_keeps :
    (t : SamplerTable) (run : List Announcement) → IsCoherent t → IsCoherent (announce_all t run)
unfolding announce_all
announce_all_keeps t [] h = h
announce_all_keeps t (a ∷ rest) h =
    announce_all_keeps (announce t a) rest (announce-IsCoherent t a h)

-- Whatever a device announces, a sampler table that began empty holds at most 256 declarations,
-- lends what `soleRateLocked` reads in it, and answers for a scope what its scoped map holds: the flag
-- that skips the map hides nothing.
pub announce_all-IsCoherent :
    (run : List Announcement) (ref : ScopedRef)
    → let t = announce_all empty_sampler_table run in
      IsCoherent t
      × (scoped_rate t ref
          ≡ (elim (lookup ref t.scoped) [ none ↦ none | some entry ↦ some entry.rate ]))
unfolding scoped_rate
announce_all-IsCoherent run ref =
    let t = announce_all empty_sampler_table run in
    let h : IsCoherent t = announce_all_keeps empty_sampler_table run (
      unfold declarations sole_rate in
      record { within = omega arith; lends = refl; flag = refl }) in
    (h, skips t.scoped h.flag)
  where
    skips :
        {b : Bool} (m : Map ScopedRef SamplerEntry)
        → b ≡ ltb 0 (length m)
        → ◌≡◌ {A = Option ℕ}
            (if b
              then (elim (lookup ref m) [ none ↦ none | some entry ↦ some entry.rate ])
              else none)
            (elim (lookup ref m) [ none ↦ none | some entry ↦ some entry.rate ])
    skips {b} [] e = unfold lookup in ground arith
    skips {b} ((k, v) ∷ m) e = let up : b ≡ true = ground arith in rw up
