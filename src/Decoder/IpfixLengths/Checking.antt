-- ===== src/Decoder/IpfixLengths/Checking.antt =====
-- The check of lengths in internal/decoder/ipfix.go ends, whatever bytes a message holds, and a message
-- that passes it is framed.
use xflow_exporter.Common.{
  ℕ, zero, suc, ◌+◌, ◌-◌, ◌≤◌, ◌<◌, ◌≡◌, refl, Bool, true, false, not, ◌&&◌, ◌||◌, Option, none,
  some, List, [], ◌∷◌, Map, if◌then◌else◌, leb, ltb, nat_eqb, nat_eq, length, take, drop, lookup,
  Bool-cases, Option-cases, inl, inr, arith, leb→le, ◌==◌, lookup-insert, insert,
}
use xflow_exporter.Common.Bytes.{be16_at-inside, slice-inside, word16, ◌>>=◌}
use xflow_exporter.Flow.{Time}
use xflow_exporter.Decoder.Domain.{DomainKey, Template, TemplateRef}
use xflow_exporter.Decoder.Store.{Store, store_lookup, withdraw}
use xflow_exporter.Decoder.Register.{fits_a_set}
use xflow_exporter.Decoder.Soundness.{IsReady, is_sound}
use xflow_exporter.Decoder.Soundness.Storing.{IsReady-store_lookup, IsReady-withdraw}
use xflow_exporter.Decoder.TemplateSets.{min_data_set_id}
use xflow_exporter.Decoder.TemplateSets.Compiling.{
  is_measured_if_any, parse_ipfix_templates_ends, parse_ipfix_options_templates_ends,
}
use xflow_exporter.Decoder.IpfixLengths.{
  Check, admitted_layout, announce, layout_for, fail, check_data_set, check_set, check_sets,
  is_redefined, withdraw_redefined, check_ipfix_lengths,
}
use xflow_exporter.Decoder.IpfixLengths.Skipping.{holds_records_ends}

-- The layout that a message announced for an identifier, if any.
abbrev announced_layout : Option (Option Template) → Option Template
announced_layout none = none
announced_layout (some t) = t

-- What the check relies on: the store, and the layouts announced so far.
abbrev IsChecking : DomainKey → Check → Type 0
IsChecking key c =
    IsReady key c.store × ((id : ℕ) → is_sound (announced_layout (lookup id c.announced)) ≡ true)

-- The same, and a length that did not fit stays known.
abbrev Goes : DomainKey → Check → Check → Type 0
Goes key c c' = IsChecking key c' × ((c.failed || c'.failed) ≡ c'.failed)

admitted_layout_sound :
    (t : Option Template) → is_measured_if_any t ≡ true → is_sound (admitted_layout t) ≡ true
unfolding fits_a_set
admitted_layout_sound none h = refl
admitted_layout_sound (some t) h = ground (arith, h)

Goes-announce :
    (key : DomainKey) (c₀ : Check) (id : ℕ) (t : Option Template) (c : Check)
    → is_measured_if_any t ≡ true
    → Goes key c₀ c
    → Goes key c₀ (announce id t c)
unfolding announce
Goes-announce key c₀ id t c measured ((ready, known), still) = ((ready, known'), still)
  where
    known' :
        (other : ℕ)
        → is_sound (announced_layout (lookup other (insert id (admitted_layout t) c.announced)))
          ≡ true
    known' other = elim (Bool-cases (id == other)) [
      | inl same ↦
          rw (lookup-insert id other (admitted_layout t) c.announced, same)
            (admitted_layout_sound t measured)
      | inr apart ↦ rw (lookup-insert id other (admitted_layout t) c.announced, apart) (known other)
    ]

layout_for_sound :
    (key : DomainKey) (port set_id : ℕ) (at : Time) (c : Check)
    → IsChecking key c
    → let (c', tpl) = layout_for key port set_id at c in Goes key c c' × (is_sound tpl ≡ true)
unfolding layout_for
layout_for_sound key port set_id at c (ready, known) =
    elim (Option-cases (lookup set_id c.announced)) [
      | inr (t, there) ↦
          let sound : is_sound t ≡ true = rw (there) at (known set_id) in
          rw (layout_for, there) (((ready, known), ground arith), sound)
      | inl unannounced ↦
          let (ready', sound) =
            IsReady-store_lookup key (record { port = port; id = set_id }) at c.store ready in
          rw (layout_for, unannounced) (((ready', known), ground arith), sound)
    ]

-- The step ends, and the check can go on.
abbrev CheckEnds : DomainKey → Check → Option Check → Type 0
CheckEnds key c step = (c' : Check) × (step ≡ some c') × Goes key c c'

check_data_set_ends :
    (key : DomainKey) (tpl : Option Template) (set : List ℕ) (c₀ c : Check)
    → is_sound tpl ≡ true
    → Goes key c₀ c
    → CheckEnds key c₀ (check_data_set tpl set c)
unfolding check_data_set
check_data_set_ends key none set c₀ c sound goes = (c, refl, goes)
check_data_set_ends key (some tpl) set c₀ c sound (checking, still) =
    let (whole, ends) = holds_records_ends tpl set sound in
    elim (Bool-cases whole) [
      | inl fits ↦ rw (check_data_set, ends, fits) (c, refl, (checking, still))
      | inr broken ↦ rw (check_data_set, ends, broken) (fail c, refl, (checking, ground arith))
    ]

check_set_ends :
    (key : DomainKey) (port set_id : ℕ) (set : List ℕ) (at : Time) (c : Check)
    → IsChecking key c
    → CheckEnds key c (check_set key port set_id set at c)
unfolding check_set
check_set_ends key port set_id set at c checking =
    let here : Goes key c c = (checking, ground arith) in
    elim (Bool-cases (nat_eqb set_id 2)) [
      | inl templates ↦
          rw (check_set, templates)
            (parse_ipfix_templates_ends announce c.store.max_fields (Goes key c)
              (Goes-announce key c) set c here)
      | inr other ↦ elim (Bool-cases (nat_eqb set_id 3)) [
        | inl options ↦
            rw (check_set, other, options)
              (parse_ipfix_options_templates_ends announce c.store.max_fields (Goes key c)
                (Goes-announce key c) set c here)
        | inr neither ↦ elim (Bool-cases (leb min_data_set_id set_id && not c.failed)) [
          | inr unread ↦ rw (check_set, other, neither, unread) (c, refl, here)
          | inl data_set ↦
              let (goes, sound) = layout_for_sound key port set_id at c checking in
              let (c', tpl) = layout_for key port set_id at c in
              rw (check_set, other, neither, data_set)
                (check_data_set_ends key tpl set c c' sound goes)
        ]
      ]
    ]

-- Every set from an offset on, its header included, lies inside the message.
unfoldable pub is_framed : ℕ → List ℕ → ℕ → Bool
is_framed zero msg offset = true
is_framed (suc fuel) msg offset =
    let rest = is_framed fuel msg (offset + word16 msg (offset + 2)) in
    if leb (offset + 4) (length msg)
    then not
        (ltb (word16 msg (offset + 2)) 4 || ltb (length msg) (offset + word16 msg (offset + 2)))
      && rest
    else true

check_sets_end :
    (fuel : ℕ) (key : DomainKey) (port : ℕ) (msg : List ℕ) (offset : ℕ) (at : Time) (c : Check)
    → 0 < fuel
    → length msg < offset + fuel
    → IsChecking key c
    → (c' : Check) × (check_sets fuel key port msg offset at c ≡ some c')
      × Goes key c c'
      × ((c'.failed || is_framed fuel msg offset) ≡ true)
unfolding check_sets is_framed
check_sets_end zero key port msg offset at c h enough checking = ground arith
check_sets_end (suc fuel) key port msg offset at c h enough checking =
    elim (Bool-cases (leb (offset + 4) (length msg))) [
      | inr done ↦ rw (check_sets, done) (c, refl, (checking, ground arith), ground arith)
      | inl more ↦
          let le = leb→le (offset + 4) (length msg) more in
          let id = be16_at-inside msg offset (omega (arith, le)) in
          let size = be16_at-inside msg (offset + 2) (omega (arith, le)) in
          let set_len = word16 msg (offset + 2) in
          elim (Bool-cases (ltb set_len 4 || ltb (length msg) (offset + set_len))) [
            | inl broken ↦
                rw (check_sets, more, id, size)
                  (rw (◌>>=◌, broken) (fail c, refl, (checking, ground arith), refl))
            | inr framed ↦
                let cut =
                  slice-inside msg (offset + 4) (offset + set_len) (ground arith) (ground arith) in
                let set = take (offset + set_len - (offset + 4)) (drop (offset + 4) msg) in
                let (c', ends, (checking', still)) =
                  check_set_ends key port (word16 msg offset) set at c checking in
                let (c'', ends', (checking'', still'), inside) =
                  check_sets_end fuel key port msg (offset + set_len) at c' (ground arith)
                    (ground arith) checking' in
                rw (check_sets, more, id, size)
                  (rw (◌>>=◌, framed, cut, ends, ends')
                    (
                      c'',
                      refl,
                      (checking'', ground (arith, still, still')),
                      ground (arith, inside),
                    ))
          ]
    ]

IsReady-withdraw_redefined :
    (key : DomainKey) (port : ℕ) (at : Time) (m : Map ℕ (Option Template)) (s : Store)
    → IsReady key s
    → IsReady key (withdraw_redefined key port at m s)
unfolding withdraw_redefined
IsReady-withdraw_redefined key port at [] s ready = ready
IsReady-withdraw_redefined key port at ((id, t) ∷ rest) s ready =
    let ref : TemplateRef = record { port = port; id = id } in
    let (s', held) = store_lookup key ref at s in
    let (ready', sound) = IsReady-store_lookup key ref at s ready in
    IsReady-withdraw_redefined key port at rest _ (next s' (is_redefined held t) ready')
  where
    next :
        (s' : Store) (redefined : Bool)
        → IsReady key s'
        → IsReady key (if redefined then withdraw key (record { port = port; id = id }) s' else s')
    next s' true ready' = IsReady-withdraw key _ s' ready'
    next s' false ready' = ready'

nothing_announced : (id : ℕ) → is_sound (announced_layout (lookup id [])) ≡ true
unfolding lookup
nothing_announced id = refl

-- The check ends without a panic; and a message that it passes is framed.
pub check_ipfix_lengths_end :
    (key : DomainKey) (port : ℕ) (msg : List ℕ) (at : Time) (s : Store)
    → 16 ≤ length msg
    → IsReady key s
    → (s' : Store) × (fits : Bool) × (check_ipfix_lengths key port msg at s ≡ some (s', fits))
      × IsReady key s'
      × ((not fits || is_framed (length msg) msg 16) ≡ true)
unfolding check_ipfix_lengths
check_ipfix_lengths_end key port msg at s h ready =
    let start : Check = record { announced = []; failed = false; store = s } in
    let (c, ends, ((ready', known), still), inside) =
      check_sets_end (length msg) key port msg 16 at start (omega (arith, h)) (omega (arith, h))
        (ready, nothing_announced) in
    elim (Bool-cases c.failed) [
      | inl failed ↦
          rw (check_ipfix_lengths, ends)
            (rw (◌>>=◌, failed)
              (
                _,
                false,
                refl,
                IsReady-withdraw_redefined key port at c.announced c.store ready',
                refl,
              ))
      | inr passed ↦
          rw (check_ipfix_lengths, ends)
            (rw (◌>>=◌, passed) (c.store, true, refl, ready', ground (arith, inside)))
    ]
