-- ===== src/Decoder/Dispatch/Fixed.antt =====
-- The parsers of the fixed formats, internal/decoder/netflow5.go and netflow8.go, leave the templates
-- of the store sound.
use xflow_exporter.Common.{
  ℕ, zero, suc, ◌+◌, ◌≡◌, refl, not, ◌||◌, Bool, true, false, Option, none, some, List, ltb,
  nat_eqb, length, Bool-cases, inl, inr, lookup, nat_eq, drop, if◌then◌else◌, ◌*◌,
}
use xflow_exporter.Common.Bytes.{◌>>=◌, u8_at, be16_at, be32_at, word16, word32}
use xflow_exporter.Flow.{Addr, Record, Time, netflow_v8}
use xflow_exporter.Decoder.Reason.{Result, err, malformed, unsupported_aggregation}
use xflow_exporter.Decoder.Clock.{ExportClock, anchor_pair}
use xflow_exporter.Decoder.Domain.{DomainKey}
use xflow_exporter.Decoder.Store.{Store, domain}
use xflow_exporter.Decoder.Accounting.{Link, link, count_clock_pair}
use xflow_exporter.Decoder.Netflow5.{
  tracked, netflow_v5_key, decode_netflow_v5, netflow_v5_sampling,
}
use xflow_exporter.Decoder.Netflow5.Outcome.{rows, announced, is_well_formed, decode_netflow_v5_lem}
use xflow_exporter.Decoder.Netflow8.{
  Scheme, netflow_v8_schemes, netflow_v8_records, netflow_v8_body, netflow_v8_counted,
  decode_netflow_v8,
}
use xflow_exporter.Decoder.Netflow8.Outcome.{answer, decode_netflow_v8_lem}
use xflow_exporter.Decoder.Soundness.{IsSoundStore}
use xflow_exporter.Decoder.Soundness.Storing.{IsGranted-domain}
use xflow_exporter.Decoder.Soundness.Linking.{
  IsSoundLink, IsSoundLink-link, IsSoundStore-write_back, IsSoundLink-count_clock_pair,
  IsSoundLink-rate_for, IsSoundLink-tracked,
}

IsSoundLink-rows :
    (exporter : Addr) (payload : List ℕ) (clock : ExportClock) (rate offset n : ℕ) (here : Link)
    → IsSoundLink here
    → IsSoundLink (rows exporter payload clock rate offset n here).1
unfolding rows
IsSoundLink-rows exporter payload clock rate offset zero here own = own
IsSoundLink-rows exporter payload clock rate offset (suc n) here own =
    let r = drop offset payload in
    let (start, end, shown) = anchor_pair clock (word32 r 24) (word32 r 28) in
    IsSoundLink-rows exporter payload clock rate (offset + 48) n _ (
      IsSoundLink-rate_for (count_clock_pair (not shown) here) rate (word16 r 46)
        (IsSoundLink-count_clock_pair (not shown) here own))

-- The step ends, and the store's templates are sound.
abbrev pub SoundParse : Option (Result (List Record) × Store) → Type 0
SoundParse step =
    (result : Result (List Record)) × (s' : Store) × (step ≡ some (result, s')) × IsSoundStore s'

pub decode_netflow_v5-SoundParse :
    (exporter : Addr) (port : ℕ) (payload : List ℕ) (dst : List Record) (now : Time) (s : Store)
    → IsSoundStore s
    → SoundParse (decode_netflow_v5 exporter port payload dst now s)
decode_netflow_v5-SoundParse exporter port payload dst now s sound =
    let key = netflow_v5_key exporter in
    let s' = (domain key now s).0 in
    let sound' = (IsGranted-domain key now s sound).0 in
    elim (Bool-cases (is_well_formed payload)) [
      | inr ill ↦
          rw (decode_netflow_v5_lem exporter port payload dst now s, ill)
            (err malformed, s, refl, sound)
      | inl well ↦
          rw (decode_netflow_v5_lem exporter port payload dst now s, well)
            (
              _,
              _,
              refl,
              IsSoundStore-write_back key (announced exporter port payload (link key s')).1 s'
                  (IsSoundLink-rows exporter payload _ (netflow_v5_sampling (word16 payload 22)) 24
                    (word16 payload 2) _
                    (IsSoundLink-tracked (link key s') port (word32 payload 16) (word16 payload 2)
                      (word16 payload 20) (IsSoundLink-link key s' sound')))
                  sound',
            )
    ]

-- The store that a step leaves, where it ends, has sound templates.
abbrev Keeps : Option (Result (List Record) × Store) → Type 0
Keeps none = Unit {0}
Keeps (some (result, s')) = IsSoundStore s'

Keeps-bind :
    {A : Type 0} (read : Option A) (next : A → Option (Result (List Record) × Store))
    → ((a : A) → Keeps (next a))
    → Keeps (read >>= next)
Keeps-bind none next keeps = tt
Keeps-bind (some a) next keeps = keeps a

Keeps-if :
    (test : Bool) (p : Result (List Record) × Store) (other : Option (Result (List Record) × Store))
    → IsSoundStore p.1
    → Keeps other
    → Keeps (if test then some p else other)
Keeps-if true p other sound keeps = sound
Keeps-if false p other sound keeps = keeps

IsSoundLink-granted :
    (granted : Bool) (here : Link) → IsSoundLink here → IsSoundLink (if granted then here else none)
IsSoundLink-granted true here own = own
IsSoundLink-granted false here own = tt

Keeps-body :
    (exporter : Addr) (port : ℕ) (payload : List ℕ) (method : ℕ) (scheme : Scheme) (count : ℕ)
    (dst : List Record) (now : Time) (s : Store)
    → IsSoundStore s
    → Keeps (netflow_v8_body exporter port payload method scheme count dst now s)
unfolding netflow_v8_body
Keeps-body exporter port payload method scheme count dst now s sound =
    let key : DomainKey = record { exporter = exporter; odid = method; proto = netflow_v8 } in
    let (s', granted) = domain key now s in
    let sound' = (IsGranted-domain key now s sound).0 in
    Keeps-bind (be32_at payload 16) _ (λ seq. Keeps-bind (be16_at payload 20) _ (λ engine.
      Keeps-bind (be32_at payload 4) _ (λ uptime. Keeps-bind (be32_at payload 8) _ (λ secs.
        Keeps-bind (be32_at payload 12) _ (λ nanos.
          Keeps-bind (netflow_v8_records exporter method scheme payload _ 28 count dst) _
            (λ records.
              IsSoundStore-write_back key
                (if granted then tracked (link key s') port seq count engine else none) s'
                (IsSoundLink-granted granted _ (
                  IsSoundLink-tracked (link key s') port seq count engine
                    (IsSoundLink-link key s' sound')))
                sound'))))))

Keeps-decode_netflow_v8 :
    (exporter : Addr) (port : ℕ) (payload : List ℕ) (dst : List Record) (now : Time) (s : Store)
    → IsSoundStore s
    → Keeps (decode_netflow_v8 exporter port payload dst now s)
unfolding decode_netflow_v8
Keeps-decode_netflow_v8 exporter port payload dst now s sound =
    Keeps-if (ltb (length payload) 28) _ _ sound (
      Keeps-bind (u8_at payload 22) _ (λ method. Keeps-bind (u8_at payload 23) _ (λ agg_version.
        Keeps-if (not (nat_eqb agg_version 2)) _ _ sound
          (of_scheme method (lookup method netflow_v8_schemes)))))
  where
    of_scheme :
        (method : ℕ) (found : Option Scheme)
        → Keeps (elim found [
          | none ↦ some (err unsupported_aggregation, s)
          | some scheme ↦ be16_at payload 2 >>= λ count.
              netflow_v8_counted exporter port payload method scheme count dst now s
        ])
    of_scheme method none = sound
    of_scheme method (some scheme) =
        unfold netflow_v8_counted in
        Keeps-bind (be16_at payload 2) _ (λ count.
          Keeps-if (ltb count 1 || ltb 2340 count) _ _ sound (
            Keeps-if (ltb (length payload) (28 + count * scheme.record_len)) _ _ sound
              (Keeps-body exporter port payload method scheme count dst now s sound)))

Keeps-at :
    (step : Option (Result (List Record) × Store)) (result : Result (List Record)) (s' : Store)
    → step ≡ some (result, s')
    → Keeps step
    → IsSoundStore s'
Keeps-at step result s' ends keeps = rw (ends) at keeps

pub decode_netflow_v8-SoundParse :
    (exporter : Addr) (port : ℕ) (payload : List ℕ) (dst : List Record) (now : Time) (s : Store)
    → IsSoundStore s
    → SoundParse (decode_netflow_v8 exporter port payload dst now s)
decode_netflow_v8-SoundParse exporter port payload dst now s sound =
    let (s', ends, unchanged) = decode_netflow_v8_lem exporter port payload dst now s in
    let result = answer exporter payload dst in
    (
      result,
      s',
      ends,
      Keeps-at _ result s' ends (Keeps-decode_netflow_v8 exporter port payload dst now s sound),
    )
