-- ===== src/Decoder/Sniff.antt =====
-- `sniffVersion` of internal/decoder/decoder.go: the wire protocol, from a datagram's first bytes.
use xflow_exporter.Common.{
  ℕ, ◌<◌, ◌≡◌, ◌≢◌, Option, none, some, List, [], ◌∷◌, if◌then◌else◌, ltb, nat_eqb, length, arith,
  ◌↔◌, All,
}
use xflow_exporter.Common.Bytes.{be16_at, be32_at, IsByte, word16, word32, byte_or, ◌>>=◌}
use xflow_exporter.Flow.{
  Version, version_unknown, netflow_v5, netflow_v8, netflow_v9, ipfix, sflow_v5,
}
use xflow_exporter.Decoder.Reason.{Result, ok, err, unsupported_version, malformed}

abbrev pub min_version_bytes : ℕ
min_version_bytes = 4

abbrev version_of_half_word : ℕ → ℕ → Result Version
version_of_half_word short long =
    if nat_eqb short 5
    then ok netflow_v5
    else if nat_eqb short 8
    then ok netflow_v8
    else if nat_eqb short 9
    then ok netflow_v9
    else if nat_eqb short 10
    then ok ipfix
    else if nat_eqb short 0
    then (if nat_eqb long 5 then ok sflow_v5 else err unsupported_version)
    else err unsupported_version

-- `none` is a panic.
unfoldable pub sniff_version : List ℕ → Option (Result Version)
sniff_version payload = if ltb (length payload) min_version_bytes then some (err malformed) else do
  short ← be16_at payload 0
  long ← be32_at payload 0
  some (version_of_half_word short long)

-- The first four bytes of each protocol's datagrams: NetFlow and IPFIX begin with a 16-bit version,
-- sFlow with a 32-bit one.
abbrev pub Begins : Version → ℕ → ℕ → ℕ → ℕ → Type 0
Begins netflow_v5 a b c d = (a ≡ 0) × (b ≡ 5)
Begins netflow_v8 a b c d = (a ≡ 0) × (b ≡ 8)
Begins netflow_v9 a b c d = (a ≡ 0) × (b ≡ 9)
Begins ipfix a b c d = (a ≡ 0) × (b ≡ 10)
Begins sflow_v5 a b c d = (a ≡ 0) × (b ≡ 0) × (c ≡ 0) × (d ≡ 5)
Begins version_unknown a b c d = ⊥

sniffs-Begins :
    (v : Version) (a b c d : ℕ) (rest : List ℕ)
    → IsByte a
    → IsByte b
    → IsByte c
    → IsByte d
    → sniff_version (a ∷ b ∷ c ∷ d ∷ rest) ≡ some (ok v) ↔ Begins v a b c d
unfolding sniff_version word32 word16 byte_or
sniffs-Begins version_unknown a b c d rest ha hb hc hd = ground arith
sniffs-Begins _ a b c d rest ha hb hc hd = ground arith

sniff_unsupported :
    (a b c d : ℕ) (rest : List ℕ)
    → IsByte a
    → IsByte b
    → IsByte c
    → IsByte d
    → ((w : Version) → ¬ Begins w a b c d)
    → sniff_version (a ∷ b ∷ c ∷ d ∷ rest) ≡ some (err unsupported_version)
unfolding sniff_version word32 word16 byte_or
sniff_unsupported a b c d rest ha hb hc hd h =
    ground (arith, h netflow_v5, h netflow_v8, h netflow_v9, h ipfix, h sflow_v5)

-- Sniffing never panics. A datagram of fewer than four bytes is malformed; of any other, it names a
-- protocol exactly when the datagram begins as that protocol's do, and never the unknown one; and
-- what begins as none of them is an unsupported version.
pub sniff_version_lem :
    (payload : List ℕ)
    → (sniff_version payload ≢ none)
      × (length payload < 4 → sniff_version payload ≡ some (err malformed))
      × ((v : Version) (a b c d : ℕ) (rest : List ℕ)
          → All IsByte (a ∷ b ∷ c ∷ d ∷ [])
          → payload ≡ a ∷ b ∷ c ∷ d ∷ rest
          → (sniff_version payload ≡ some (ok v) ↔ Begins v a b c d)
            × (((w : Version) → ¬ Begins w a b c d)
                → sniff_version payload ≡ some (err unsupported_version)))
unfolding sniff_version
sniff_version_lem payload = (
  λ h. ground arith,
  λ h. ground arith,
  λ v a b c d rest (ha, (hb, (hc, (hd, u)))) e. (
    rw e (sniffs-Begins v a b c d rest ha hb hc hd),
    λ none_begins. rw e (sniff_unsupported a b c d rest ha hb hc hd none_begins),
  ),
)
