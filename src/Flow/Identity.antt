-- ===== src/Flow/Identity.antt =====
-- The comparable types of internal/flow/flow.go as map keys, and their labels.
use xflow_exporter.Common.{
  ℕ, ◌≡◌, ◌↔◌, Bool, true, false, ◌&&◌, Comparable, ◌==◌, list_eqb_iff, nat_eqb, arith, list_eq,
  nat_eq, string_eq, String, ap, if◌then◌else◌, refl,
}
use xflow_exporter.Flow.{
  Addr, no_addr, v4, v6, Version, version_unknown, netflow_v5, netflow_v8, netflow_v9, ipfix,
  sflow_v5, Direction, direction_unknown, ingress, egress, version_label, direction_label,
}

abbrev pub addr_eqb : Addr → Addr → Bool
addr_eqb no_addr no_addr = true
addr_eqb (v4 a) (v4 b) = nat_eqb a b
addr_eqb (v6 a z) (v6 b w) = nat_eqb a b && z == w
addr_eqb _ _ = false

pub addr_eqb_iff : (a b : Addr) → (addr_eqb a b ≡ true) ↔ (a ≡ b)
addr_eqb_iff (v6 a z) (v6 b w) = ground (arith, list_eqb_iff z w)
addr_eqb_iff (v4 a) (v4 b) = ground arith
addr_eqb_iff no_addr no_addr = ground arith
addr_eqb_iff _ _ = ground arith

instance abbrev pub addr_eq : Comparable Addr
addr_eq = record { equals = addr_eqb; equals_iff = addr_eqb_iff }

-- The number that Go's `iota` gives the constant.
abbrev pub version_code : Version → ℕ
version_code version_unknown = 0
version_code netflow_v5 = 1
version_code netflow_v8 = 2
version_code netflow_v9 = 3
version_code ipfix = 4
version_code sflow_v5 = 5

abbrev pub version_eqb : Version → Version → Bool
version_eqb v w = nat_eqb (version_code v) (version_code w)

pub version_eqb_iff : (v w : Version) → (version_eqb v w ≡ true) ↔ (v ≡ w)
version_eqb_iff v w = ground arith

instance abbrev pub version_eq : Comparable Version
version_eq = record { equals = version_eqb; equals_iff = version_eqb_iff }

abbrev pub direction_code : Direction → ℕ
direction_code direction_unknown = 0
direction_code ingress = 1
direction_code egress = 2

abbrev pub direction_eqb : Direction → Direction → Bool
direction_eqb v w = nat_eqb (direction_code v) (direction_code w)

pub direction_eqb_iff : (v w : Direction) → (direction_eqb v w ≡ true) ↔ (v ≡ w)
direction_eqb_iff v w = ground arith

instance abbrev pub direction_eq : Comparable Direction
direction_eq = record { equals = direction_eqb; equals_iff = direction_eqb_iff }

-- The labels read back.
version_of_label : String → Version
version_of_label l =
    if l == "netflow_v5"
    then netflow_v5
    else if l == "netflow_v8"
    then netflow_v8
    else if l == "netflow_v9"
    then netflow_v9
    else if l == "ipfix"
    then ipfix
    else if l == "sflow_v5"
    then sflow_v5
    else version_unknown

version_of_label-version_label : (v : Version) → version_of_label (version_label v) ≡ v
unfolding version_of_label version_label
version_of_label-version_label version_unknown = refl
version_of_label-version_label _ = refl

direction_of_label : String → Direction
direction_of_label l =
    if l == "ingress" then ingress else if l == "egress" then egress else direction_unknown

direction_of_label-direction_label : (d : Direction) → direction_of_label (direction_label d) ≡ d
unfolding direction_of_label direction_label
direction_of_label-direction_label ingress = refl
direction_of_label-direction_label _ = refl

-- Two protocols with one `version` label are the same protocol, and likewise for the `direction`
-- label: no label value merges two of them.
pub labels_separate :
    (v w : Version) (c d : Direction)
    → (version_label v ≡ version_label w → v ≡ w) × (direction_label c ≡ direction_label d → c ≡ d)
labels_separate v w c d = (
  λ e.
      cc
        (version_of_label-version_label v, version_of_label-version_label w, ap version_of_label e),
  λ e. cc (
    direction_of_label-direction_label c,
    direction_of_label-direction_label d,
    ap direction_of_label e,
  ),
)
