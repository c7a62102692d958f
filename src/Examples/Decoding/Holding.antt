-- ===== src/Examples/Decoding/Holding.antt =====
-- The theorems on templates and device counters of internal/decoder at concrete states.
use xflow_exporter.Common.{
  ◌≡◌, refl, arith, true, false, not, ◌&&◌, List, [], ◌∷◌, none, some, lookup, if◌then◌else◌, ltb,
  ◌==◌,
}
use xflow_exporter.Flow.{v4, unix, netflow_v9, ipfix}
use xflow_exporter.Flow.Identity.{addr_eq}
use xflow_exporter.Decoder.Domain.{
  DomainState, Template, TemplateRef, fresh_domain, template_ref_eq,
}
use xflow_exporter.Decoder.Templates.{Budget, add_template, find_template}
use xflow_exporter.Decoder.Templates.Charge.{IsCharged, add_template-IsCharged}
use xflow_exporter.Decoder.Templates.Layouts.{layout, add_template-find}
use xflow_exporter.Decoder.Reason.{missing_template}
use xflow_exporter.Decoder.Stats.{
  Stats, fresh_exporter, sweep_idle, admitted, max_exporters, new_stats,
}
use xflow_exporter.Decoder.Stats.Fleet.{
  Call, arrival, flows_counted, error_counted, idle_sweep, calls, IsWithinFleet,
  calls-IsWithinFleet,
}
use xflow_exporter.Decoder.Stats.Sweeping.{kept_by, occurs, sweep_idle_effect}

abbrev two_fields : Template
two_fields = record {
  fields =
      (record { field_type = 8; length = 4; enterprise = 0 }
        ∷ record { field_type = 1; length = 4; enterprise = 0 }
        ∷ []);
  record_len = 8;
  has_variable = false;
  scope_count = 0;
  options = false;
  refreshed_at = unix 100 0;
  noted = true;
}

abbrev ref_256 : TemplateRef
ref_256 = record { port = 2055; id = 256 }

abbrev one_template : DomainState
one_template = record (fresh_domain 1 5) { templates = (ref_256, two_fields) ∷ []; fields = 2 }

abbrev charged : Budget
charged = record { domains = 2; fields = 7 }

one_template-IsCharged : IsCharged 5 one_template charged
unfolding lookup
one_template-IsCharged = record {
  distinct = (refl, tt);
  counted = refl;
  charged = refl;
  few = omega arith;
  within = omega arith;
}

add_template-IsCharged_example :
    let ((d', b'), stored) =
      add_template one_template charged
        (record ref_256 { id = 257 })
        two_fields
        (unix 200 0)
        1800 in
    IsCharged 5 d' b'
add_template-IsCharged_example =
    add_template-IsCharged 5 one_template charged (record ref_256 { id = 257 }) two_fields
      (unix 200 0) 1800 one_template-IsCharged

add_template-find_example :
    let ((d', b'), stored) =
      add_template one_template charged
        (record ref_256 { id = 257 })
        two_fields
        (unix 200 0)
        1800 in
    layout (find_template d' ref_256 (unix 200 0) 1800) ≡ (
      if record ref_256 { id = 257 } == ref_256
      then (if stored then some two_fields.fields else none)
      else layout (find_template one_template ref_256 (unix 200 0) 1800))
unfolding lookup
add_template-find_example =
    add_template-find one_template charged (record ref_256 { id = 257 }) ref_256 two_fields
      (unix 200 0) 1800 (refl, tt)

abbrev fleet : Stats
fleet = record { exporters = (v4 9, fresh_exporter) ∷ []; live = 1; refused = 0 }

abbrev traffic : List Call
traffic =
    arrival (v4 1) (unix 100 0)
    ∷ flows_counted (v4 1) netflow_v9 30 (unix 100 0)
    ∷ error_counted (v4 1) ipfix missing_template
    ∷ idle_sweep 7
    ∷ []

new_stats-IsWithinFleet : IsWithinFleet new_stats
new_stats-IsWithinFleet = record { distinct = tt; bounded = omega arith; mirrored = refl }

calls-IsWithinFleet_example : IsWithinFleet (calls new_stats traffic)
calls-IsWithinFleet_example = calls-IsWithinFleet new_stats traffic new_stats-IsWithinFleet

sweep_idle_effect_example :
    let (s', evicted) = sweep_idle 7 fleet in
    let found = lookup (v4 9) fleet.exporters in
    (lookup (v4 9) s'.exporters ≡ (if ltb 1 max_exporters then found else kept_by 7 found))
    × (occurs (v4 9) evicted ≡ (admitted (v4 9) fleet && not (admitted (v4 9) s')))
    × (s'.refused ≡ 0)
unfolding lookup
sweep_idle_effect_example = sweep_idle_effect 7 (v4 9) fleet (refl, tt)
