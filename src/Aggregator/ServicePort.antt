-- ===== src/Aggregator/ServicePort.antt =====
-- The port that names a conversation's service, `servicePort` of internal/aggregator/aggregator.go.
use xflow_exporter.Common.{ℕ, ◌≡◌, ◌≢◌, Bool, true, some, arith}
use xflow_exporter.Flow.{Record}
use xflow_exporter.Aggregator.Keys.{Endpoint, endpoint_dst, endpoint_src}
use xflow_exporter.Aggregator.{service_port}

-- The record of the return leg, its ports changed over.
abbrev pub return_leg : Record → Record
return_leg r = record r { src_port = r.dst_port; dst_port = r.src_port }

abbrev pub opposite : Endpoint → Endpoint
opposite endpoint_dst = endpoint_src
opposite endpoint_src = endpoint_dst

-- Where the lookup names exactly one of a record's two ports, both legs of the conversation key on
-- that port, taken from opposite ends.
pub service_port-return_leg :
    (is_service : ℕ → ℕ → Bool) (r : Record)
    → is_service r.protocol r.src_port ≢ is_service r.protocol r.dst_port
    → let here = service_port (some is_service) r in
      let back = service_port (some is_service) (return_leg r) in
      (is_service r.protocol here.0 ≡ true) × (back.0 ≡ here.0) × (back.1 ≡ opposite here.1)
unfolding service_port
service_port-return_leg is_service r h = ground arith
