-- ===== src/Herms/TrafficTagger/Tests.antt =====
-- Tags of one request, and the theorem at a concrete input.
use ai_agent_code.Common.{◌≡◌, refl, [], ◌∷◌, string_key, nat_key}
use ai_agent_code.Herms.TrafficTagger.{TrafficTags, from_headers, as_headers}
use ai_agent_code.Herms.TrafficTagger.Headers.{from_headers-as_headers}

abbrev tags : TrafficTags
tags = record {
  trace_id = "t1";
  tenant_id = "acme";
  session_id = "";
  task_id = "";
  version_set_id = "v2";
  strategy_id = "";
  experiment_id = "";
}

sent :
    as_headers tags
    ≡ ("X-Trace-Id", "t1") ∷ ("X-Tenant-Id", "acme") ∷ ("X-Version-Set-Id", "v2") ∷ []
unfolding as_headers
sent = refl

lower_case : (from_headers "new" (("x-tenant-id", "acme") ∷ [])).tenant_id ≡ "acme"
unfolding from_headers
lower_case = refl

from_headers-as_headers_example : from_headers "new" (as_headers tags) ≡ tags
from_headers-as_headers_example = from_headers-as_headers "new" tags (λ e. absurd (cc))
