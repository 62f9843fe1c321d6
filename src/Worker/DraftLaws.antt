-- ===== src/Worker/DraftLaws.antt =====
-- What the guard of the draft does, and where it stops.
use support_triage_llm.Worker.Draft.{Draft}
