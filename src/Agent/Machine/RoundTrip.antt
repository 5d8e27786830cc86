-- ===== src/Agent/Machine/RoundTrip.antt =====
-- A record that was saved is read back (internal/agent/store.go).
use l4way.Agent.Machine.{Machine}
