-- ===== src/Streams/Tests.antt =====
-- Single changes of status, and the theorems at such inputs.
use ai_modrator.Common.{◌≡◌, refl, false}
use ai_modrator.Streams.Transitions.{
  stopped, running, legal_stream_transitions, is_listed, validate_stream_transition,
}

stopped_not_running : validate_stream_transition stopped running ≡ false
unfolding validate_stream_transition legal_stream_transitions is_listed
stopped_not_running = refl
