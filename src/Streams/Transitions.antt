-- ===== src/Streams/Transitions.antt =====
-- The statuses of a stream session and their legal changes (app/db/models/stream_session.py).
use ai_modrator.Common.{ℕ, Bool, true, false, List, [], ◌∷◌, ◌==◌, if◌then◌else◌}

pub data StreamStatus : Type 0 where
  requested validating idle resolving connecting : StreamStatus
  connected running active reconnecting degraded : StreamStatus
  stopping stopped ending ended failed : StreamStatus
  cancelled error : StreamStatus

-- The place of a status in the enumeration, by which two statuses are compared.
abbrev pub index_of : StreamStatus → ℕ
index_of requested = 0
index_of validating = 1
index_of idle = 2
index_of resolving = 3
index_of connecting = 4
index_of connected = 5
index_of running = 6
index_of active = 7
index_of reconnecting = 8
index_of degraded = 9
index_of stopping = 10
index_of stopped = 11
index_of ending = 12
index_of ended = 13
index_of failed = 14
index_of cancelled = 15
index_of error = 16

abbrev pub same_status : StreamStatus → StreamStatus → Bool
same_status s t = index_of s == index_of t

unfoldable pub legal_stream_transitions : StreamStatus → List StreamStatus
legal_stream_transitions idle =
    requested ∷ validating ∷ connecting ∷ resolving ∷ stopped ∷ cancelled ∷ []
legal_stream_transitions requested = validating ∷ cancelled ∷ failed ∷ []
legal_stream_transitions validating = resolving ∷ failed ∷ cancelled ∷ []
legal_stream_transitions resolving = connecting ∷ failed ∷ cancelled ∷ []
legal_stream_transitions connecting = connected ∷ active ∷ running ∷ failed ∷ cancelled ∷ []
legal_stream_transitions connected = active ∷ running ∷ degraded ∷ failed ∷ ending ∷ ended ∷ []
legal_stream_transitions running =
    active ∷ reconnecting ∷ degraded ∷ ending ∷ ended ∷ stopping ∷ stopped ∷ failed ∷ error ∷ []
legal_stream_transitions active =
    reconnecting ∷ degraded ∷ ending ∷ ended ∷ stopping ∷ stopped ∷ failed ∷ error ∷ []
legal_stream_transitions reconnecting =
    active ∷ running ∷ degraded ∷ failed ∷ ending ∷ ended ∷ stopped ∷ error ∷ []
legal_stream_transitions degraded =
    active ∷ running ∷ reconnecting ∷ ending ∷ ended ∷ failed ∷ stopped ∷ []
legal_stream_transitions ending = ended ∷ stopped ∷ failed ∷ []
legal_stream_transitions stopping = stopped ∷ ended ∷ failed ∷ []
legal_stream_transitions stopped = requested ∷ connecting ∷ active ∷ []
legal_stream_transitions failed = requested ∷ connecting ∷ active ∷ []
legal_stream_transitions error = requested ∷ connecting ∷ active ∷ []
legal_stream_transitions ended = requested ∷ connecting ∷ []
legal_stream_transitions cancelled = []

unfoldable pub is_listed : StreamStatus → List StreamStatus → Bool
is_listed t [] = false
is_listed t (x ∷ xs) = let rest = is_listed t xs in if same_status x t then true else rest

unfoldable pub validate_stream_transition : StreamStatus → StreamStatus → Bool
validate_stream_transition current target =
    if same_status current target then true else is_listed target (legal_stream_transitions current)
