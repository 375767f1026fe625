-- ===== src/Streams/Reach.antt =====
-- Which statuses of a stream session can follow each other (app/db/models/stream_session.py).
use ai_modrator.Common.{◌≡◌, refl, Bool, true, false, arith}
use ai_modrator.Streams.Transitions.{
  StreamStatus, requested, validating, idle, resolving, connecting, connected, running, active,
  reconnecting, degraded, stopping, stopped, ending, ended, failed, cancelled, error, same_status,
  legal_stream_transitions, is_listed, validate_stream_transition,
}

-- A chain of legal changes.
pub data Reaches : StreamStatus → StreamStatus → Type 0 where
  here : {s : StreamStatus} → Reaches s s
  next : {s t u : StreamStatus} → validate_stream_transition s t ≡ true → Reaches t u → Reaches s u

abbrev pub is_cancelled : StreamStatus → Bool
is_cancelled s = same_status s cancelled

legal_cancelled :
    (s t : StreamStatus)
    → is_cancelled s ≡ true
    → validate_stream_transition s t ≡ true
    → is_cancelled t ≡ true
unfolding validate_stream_transition legal_stream_transitions is_listed
legal_cancelled s t h k = ground arith

-- No chain of legal changes leads from CANCELLED to another status.
pub cancelled_final :
    {s t : StreamStatus} → Reaches s t → is_cancelled s ≡ true → is_cancelled t ≡ true
cancelled_final here h = h
cancelled_final (next {s} {t} k rest) h = cancelled_final rest (legal_cancelled s t h k)

-- From every status but CANCELLED, some chain of legal changes leads to ACTIVE.
pub Reaches-active : (s : StreamStatus) → is_cancelled s ≡ false → Reaches s active
unfolding validate_stream_transition legal_stream_transitions is_listed
Reaches-active requested h =
    next {s = requested} {t = failed} refl (next {s = failed} {t = active} refl here)
Reaches-active validating h =
    next {s = validating} {t = failed} refl (next {s = failed} {t = active} refl here)
Reaches-active idle h =
    next {s = idle} {t = connecting} refl (next {s = connecting} {t = active} refl here)
Reaches-active resolving h =
    next {s = resolving} {t = connecting} refl (next {s = connecting} {t = active} refl here)
Reaches-active connecting h = next {s = connecting} {t = active} refl here
Reaches-active connected h = next {s = connected} {t = active} refl here
Reaches-active running h = next {s = running} {t = active} refl here
Reaches-active active h = here
Reaches-active reconnecting h = next {s = reconnecting} {t = active} refl here
Reaches-active degraded h = next {s = degraded} {t = active} refl here
Reaches-active stopping h =
    next {s = stopping} {t = stopped} refl (next {s = stopped} {t = active} refl here)
Reaches-active stopped h = next {s = stopped} {t = active} refl here
Reaches-active ending h =
    next {s = ending} {t = stopped} refl (next {s = stopped} {t = active} refl here)
Reaches-active ended h =
    next {s = ended} {t = connecting} refl (next {s = connecting} {t = active} refl here)
Reaches-active failed h = next {s = failed} {t = active} refl here
Reaches-active cancelled h = ground arith
Reaches-active error h = next {s = error} {t = active} refl here
