-- ===== src/Games/Rows.antt =====
-- What the queries of app/db/repositories/game_repo.py find after its writes.
use ai_modrator.Common.{
  ℕ, suc, ◌≤◌, String, ◌≡◌, refl, ◌⊎◌, inl, inr, ◌≢◌, false, some, List, [], ◌∷◌, length, ◌==◌,
  if◌then◌else◌, arith, Bool-cases,
}
use ai_modrator.Economy.Tables.{Uuid}
use ai_modrator.Games.Tables.{
  MiniGameSession, is_active, is_running, running, Found, no_game, one_game, multiple_results,
  scalar_one_or_none, get_active_game, create_game, find_game, update_game, completed_by, expire,
  complete_game,
}

pub Found-cases :
    (r : Found)
    → (r ≡ no_game) ⊎ ((r ≡ multiple_results) ⊎ ((g : MiniGameSession) × (r ≡ one_game g)))
Found-cases no_game = inl refl
Found-cases multiple_results = inr (inl refl)
Found-cases (one_game g) = inr (inr (g, refl))

-- A write that neither starts a game again nor gives it another stream or more time.
abbrev pub Ends : (MiniGameSession → MiniGameSession) → Type 0
Ends f =
    (g : MiniGameSession)
    → ((f g).creator_id ≡ g.creator_id)
      × ((f g).stream_session_id ≡ g.stream_session_id)
      × ((f g).expires_at ≡ g.expires_at)
      × ((f g).id ≡ g.id)
      × (is_active (f g).state ≡ false)

pub completed_by-Ends : (w n : String) → Ends (completed_by w n)
completed_by-Ends w n g = (ground arith, ground arith, ground arith, ground arith, ground arith)

pub expire-Ends : Ends expire
expire-Ends g = (ground arith, ground arith, ground arith, ground arith, ground arith)

pub length-running-later :
    (c s : String) (now later : ℕ) (gs : List MiniGameSession)
    → now ≤ later
    → length (running c s later gs) ≤ length (running c s now gs)
unfolding running is_running
length-running-later c s now later [] h = ground arith
length-running-later c s now later (g ∷ gs) h =
    ground (arith, length-running-later c s now later gs h)

pub length-running-update_game :
    (c s : String) (now : ℕ) (i : Uuid) (f : MiniGameSession → MiniGameSession)
    (gs : List MiniGameSession)
    → Ends f
    → length (running c s now (update_game i f gs)) ≤ length (running c s now gs)
unfolding running is_running update_game
length-running-update_game c s now i f [] h = ground arith
length-running-update_game c s now i f (g ∷ gs) h =
    ground (arith, h g, length-running-update_game c s now i f gs h)

pub length-running-create_game :
    (c s : String) (now : ℕ) (g : MiniGameSession) (gs : List MiniGameSession)
    → length (running c s now (create_game g gs)) ≤ (
        if is_running c s now g
        then suc (length (running c s now gs))
        else length (running c s now gs))
unfolding running create_game
length-running-create_game c s now g [] = ground arith
length-running-create_game c s now g (h ∷ gs) =
    ground (arith, length-running-create_game c s now g gs)

-- A write that does nothing to a game that has ended.
abbrev pub Spares : (MiniGameSession → MiniGameSession) → Type 0
Spares f = (g : MiniGameSession) → is_active g.state ≡ false → f g ≡ g

pub completed_by-Spares : (w n : String) → Spares (completed_by w n)
completed_by-Spares w n g h = rw h refl

pub expire-Spares : Spares expire
expire-Spares g h = rw h refl

pub find_game-update_game :
    (i j : Uuid) (f : MiniGameSession → MiniGameSession) (g : MiniGameSession)
    (gs : List MiniGameSession)
    → Ends f
    → Spares f
    → find_game j gs ≡ some g
    → is_active g.state ≡ false
    → find_game j (update_game i f gs) ≡ some g
unfolding find_game update_game
find_game-update_game i j f g [] h k e d = ground (arith, e)
find_game-update_game i j f g (x ∷ gs) h k e d = elim (Bool-cases (x.id == j)) [
  | inl b ↦ ground (arith, e, b, h x, k g d)
  | inr b ↦ ground (arith, e, b, h x, find_game-update_game i j f g gs h k (ground (arith, e, b)) d)
]

pub find_game-create_game :
    (j : Uuid) (g h : MiniGameSession) (gs : List MiniGameSession)
    → find_game j gs ≡ some g
    → find_game j (create_game h gs) ≡ some g
unfolding find_game create_game
find_game-create_game j g h [] e = ground (arith, e)
find_game-create_game j g h (x ∷ gs) e = elim (Bool-cases (x.id == j)) [
  | inl b ↦ ground (arith, e, b)
  | inr b ↦ ground (arith, e, b, find_game-create_game j g h gs (ground (arith, e, b)))
]

pub scalar_one_or_none-multiple :
    (gs : List MiniGameSession) → length gs ≤ 1 → scalar_one_or_none gs ≢ multiple_results
scalar_one_or_none-multiple [] h = λ e. cc
scalar_one_or_none-multiple (g ∷ []) h = λ e. cc
scalar_one_or_none-multiple (g ∷ k ∷ gs) h = λ e. ground arith

pub scalar_one_or_none-one :
    (gs : List MiniGameSession) (g : MiniGameSession)
    → scalar_one_or_none gs ≡ one_game g
    → gs ≡ g ∷ []
scalar_one_or_none-one [] g e = cc
scalar_one_or_none-one (h ∷ []) g e = cc
scalar_one_or_none-one (h ∷ k ∷ gs) g e = cc

scalar_one_or_none-empty :
    (gs : List MiniGameSession) → length gs ≡ 0 → scalar_one_or_none gs ≡ no_game
scalar_one_or_none-empty [] h = refl
scalar_one_or_none-empty (g ∷ gs) h = ground arith

length-running-completed :
    (c s w n : String) (now : ℕ) (g : MiniGameSession) (gs : List MiniGameSession)
    → running c s now gs ≡ g ∷ []
    → length (running c s now (update_game g.id (completed_by w n) gs)) ≡ 0
unfolding running is_running update_game
length-running-completed c s w n now g [] e = cc
length-running-completed c s w n now g (h ∷ gs) e = elim (Bool-cases (is_running c s now h)) [
  | inl b ↦ ground (
    arith,
    b,
    e,
    completed_by-Ends w n h,
    length-running-update_game c s now g.id (completed_by w n) gs (completed_by-Ends w n),
  )
  | inr b ↦ ground (
    arith,
    b,
    e,
    completed_by-Ends w n h,
    length-running-completed c s w n now g gs (ground (arith, b, e)),
  )
]

-- When the row of the one running game has been completed, no game runs any more.
pub get_active_game-completed :
    (c s w n : String) (now later : ℕ) (g : MiniGameSession) (gs : List MiniGameSession)
    → now ≤ later
    → get_active_game c s now gs ≡ one_game g
    → get_active_game c s later (complete_game g.id w n gs).1 ≡ no_game
unfolding get_active_game complete_game
get_active_game-completed c s w n now later g gs h e =
    let gs' = update_game g.id (completed_by w n) gs in
    let over =
      length-running-completed c s w n now g gs (scalar_one_or_none-one (running c s now gs) g e) in
    scalar_one_or_none-empty (running c s later gs')
      (ground (arith, over, length-running-later c s now later gs' h))
