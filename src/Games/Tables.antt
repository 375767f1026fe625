-- ===== src/Games/Tables.antt =====
-- The table of app/db/models/mini_game.py and `GameRepository` (app/db/repositories/game_repo.py).
-- A time is a number of microseconds. New rows are put at the end of the list.
use ai_modrator.Common.{
  ℕ, String, Bool, true, false, ◌&&◌, Option, none, some, List, [], ◌∷◌, str_eq, ltb, ◌==◌,
  if◌then◌else◌,
}
use ai_modrator.Common.Int.{ℤ}
use ai_modrator.Economy.Tables.{Uuid}

pub data GameState : Type 0 where
  active completed expired : GameState

-- The dictionary `solution_data`: with the key "answers", or with the key "answer".
pub data Solution : Type 0 where
  answers : List String → Solution
  answer : String → Solution

pub record MiniGameSession : Type 0 where
  pub id : Uuid
  pub creator_id : String
  pub stream_session_id : String
  pub game_type : String
  pub state : GameState
  pub prompt_text : String
  pub solution_data : Solution
  pub reward_xp : ℕ
  pub reward_coins : ℤ
  pub winner_channel_id : Option String
  pub winner_display_name : Option String
  pub started_at : ℕ
  pub expires_at : ℕ

abbrev pub is_active : GameState → Bool
is_active active = true
is_active _ = false

-- The `where` clause of `get_active_game`.
unfoldable pub is_running : String → String → ℕ → MiniGameSession → Bool
is_running creator_id stream_session_id now g =
    str_eq g.creator_id creator_id
    && str_eq g.stream_session_id stream_session_id
    && is_active g.state
    && ltb now g.expires_at

unfoldable pub running : String → String → ℕ → List MiniGameSession → List MiniGameSession
running creator_id stream_session_id now [] = []
running creator_id stream_session_id now (g ∷ gs) =
    let rest = running creator_id stream_session_id now gs in
    if is_running creator_id stream_session_id now g then g ∷ rest else rest

-- What `scalar_one_or_none` does with the rows: it raises an error if there are several.
pub data Found : Type 0 where
  no_game multiple_results : Found
  one_game : MiniGameSession → Found

abbrev pub scalar_one_or_none : List MiniGameSession → Found
scalar_one_or_none [] = no_game
scalar_one_or_none (g ∷ []) = one_game g
scalar_one_or_none (g ∷ h ∷ gs) = multiple_results

unfoldable pub get_active_game : String → String → ℕ → List MiniGameSession → Found
get_active_game creator_id stream_session_id now gs =
    scalar_one_or_none (running creator_id stream_session_id now gs)

unfoldable pub create_game : MiniGameSession → List MiniGameSession → List MiniGameSession
create_game g [] = g ∷ []
create_game g (h ∷ gs) = h ∷ create_game g gs

-- The row with an id; the primary key allows one.
unfoldable pub find_game : Uuid → List MiniGameSession → Option MiniGameSession
find_game i [] = none
find_game i (g ∷ gs) = if g.id == i then some g else find_game i gs

unfoldable pub update_game :
    Uuid → (MiniGameSession → MiniGameSession) → List MiniGameSession → List MiniGameSession
update_game i f [] = []
update_game i f (g ∷ gs) =
    let rest = update_game i f gs in if g.id == i then f g ∷ rest else g ∷ rest

abbrev pub completed_by : String → String → MiniGameSession → MiniGameSession
completed_by winner_channel_id winner_display_name g =
    if is_active g.state
    then record g {
      state = completed;
      winner_channel_id = some winner_channel_id;
      winner_display_name = some winner_display_name;
    }
    else g

abbrev pub expire : MiniGameSession → MiniGameSession
expire g = if is_active g.state then record g { state = expired } else g

unfoldable pub complete_game :
    Uuid → String → String → List MiniGameSession → Option MiniGameSession × List MiniGameSession
complete_game i winner_channel_id winner_display_name gs =
    let gs' = update_game i (completed_by winner_channel_id winner_display_name) gs in
    (find_game i gs', gs')

unfoldable pub expire_game :
    Uuid → List MiniGameSession → Option MiniGameSession × List MiniGameSession
expire_game i gs = let gs' = update_game i expire gs in (find_game i gs', gs')
