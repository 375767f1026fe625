-- ===== src/Games/Completed.antt =====
-- What `complete_game` (app/db/repositories/game_repo.py) leaves of the rows of the games.
use mathlib.Core.List.{Memᴰ}
use ai_modrator.Common.{
  ℕ, String, ◌≡◌, refl, ◌⊎◌, inl, inr, ◌≢◌, true, false, some, List, [], ◌∷◌, ◌==◌, arith,
  Bool-cases,
}
use ai_modrator.Economy.Tables.{Uuid}
use ai_modrator.Games.Rows.{scalar_one_or_none-one}
use ai_modrator.Games.Tables.{
  MiniGameSession, GameState, active, completed, expired, is_active, is_running, running, one_game,
  get_active_game, update_game, completed_by,
}

-- The row of a game, completed with a winner.
abbrev pub won_row : String → String → MiniGameSession → MiniGameSession
won_row w n g = record g {
  state = completed;
  winner_channel_id = some w;
  winner_display_name = some n;
}

-- Of the rows of a table, the active ones with an id are completed with a winner, and all others
-- are as they were.
abbrev pub AreWon : Uuid → String → String → List MiniGameSession → List MiniGameSession → Type 0
AreWon i w n [] [] = Unit
AreWon i w n [] (h ∷ hs) = ⊥
AreWon i w n (g ∷ gs) [] = ⊥
AreWon i w n (g ∷ gs) (h ∷ hs) =
    (((g.id ≡ i) × (g.state ≡ active) × (h ≡ won_row w n g))
      ⊎ (((g.id ≢ i) ⊎ (g.state ≢ active)) × (h ≡ g)))
    × AreWon i w n gs hs

is_active-cases :
    (s : GameState) → ((s ≡ active) × (is_active s ≡ true)) ⊎ ((s ≢ active) × (is_active s ≡ false))
is_active-cases active = inl (refl, refl)
is_active-cases completed = inr (λ e. cc, refl)
is_active-cases expired = inr (λ e. cc, refl)

pub update_game-AreWon :
    (i : Uuid) (w n : String) (gs : List MiniGameSession)
    → AreWon i w n gs (update_game i (completed_by w n) gs)
unfolding update_game
update_game-AreWon i w n [] = tt
update_game-AreWon i w n (g ∷ gs) =
    let rest = update_game-AreWon i w n gs in
    elim (Bool-cases (g.id == i)) [
      | inr b ↦ rw b (inr (inl (ground (arith, b)), refl), rest)
      | inl b ↦ elim (is_active-cases g.state) [
        | inl (a, e) ↦ rw (b, e) (inl (ground (arith, b), a, refl), rest)
        | inr (a, e) ↦ rw (b, e) (inr (inr a, refl), rest)
      ]
    ]

running-row :
    (c s w n : String) (now : ℕ) (g : MiniGameSession) (gs : List MiniGameSession)
    → running c s now gs ≡ g ∷ []
    → Memᴰ (won_row w n g) (update_game g.id (completed_by w n) gs)
unfolding running is_running update_game
running-row c s w n now g [] e = cc
running-row c s w n now g (h ∷ gs) e =
    let rest = update_game g.id (completed_by w n) gs in
    elim (Bool-cases (is_running c s now h)) [
      | inl b ↦
          let same : h ≡ g = ground (arith, b, e) in
          let runs : is_active g.state ≡ true = ground (arith, b, same) in
          let here : (h.id == g.id) ≡ true = ground (arith, same) in
          rw here (Memᴰ.head (ground (arith, same, runs)))
      | inr b ↦
          let there = running-row c s w n now g gs (ground (arith, b, e)) in
          elim (Bool-cases (h.id == g.id)) [
            | inl d ↦ rw d (Memᴰ.tail there)
            | inr d ↦ rw d (Memᴰ.tail there)
          ]
    ]

-- The row of the one running game is in the table afterwards, with the winner.
pub complete_game-won_row :
    (c s w n : String) (now : ℕ) (g : MiniGameSession) (gs : List MiniGameSession)
    → get_active_game c s now gs ≡ one_game g
    → Memᴰ (won_row w n g) (update_game g.id (completed_by w n) gs)
unfolding get_active_game
complete_game-won_row c s w n now g gs e =
    running-row c s w n now g gs (scalar_one_or_none-one (running c s now gs) g e)
