-- ===== src/Games/Winners.antt =====
-- What a correct guess brings (app/games/engine.py): the game is over, the winner has the XP and
-- the coins, and the books of the economy stay in order.
use Prim.Native.String.{◌++◌}
use mathlib.Core.List.{Memᴰ}
use ai_modrator.Common.{
  ℕ, ◌+◌, ◌≤◌, String, ◌≡◌, refl, ap, ◌∙◌, inl, inr, true, ◌&&◌, Option, none, some, List, [], ◌∷◌,
  max, str_eq, eq_iff, if◌then◌else◌, arith, if_intro, Option-cases,
}
use ai_modrator.Common.Join.{or_text-join}
use ai_modrator.Common.Text.{◌⊕◌}
use ai_modrator.Economy.Audit.{IsValid}
use ai_modrator.Economy.Book.{book_of, earned, earn-refines, is_used}
use ai_modrator.Economy.Create.{draw-IsValid}
use ai_modrator.Economy.Runs.{earn-IsValid}
use ai_modrator.Economy.Service.{earn_key}
use ai_modrator.Economy.Tables.{AccountKey, Uuid}
use ai_modrator.Engagement.Levels.{calculate_level_from_xp}
use ai_modrator.Engagement.Profiles.{
  Profile, KeepsKey, get_by_viewer, get_or_create, update_profile, award_xp, record_game,
  get_by_viewer-update_profile,
}
use ai_modrator.Engagement.Totals.{get_by_viewer-get_or_create, award-KeepsKey}
use ai_modrator.Games.Engine.{
  Arcade, Start, start_game, evaluate_chat_guess, settle_win, is_correct, won,
}
use ai_modrator.Games.Completed.{won_row, AreWon, update_game-AreWon, complete_game-won_row}
use ai_modrator.Games.Rounds.{
  Call, start_call, guess_call, expire_call, call, run, evaluate_chat_guess-cases,
}
use ai_modrator.Games.Rows.{Found-cases, get_active_game-completed}
use ai_modrator.Games.Tables.{MiniGameSession, no_game, one_game, get_active_game, complete_game}

-- The XP, the level, and the games played and won that the profiles show for a viewer.
abbrev pub scores : Option Profile → ℕ × ℕ × ℕ × ℕ
scores none = (0, 1, 0, 0)
scores (some p) = (p.total_xp, p.level, p.games_played, p.games_won)

get_or_create-scores :
    (c w n : String) (i now : ℕ) (ps : List Profile)
    → scores (some (get_or_create c w n i now ps).0) ≡ scores (get_by_viewer c w ps)
unfolding get_or_create
get_or_create-scores c w n i now ps = elim (Option-cases (get_by_viewer c w ps)) [
  | inl e ↦ ground (arith, e)
  | inr (p, e) ↦ ground (arith, e)
]

played-KeepsKey : (now : ℕ) → KeepsKey (record_game true now)
played-KeepsKey now p = (refl, refl)

module _ (lower upper : String → String) (text_of_id : Uuid → String)
    (xp_for_next_level : ℕ → ℕ) where
  call-IsValid :
      (now : ℕ) (e : Call) (x : Arcade)
      → IsValid x.db
      → IsValid (call lower upper text_of_id xp_for_next_level e now x).db
  unfolding call start_game settle_win
  call-IsValid now (start_call c s game_type duration_seconds pick number) x v =
      elim (Found-cases (get_active_game c s now x.games)) [
        | inl e ↦
            rw (e, call)
              (if_intro (λ (r : Start × Arcade). IsValid r.1.db) _ _ _ (λ _. v)
                (λ _. draw-IsValid x.db v))
        | inr (inl e) ↦ rw (e, call) v
        | inr (inr (g, e)) ↦ rw (e, call) v
      ]
  call-IsValid now (guess_call c s viewer name text new_id) x v =
      elim (evaluate_chat_guess-cases lower upper text_of_id xp_for_next_level c s viewer name text
        new_id now x) [
          | inl (same, _) ↦ rw (same, call) v
          | inr (g, (found, right, settled)) ↦
              rw (settled, call)
                (earn-IsValid c viewer g.reward_coins ("Won " ++ g.game_type ++ " mini-game")
                  (some ("gamewin" ⊕ text_of_id g.id ⊕ viewer)) (some "mini_game")
                  (some (text_of_id g.id)) x.db v)
        ]
  call-IsValid now (expire_call i) x v = v

  -- What the profiles show for the winner after a game, from what they showed before.
  abbrev pub scores_after : ℕ → ℕ × ℕ × ℕ × ℕ → ℕ × ℕ × ℕ × ℕ
  scores_after reward (total, level, played, wins) = (
    total + reward,
    max level (calculate_level_from_xp xp_for_next_level (total + reward)),
    played + 1,
    wins + 1,
  )

  settle_win-scores :
      (g : MiniGameSession) (c w n d v : String) (new_id now : ℕ) (x : Arcade)
      → scores (
          get_by_viewer d v
            (settle_win lower upper text_of_id xp_for_next_level g c w n new_id now x).profiles)
        ≡ (if str_eq c d && str_eq w v
            then scores_after g.reward_xp (scores (get_by_viewer d v x.profiles))
            else scores (get_by_viewer d v x.profiles))
  unfolding settle_win
  settle_win-scores g c w n d v new_id now x =
      let (p, ps) = get_or_create c w n new_id now x.profiles in
      let new_level = calculate_level_from_xp xp_for_next_level (p.total_xp + g.reward_xp) in
      ground (
        arith,
        eq_iff c d,
        eq_iff w v,
        get_by_viewer-update_profile c w d v (record_game true now)
            (update_profile c w (award_xp g.reward_xp new_level now) ps) (played-KeepsKey now),
        get_by_viewer-update_profile c w d v (award_xp g.reward_xp new_level now) ps
            (award-KeepsKey g.reward_xp new_level now),
        get_by_viewer-get_or_create c w n d v new_id now x.profiles,
        get_or_create-scores c w n new_id now x.profiles,
      )

  abbrev pub win_key : MiniGameSession → String → String
  win_key g w = "gamewin" ⊕ text_of_id g.id ⊕ w

  settle_win-book :
      (g : MiniGameSession) (c w n : String) (new_id now : ℕ) (x : Arcade) (k : AccountKey)
      → book_of (settle_win lower upper text_of_id xp_for_next_level g c w n new_id now x).db k
        ≡ earned c w g.reward_coins (is_used c (win_key g w) x.db) (book_of x.db) k
  unfolding settle_win
  settle_win-book g c w n new_id now x k =
      let reason = "Won " ++ g.game_type ++ " mini-game" in
      let paid =
        earn-refines c w g.reward_coins reason (some (win_key g w)) (some "mini_game")
          (some (text_of_id g.id)) x.db k in
      let kept = or_text-join "gamewin" (text_of_id g.id ⊕ w) (earn_key c w reason) in
      paid ∙ ap (λ u. earned c w g.reward_coins (is_used c u x.db) (book_of x.db) k) kept

  -- If a guess wins, it is correct for the one running game of the stream; the row of the game
  -- is completed with the winner and every row but the active ones with the game's id is as it
  -- was, no game of the stream runs from then on, the winner's profile shows the reward's XP,
  -- the level of at least the new total, and one game more played and won, and the winner's
  -- balance has the coins, paid by the mint, if the reward is positive and its idempotency key
  -- unused; nobody else's profile or balance changes.
  pub evaluate_chat_guess_won :
      (c s w n text : String) (new_id now : ℕ) (x : Arcade) (words : String)
      → let r =
          evaluate_chat_guess lower upper text_of_id xp_for_next_level c s w n text new_id now x in
        r.0 ≡ won words
        → (g : MiniGameSession) × ((get_active_game c s now x.games ≡ one_game g)
            × (is_correct lower upper text_of_id xp_for_next_level g text ≡ true)
            × Memᴰ (won_row w n g) r.1.games
            × AreWon g.id w n x.games r.1.games
            × ((later : ℕ) → now ≤ later → get_active_game c s later r.1.games ≡ no_game)
            × ((d v : String)
                → scores (get_by_viewer d v r.1.profiles) ≡ (
                    if str_eq c d && str_eq w v
                    then scores_after g.reward_xp (scores (get_by_viewer d v x.profiles))
                    else scores (get_by_viewer d v x.profiles)))
            × ((k : AccountKey)
                → book_of r.1.db k
                  ≡ earned c w g.reward_coins (is_used c (win_key g w) x.db) (book_of x.db) k))
  unfolding settle_win complete_game
  evaluate_chat_guess_won c s w n text new_id now x words e =
      elim (evaluate_chat_guess-cases lower upper text_of_id xp_for_next_level c s w n text new_id
        now x) [
          | inl (same, no_win) ↦ elim (no_win words e) [ ]
          | inr (g, (found, right, settled)) ↦ rw settled (
            g,
            (
              found,
              right,
              complete_game-won_row c s w n now g x.games found,
              update_game-AreWon g.id w n x.games,
              λ later. λ h. get_active_game-completed c s w n now later g x.games h found,
              λ d v. settle_win-scores g c w n d v new_id now x,
              λ k. settle_win-book g c w n new_id now x k,
            ),
          )
        ]

  run_from-IsValid :
      (es : List (ℕ × Call)) (x : Arcade)
      → IsValid x.db
      → IsValid (run lower upper text_of_id xp_for_next_level es x).db
  unfolding run
  run_from-IsValid [] x v = v
  run_from-IsValid ((now, e) ∷ es) x v =
      run_from-IsValid es (call lower upper text_of_id xp_for_next_level e now x)
        (call-IsValid now e x v)
