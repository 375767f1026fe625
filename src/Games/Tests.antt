-- ===== src/Games/Tests.antt =====
-- A round of trivia, and the theorems at such inputs.
use mathlib.Core.List.{Memᴰ}
use ai_modrator.Common.{
  ℕ, ◌≤◌, String, ◌≡◌, ◌≢◌, refl, true, ◌&&◌, none, some, List, [], ◌∷◌, str_eq, arith,
  if◌then◌else◌,
}
use ai_modrator.Common.Int.{pos}
use ai_modrator.Common.Pairs.{no_pairs}
use ai_modrator.Common.Search.{contains, starts_with}
use ai_modrator.Common.Strip.{strip}
use ai_modrator.Common.Text.{decimal, ◌⊕◌}
use ai_modrator.Economy.Book.{book_of, earned, is_used}
use ai_modrator.Economy.Runs.{empty_tables}
use ai_modrator.Economy.Tables.{AccountKey}
use ai_modrator.Engagement.Profiles.{get_by_viewer}
use ai_modrator.Games.Engine.{
  Arcade, won, start_game, new_game, build_game, random_question, random_word, evaluate_chat_guess,
  is_correct, any_in, announcement_of,
}
use ai_modrator.Games.Completed.{won_row, AreWon}
use ai_modrator.Games.Rounds.{
  Call, start_call, guess_call, expire_call, run, run_one_game, run-find_game,
}
use ai_modrator.Games.Tables.{
  MiniGameSession, answers, active, one_game, no_game, multiple_results, get_active_game, running,
  is_running, create_game, find_game, completed_by,
}
use ai_modrator.Games.Winners.{scores, scores_after, evaluate_chat_guess_won}

abbrev same_text : String → String
same_text text = text

abbrev text_of_id : ℕ → String
text_of_id i = decimal (pos i)

abbrev hundred_each : ℕ → ℕ
hundred_each level = 100

abbrev mars : MiniGameSession
mars = record {
  id = 0;
  creator_id = "c";
  stream_session_id = "s";
  game_type = "TRIVIA";
  state = active;
  prompt_text = "🎯 [TRIVIA]: Which planet is known as the Red Planet? (First correct answer wins!)";
  solution_data = answers ("mars" ∷ []);
  reward_xp = 50;
  reward_coins = pos 25;
  winner_channel_id = none;
  winner_display_name = none;
  started_at = 100000000;
  expires_at = 160000000;
}

abbrev empty_arcade : Arcade
empty_arcade = record {
  last_game_started = no_pairs;
  games = [];
  profiles = [];
  db = empty_tables (λ n. n);
}

abbrev playing : Arcade
playing = record empty_arcade { games = mars ∷ [] }

mars_started :
    (start_game same_text same_text text_of_id hundred_each "c" "s" "TRIVIA" 60 1 10 100000000
      empty_arcade).1.games
    ≡ mars ∷ []
unfolding start_game new_game build_game random_question random_word get_active_game running
    create_game decimal
mars_started = refl

mars_guessed :
    (evaluate_chat_guess same_text same_text text_of_id hundred_each "c" "s" "ann" "Ann"
      " is it mars?" 1 120000000 playing).0
    ≡ won "🏆 Correct! @Ann won the TRIVIA game! (+50 XP, +25 Coins)"
unfolding evaluate_chat_guess get_active_game running is_running is_correct any_in contains
    starts_with strip announcement_of decimal
mars_guessed = refl

evaluate_chat_guess_won_example :
    let r =
      evaluate_chat_guess same_text same_text text_of_id hundred_each "c" "s" "ann" "Ann"
        " is it mars?" 1 120000000 playing in
    (g : MiniGameSession) × ((get_active_game "c" "s" 120000000 playing.games ≡ one_game g)
      × (is_correct same_text same_text text_of_id hundred_each g " is it mars?" ≡ true)
      × Memᴰ (won_row "ann" "Ann" g) r.1.games
      × AreWon g.id "ann" "Ann" playing.games r.1.games
      × ((later : ℕ) → 120000000 ≤ later → get_active_game "c" "s" later r.1.games ≡ no_game)
      × ((d v : String)
          → scores (get_by_viewer d v r.1.profiles) ≡ (
              if str_eq "c" d && str_eq "ann" v
              then scores_after same_text same_text text_of_id hundred_each g.reward_xp
                  (scores (get_by_viewer d v playing.profiles))
              else scores (get_by_viewer d v playing.profiles)))
      × ((k : AccountKey)
          → book_of r.1.db k
            ≡ earned "c" "ann" g.reward_coins
                (is_used "c" ("gamewin" ⊕ text_of_id g.id ⊕ "ann") playing.db)
                (book_of playing.db)
                k))
evaluate_chat_guess_won_example =
    evaluate_chat_guess_won same_text same_text text_of_id hundred_each "c" "s" "ann" "Ann"
      " is it mars?" 1 120000000 playing "🏆 Correct! @Ann won the TRIVIA game! (+50 XP, +25 Coins)"
      mars_guessed

-- A game is started, guessed wrong, and run out.
abbrev calls : List (ℕ × Call)
calls =
    (100000000, start_call "c" "s" "TRIVIA" 60 1 10)
    ∷ (110000000, guess_call "c" "s" "ann" "Ann" "venus" 1)
    ∷ (170000000, expire_call 0)
    ∷ []

run_one_game_example :
    get_active_game "c" "s" 180000000
      (run same_text same_text text_of_id hundred_each calls empty_arcade).games
    ≢ multiple_results
run_one_game_example =
    run_one_game same_text same_text text_of_id hundred_each calls empty_arcade "c" "s" 180000000
      refl (ground arith, (ground arith, (ground arith, tt))) (ground arith)

abbrev won_by_ann : MiniGameSession
won_by_ann = completed_by "ann" "Ann" mars

run-find_game_example :
    find_game 0
      (run same_text same_text text_of_id hundred_each calls
        (record empty_arcade { games = won_by_ann ∷ [] })).games
    ≡ some won_by_ann
unfolding find_game
run-find_game_example =
    run-find_game same_text same_text text_of_id hundred_each calls
      (record empty_arcade { games = won_by_ann ∷ [] }) 0 won_by_ann refl refl
