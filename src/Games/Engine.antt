-- ===== src/Games/Engine.antt =====
-- `MiniGameEngine` of app/games/engine.py. Python's `str.lower` and `str.upper` are parameters, and
-- so are the texts of ids. A call has its random draws as arguments, and the time at which it reads
-- the clock.
use Prim.Native.String.{◌++◌}
use ai_modrator.Common.{
  ℕ, zero, suc, ◌+◌, ◌-◌, ◌*◌, ◌/◌, String, Bool, true, false, ◌||◌, Option, none, some, List, [],
  ◌∷◌, str_eq, ltb, if◌then◌else◌,
}
use ai_modrator.Common.Int.{pos}
use ai_modrator.Common.Pairs.{PairDict, put_pair}
use ai_modrator.Common.Search.{contains}
use ai_modrator.Common.Strip.{strip}
use ai_modrator.Common.Text.{◌⊕◌, decimal}
use ai_modrator.Economy.Service.{earn}
use ai_modrator.Economy.Tables.{Db, Uuid}
use ai_modrator.Engagement.Levels.{calculate_level_from_xp}
use ai_modrator.Engagement.Profiles.{Profile, get_or_create, update_profile, award_xp, record_game}
use ai_modrator.Games.Tables.{
  MiniGameSession, Solution, answers, answer, active, no_game, one_game, multiple_results,
  get_active_game, create_game, complete_game,
}

pub record Trivia : Type 0 where
  pub q : String
  pub a : List String

pub record Scramble : Type 0 where
  pub word : String
  pub scrambled : String

abbrev trivia : String → List String → Trivia
trivia q a = record { q = q; a = a }

abbrev scramble : String → String → Scramble
scramble word scrambled = record { word = word; scrambled = scrambled }

-- An element of the list `x ∷ xs`: the one at a place, or the last.
abbrev pub choose {ℓ} : {A : Type ℓ} → ℕ → A → List A → A
choose zero x xs = x
choose (suc n) x [] = x
choose (suc n) x (y ∷ ys) = choose n y ys

unfoldable pub random_question : ℕ → Trivia
random_question n = choose n (trivia "What is the capital of India?" ("new delhi" ∷ "delhi" ∷ [])) (
    trivia "Which planet is known as the Red Planet?" ("mars" ∷ [])
    ∷ trivia "How many players are on the field for one soccer team?" ("11" ∷ "eleven" ∷ [])
    ∷ trivia "What is the primary currency of Japan?" ("yen" ∷ [])
    ∷ trivia "Who created Python programming language?" ("guido van rossum" ∷ "guido" ∷ [])
    ∷ trivia "What is the speed of light in vacuum approximately? (in km/s)"
        ("300000" ∷ "300,000" ∷ [])
    ∷ trivia "What does CPU stand for?" ("central processing unit" ∷ [])
    ∷ [])

unfoldable pub random_word : ℕ → Scramble
random_word n = choose n (scramble "HONNEY" "E N O Y H N") (
    scramble "STREAM" "M T E R A S"
    ∷ scramble "GAMING" "M G I N A G"
    ∷ scramble "VICTORY" "Y T C R V I O"
    ∷ scramble "CHAMPION" "P M C N H I A O"
    ∷ [])

-- The engine, the tables, and the economy's database.
pub record Arcade : Type 0 where
  pub last_game_started : PairDict ℕ
  pub games : List MiniGameSession
  pub profiles : List Profile
  pub db : Db

-- What `start_game` answers; `failed` stands for the error that it passes on.
pub data Start : Type 0 where
  already_running started : MiniGameSession → Start
  cooldown_active : ℕ → Start
  failed : Start

abbrev pub or_never : Option ℕ → ℕ
or_never none = 0
or_never (some t) = t

-- The type, the prompt and the solution of a new game.
pub record Puzzle : Type 0 where
  pub game_type : String
  pub prompt_text : String
  pub solution_data : Solution

-- What `evaluate_chat_guess` returns; `error` stands for the error that it passes on.
pub data Guess : Type 0 where
  not_won error : Guess
  won : String → Guess

module _ (lower upper : String → String) (text_of_id : Uuid → String)
    (xp_for_next_level : ℕ → ℕ) where
  -- Step 3 of `start_game`: `pick` is the place of `random.choice`, and `number` is the number that
  -- `random.randint(10, 99)` returns.
  unfoldable pub build_game : String → ℕ → ℕ → Puzzle
  build_game game_type pick number =
      let gt = upper game_type in
      let item = random_question pick in
      let word = random_word pick in
      let target = "GG " ++ decimal (pos number) in
      if str_eq gt "TRIVIA"
      then record {
        game_type = gt;
        prompt_text = "🎯 [TRIVIA]: " ++ item.q ++ " (First correct answer wins!)";
        solution_data = answers item.a;
      }
      else if str_eq gt "WORD_SCRAMBLE" || str_eq gt "WORD"
      then record {
        game_type = "WORD_SCRAMBLE";
        prompt_text =
            "🔤 [WORD SCRAMBLE]: Unscramble the letters: " ++ word.scrambled
            ++ " (Reward: 50 XP, 25 Coins!)";
        solution_data = answer (lower word.word);
      }
      else if str_eq gt "REACTION"
      then record {
        game_type = gt;
        prompt_text = "⚡ [REACTION SPEED]: First person to type '" ++ target ++ "' in chat wins!";
        solution_data = answer (lower target);
      }
      else record {
        game_type = "TRIVIA";
        prompt_text = "🎯 [TRIVIA]: " ++ item.q;
        solution_data = answers item.a;
      }

  unfoldable pub new_game : String → String → Puzzle → ℕ → ℕ → Uuid → MiniGameSession
  new_game creator_id stream_session_id puzzle duration_seconds now i = record {
    id = i;
    creator_id = creator_id;
    stream_session_id = stream_session_id;
    game_type = puzzle.game_type;
    state = active;
    prompt_text = puzzle.prompt_text;
    solution_data = puzzle.solution_data;
    reward_xp = 50;
    reward_coins = pos 25;
    winner_channel_id = none;
    winner_display_name = none;
    started_at = now;
    expires_at = now + duration_seconds * 1000000;
  }

  unfoldable pub start_game : String → String → String → ℕ → ℕ → ℕ → ℕ → Arcade → Start × Arcade
  start_game creator_id stream_session_id game_type duration_seconds pick number now x =
      let ready = or_never (x.last_game_started creator_id stream_session_id) + 60000000 in
      let game =
        new_game creator_id stream_session_id (build_game game_type pick number) duration_seconds
          now (x.db.uuid4 x.db.drawn) in
      elim (get_active_game creator_id stream_session_id now x.games) [
        | multiple_results ↦ (failed, x)
        | one_game existing ↦ (already_running existing, x)
        | no_game ↦ if ltb now ready then (cooldown_active ((ready - now) / 1000000), x) else (
          started game,
          record x {
            last_game_started = put_pair creator_id stream_session_id now x.last_game_started;
            games = create_game game x.games;
            db = record x.db { drawn = x.db.drawn + 1 };
          },
        )
      ]

  abbrev pub accepted_answers : Solution → List String
  accepted_answers (answers accepted) = accepted
  accepted_answers (answer target) = []

  abbrev pub target_of : Solution → String
  target_of (answers accepted) = ""
  target_of (answer target) = target

  -- `any(a.lower() in guess for a in accepted)`.
  unfoldable pub any_in : String → List String → Bool
  any_in guess [] = false
  any_in guess (a ∷ accepted) = contains (lower a) guess || any_in guess accepted

  unfoldable pub is_correct : MiniGameSession → String → Bool
  is_correct game chat_text =
      let guess = lower (strip chat_text) in
      if str_eq game.game_type "TRIVIA"
      then any_in guess (accepted_answers game.solution_data)
      else if str_eq game.game_type "WORD_SCRAMBLE" || str_eq game.game_type "REACTION"
      then contains (lower (target_of game.solution_data)) guess
      else false

  -- Steps 1 to 3 of `evaluate_chat_guess`.
  unfoldable pub settle_win : MiniGameSession → String → String → String → ℕ → ℕ → Arcade → Arcade
  settle_win game c viewer_channel_id viewer_display_name new_id now x =
      let (_, games) = complete_game game.id viewer_channel_id viewer_display_name x.games in
      let (profile, profiles) =
        get_or_create c viewer_channel_id viewer_display_name new_id now x.profiles in
      let new_level =
        calculate_level_from_xp xp_for_next_level (profile.total_xp + game.reward_xp) in
      let awarded =
        update_profile c viewer_channel_id (award_xp game.reward_xp new_level now) profiles in
      let (_, db) =
        earn c viewer_channel_id game.reward_coins ("Won " ++ game.game_type ++ " mini-game")
          (some ("gamewin" ⊕ text_of_id game.id ⊕ viewer_channel_id)) (some "mini_game")
          (some (text_of_id game.id)) x.db in
      record x {
        games = games;
        profiles = update_profile c viewer_channel_id (record_game true now) awarded;
        db = db;
      }

  unfoldable pub announcement_of : MiniGameSession → String → String
  announcement_of game viewer_display_name =
      "🏆 Correct! @"
      ++ viewer_display_name
      ++ " won the "
      ++ game.game_type
      ++ " game! (+"
      ++ decimal (pos game.reward_xp)
      ++ " XP, +"
      ++ decimal game.reward_coins
      ++ " Coins)"

  unfoldable pub evaluate_chat_guess :
      String → String → String → String → String → ℕ → ℕ → Arcade → Guess × Arcade
  evaluate_chat_guess creator_id stream_session_id viewer_channel_id viewer_display_name chat_text
        new_id now x =
      elim (get_active_game creator_id stream_session_id now x.games) [
        | multiple_results ↦ (error, x)
        | no_game ↦ (not_won, x)
        | one_game game ↦
            if is_correct game chat_text
            then (
              won (announcement_of game viewer_display_name),
              settle_win game creator_id viewer_channel_id viewer_display_name new_id now x,
            )
            else (not_won, x)
      ]
