-- ===== src/Games/Rounds.antt =====
-- Calls on the engine of app/games/engine.py in the order of their times: there is never more than
-- one running game of a stream, and a game that has ended stays as it ended.
use ai_modrator.Common.{
  ℕ, ◌≤◌, String, ◌≡◌, refl, ap, ◌⊎◌, inl, inr, ◌≢◌, true, false, some, List, [], ◌∷◌, length,
  eq_iff, arith, Bool-cases,
}
use ai_modrator.Economy.Tables.{Uuid}
use ai_modrator.Games.Engine.{
  Arcade, Guess, start_game, evaluate_chat_guess, settle_win, new_game, build_game, is_correct,
  announcement_of, won,
}
use ai_modrator.Games.Tables.{
  MiniGameSession, is_active, is_running, running, one_game, multiple_results, get_active_game,
  find_game, completed_by, expire, complete_game, expire_game,
}
use ai_modrator.Games.Rows.{
  Found-cases, completed_by-Ends, expire-Ends, length-running-later, length-running-update_game,
  length-running-create_game, completed_by-Spares, expire-Spares, find_game-update_game,
  find_game-create_game, scalar_one_or_none-multiple,
}

-- A call of the engine, or of `expire_game`.
pub data Call : Type 0 where
  start_call : String → String → String → ℕ → ℕ → ℕ → Call
  guess_call : String → String → String → String → String → ℕ → Call
  expire_call : Uuid → Call

module _ (lower upper : String → String) (text_of_id : Uuid → String)
    (xp_for_next_level : ℕ → ℕ) where
  unfoldable pub call : Call → ℕ → Arcade → Arcade
  call (start_call c s game_type duration_seconds pick number) now x =
      (start_game lower upper text_of_id xp_for_next_level c s game_type duration_seconds pick
        number now x).1
  call (guess_call c s viewer name text new_id) now x =
      (evaluate_chat_guess lower upper text_of_id xp_for_next_level c s viewer name text new_id now
        x).1
  call (expire_call i) now x = record x { games = (expire_game i x.games).1 }

  -- Calls at the times by which they are given.
  unfoldable pub run : List (ℕ × Call) → Arcade → Arcade
  run [] x = x
  run ((now, e) ∷ es) x = run es (call e now x)

  abbrev pub AreInOrder : ℕ → List (ℕ × Call) → Type 0
  AreInOrder t [] = Unit
  AreInOrder t ((now, e) ∷ es) = (t ≤ now) × AreInOrder now es

  -- A guess changes nothing, or it is correct for the one game that runs.
  pub evaluate_chat_guess-cases :
      (c s viewer name text : String) (new_id now : ℕ) (x : Arcade)
      → let r =
          evaluate_chat_guess lower upper text_of_id xp_for_next_level c s viewer name text new_id
            now x in
        ((r.1 ≡ x) × ((words : String) → r.0 ≢ won words))
        ⊎ ((g : MiniGameSession) × ((get_active_game c s now x.games ≡ one_game g)
              × (is_correct lower upper text_of_id xp_for_next_level g text ≡ true)
              × (r ≡ (
                won (announcement_of lower upper text_of_id xp_for_next_level g name),
                settle_win lower upper text_of_id xp_for_next_level g c viewer name new_id now x,
              ))))
  unfolding evaluate_chat_guess
  evaluate_chat_guess-cases c s viewer name text new_id now x =
      elim (Found-cases (get_active_game c s now x.games)) [
        | inl e ↦
            inl (rw (e, evaluate_chat_guess) refl, rw (e, evaluate_chat_guess) (λ words. λ q. cc))
        | inr (inl e) ↦
            inl (rw (e, evaluate_chat_guess) refl, rw (e, evaluate_chat_guess) (λ words. λ q. cc))
        | inr (inr (g, e)) ↦
            elim (Bool-cases (is_correct lower upper text_of_id xp_for_next_level g text)) [
              | inl f ↦ inr (g, (e, f, rw (e, f, evaluate_chat_guess) refl))
              | inr f ↦ inl (
                rw (e, f, evaluate_chat_guess) refl,
                rw (e, f, evaluate_chat_guess) (λ words. λ q. cc),
              )
            ]
      ]

  -- One game at most runs in each stream.
  abbrev pub AtMostOne : ℕ → List MiniGameSession → Type 0
  AtMostOne t gs = (c s : String) → length (running c s t gs) ≤ 1

  call-AtMostOne :
      (t now : ℕ) (e : Call) (x : Arcade)
      → t ≤ now
      → AtMostOne t x.games
      → AtMostOne now (call e now x).games
  unfolding call start_game evaluate_chat_guess settle_win complete_game expire_game get_active_game
      new_game is_running
  call-AtMostOne t now (start_call c s game_type duration_seconds pick number) x h one d w =
      let game =
        new_game lower upper text_of_id xp_for_next_level c s
          (build_game lower upper text_of_id xp_for_next_level game_type pick number)
          duration_seconds now (x.db.uuid4 x.db.drawn) in
      let later = length-running-later d w t now x.games h in
      ground (
        arith,
        one d w,
        later,
        eq_iff c d,
        eq_iff s w,
        length-running-create_game d w now game x.games,
      )
  call-AtMostOne t now (guess_call c s viewer name text new_id) x h one d w =
      elim (evaluate_chat_guess-cases c s viewer name text new_id now x) [
        | inl (same, _) ↦ ground (
          arith,
          ap (λ (y : Arcade). y.games) same,
          one d w,
          length-running-later d w t now x.games h,
        )
        | inr (g, (found, right, settled)) ↦ ground (
          arith,
          ap (λ (r : Guess × Arcade). r.1.games) settled,
          one d w,
          length-running-later d w t now x.games h,
          length-running-update_game d w now g.id (completed_by viewer name) x.games
              (completed_by-Ends viewer name),
        )
      ]
  call-AtMostOne t now (expire_call i) x h one d w = ground (
    arith,
    one d w,
    length-running-later d w t now x.games h,
    length-running-update_game d w now i expire x.games expire-Ends,
  )

  -- The time of the last call, if there is one.
  abbrev pub last_time : ℕ → List (ℕ × Call) → ℕ
  last_time t [] = t
  last_time t ((now, e) ∷ es) = last_time now es

  run-AtMostOne :
      (t : ℕ) (es : List (ℕ × Call)) (x : Arcade)
      → AreInOrder t es
      → AtMostOne t x.games
      → AtMostOne (last_time t es) (run es x).games
  unfolding run
  run-AtMostOne t [] x h one = one
  run-AtMostOne t ((now, e) ∷ es) x h one =
      run-AtMostOne now es (call e now x) h.1 (call-AtMostOne t now e x h.0 one)

  -- After any calls in the order of their times from no games, the lookup of a stream's running
  -- game at a later time does not find several.
  pub run_one_game :
      (es : List (ℕ × Call)) (x : Arcade) (c s : String) (later : ℕ)
      → x.games ≡ []
      → AreInOrder 0 es
      → last_time 0 es ≤ later
      → get_active_game c s later (run es x).games ≢ multiple_results
  unfolding get_active_game running
  run_one_game es x c s later none_yet h l =
      let one = run-AtMostOne 0 es x h (λ d w. rw none_yet (ground arith)) c s in
      let few = length-running-later c s (last_time 0 es) later (run es x).games l in
      scalar_one_or_none-multiple (running c s later (run es x).games) (ground (arith, one, few))

  call-find_game :
      (now : ℕ) (e : Call) (x : Arcade) (j : Uuid) (g : MiniGameSession)
      → find_game j x.games ≡ some g
      → is_active g.state ≡ false
      → find_game j (call e now x).games ≡ some g
  unfolding call start_game settle_win complete_game expire_game
  call-find_game now (start_call c s game_type duration_seconds pick number) x j g found ended =
      let game =
        new_game lower upper text_of_id xp_for_next_level c s
          (build_game lower upper text_of_id xp_for_next_level game_type pick number)
          duration_seconds now (x.db.uuid4 x.db.drawn) in
      ground (arith, found, find_game-create_game j g game x.games found)
  call-find_game now (guess_call c s viewer name text new_id) x j g found ended =
      elim (evaluate_chat_guess-cases c s viewer name text new_id now x) [
        | inl (same, _) ↦ ground (arith, ap (λ (y : Arcade). y.games) same, found)
        | inr (h, (found_h, right, settled)) ↦
            rw (settled, call)
              (find_game-update_game h.id j (completed_by viewer name) g x.games
                (completed_by-Ends viewer name) (completed_by-Spares viewer name) found ended)
      ]
  call-find_game now (expire_call i) x j g found ended =
      find_game-update_game i j expire g x.games expire-Ends expire-Spares found ended

  -- A game that was completed or has expired stays exactly as it is through any calls.
  pub run-find_game :
      (es : List (ℕ × Call)) (x : Arcade) (j : Uuid) (g : MiniGameSession)
      → find_game j x.games ≡ some g
      → is_active g.state ≡ false
      → find_game j (run es x).games ≡ some g
  unfolding run
  run-find_game [] x j g found ended = found
  run-find_game ((now, e) ∷ es) x j g found ended =
      run-find_game es (call e now x) j g (call-find_game now e x j g found ended) ended
