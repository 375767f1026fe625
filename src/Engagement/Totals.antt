-- ===== src/Engagement/Totals.antt =====
-- What processing messages leaves in the profiles: the XP, the levels and the counts of messages.
use ai_modrator.Common.{
  ℕ, suc, ◌+◌, String, ◌≡◌, refl, inl, inr, Bool, ◌&&◌, Option, none, some, List, [], ◌∷◌, max,
  str_eq, eq_iff, if◌then◌else◌, arith, Option-cases,
}
use ai_modrator.Engagement.Daily.{is_to}
use ai_modrator.Engagement.Farming.{AntiFarmingGuard}
use ai_modrator.Engagement.Levels.{calculate_level_from_xp, calculate_level_from_xp_monotone}
use ai_modrator.Engagement.Messages.{Message, Manager, process_chat_message, gates, award, run}
use ai_modrator.Engagement.Profiles.{
  Profile, KeepsKey, get_by_viewer, get_or_create, update_profile, rename, is_profile_of,
  increment_message, award_xp, get_by_viewer-update_profile,
}

-- The XP, the level and the message count that the profiles show for a viewer.
abbrev pub shown : Option Profile → ℕ × ℕ × ℕ
shown none = (0, 1, 0)
shown (some p) = (p.total_xp, p.level, p.messages_count)

rename-KeepsKey : (n : String) → KeepsKey (rename n)
rename-KeepsKey n p = (ground arith, ground arith)

pub get_by_viewer-get_or_create :
    (c w n d v : String) (i now : ℕ) (ps : List Profile)
    → get_by_viewer d v (get_or_create c w n i now ps).1 ≡ (
        if str_eq c d && str_eq w v
        then some (get_or_create c w n i now ps).0
        else get_by_viewer d v ps)
unfolding get_or_create get_by_viewer is_profile_of
get_by_viewer-get_or_create c w n d v i now ps = ground (
  arith,
  eq_iff c d,
  eq_iff w v,
  get_by_viewer-update_profile c w d v (rename n) ps (rename-KeepsKey n),
)

get_or_create-shown :
    (c w n : String) (i now : ℕ) (ps : List Profile)
    → shown (some (get_or_create c w n i now ps).0) ≡ shown (get_by_viewer c w ps)
unfolding get_or_create
get_or_create-shown c w n i now ps = elim (Option-cases (get_by_viewer c w ps)) [
  | inl e ↦ ground (arith, e)
  | inr (p, e) ↦ ground (arith, e)
]

pub award-KeepsKey : (x l t : ℕ) → KeepsKey (award_xp x l t)
award-KeepsKey x l t p = (refl, refl)

count-KeepsKey : (t : ℕ) → KeepsKey (increment_message t)
count-KeepsKey t p = (refl, refl)

-- The XP of all awards to a viewer of a creator, and the number of messages of the viewer.
unfoldable pub xp_total : String → String → List Message → ℕ
xp_total c v [] = 0
xp_total c v (m ∷ log) =
    let rest = xp_total c v log in if is_to c v m then m.base_reward + rest else rest

unfoldable pub count_of : String → String → List Message → ℕ
count_of c v [] = 0
count_of c v (m ∷ ms) = let rest = count_of c v ms in if is_to c v m then suc rest else rest

module _ (xp_for_next_level : ℕ → ℕ) (lower : String → String) where
  -- What a viewer is shown as after a message of the viewer.
  abbrev pub shown_after : Bool → ℕ → ℕ × ℕ × ℕ → ℕ × ℕ × ℕ
  shown_after awarded reward (t, l, n) =
      if awarded
      then (t + reward, max l (calculate_level_from_xp xp_for_next_level (t + reward)), n + 1)
      else (t, l, n + 1)

  gates-shown :
      (m : Message) (p : Profile) (d v : String) (g : AntiFarmingGuard) (ps : List Profile)
      → get_by_viewer m.creator_id m.viewer_channel_id ps ≡ some (increment_message m.counted_at p)
      → let r = gates xp_for_next_level lower m (increment_message m.counted_at p) g ps in
        shown (get_by_viewer d v r.1.profiles) ≡ (
          if is_to d v m
          then shown_after r.0.awarded m.base_reward (shown (some p))
          else shown (get_by_viewer d v ps))
  unfolding gates award is_to
  gates-shown m p d v g ps e =
      let new_level = calculate_level_from_xp xp_for_next_level (p.total_xp + m.base_reward) in
      ground (
        arith,
        e,
        eq_iff m.creator_id d,
        eq_iff m.viewer_channel_id v,
        get_by_viewer-update_profile m.creator_id m.viewer_channel_id d v
            (award_xp m.base_reward new_level m.awarded_at) ps
            (award-KeepsKey m.base_reward new_level m.awarded_at),
      )

  process_chat_message-shown :
      (m : Message) (x : Manager) (d v : String)
      → let r = process_chat_message xp_for_next_level lower m x in
        shown (get_by_viewer d v r.1.profiles) ≡ (
          if is_to d v m
          then shown_after r.0.awarded m.base_reward (shown (get_by_viewer d v x.profiles))
          else shown (get_by_viewer d v x.profiles))
  unfolding process_chat_message is_to
  process_chat_message-shown m x d v =
      let c = m.creator_id in
      let w = m.viewer_channel_id in
      let found = get_or_create c w m.display_name m.new_id m.counted_at x.profiles in
      let counted = update_profile c w (increment_message m.counted_at) found.1 in
      let stored =
        get_by_viewer-update_profile c w d v (increment_message m.counted_at) found.1
          (count-KeepsKey m.counted_at) in
      let stored_here =
        get_by_viewer-update_profile c w c w (increment_message m.counted_at) found.1
          (count-KeepsKey m.counted_at) in
      let found_here =
        get_by_viewer-get_or_create c w m.display_name c w m.new_id m.counted_at x.profiles in
      ground (
        arith,
        eq_iff c d,
        eq_iff w v,
        eq_iff c c,
        eq_iff w w,
        stored,
        get_by_viewer-get_or_create c w m.display_name d v m.new_id m.counted_at x.profiles,
        found_here,
        get_or_create-shown c w m.display_name m.new_id m.counted_at x.profiles,
        gates-shown m found.0 d v x.anti_farming counted
            (ground (arith, stored_here, found_here, eq_iff c c, eq_iff w w)),
      )

  -- The viewer's XP are those of the awards, the level is that of the XP.
  abbrev pub IsShown : String → String → ℕ → List Message → List Profile → Type 0
  IsShown c v n log ps =
      shown (get_by_viewer c v ps)
      ≡ (xp_total c v log, calculate_level_from_xp xp_for_next_level (xp_total c v log), n)

  process-IsShown :
      (m : Message) (x : Manager) (c v : String) (n : ℕ) (log : List Message)
      → IsShown c v n log x.profiles
      → let r = process_chat_message xp_for_next_level lower m x in
        IsShown c v
          (if is_to c v m then suc n else n)
          (if r.0.awarded then m ∷ log else log)
          r.1.profiles
  unfolding xp_total
  process-IsShown m x c v n log h =
      let t = xp_total c v log in
      ground (
        arith,
        process_chat_message-shown m x c v,
        calculate_level_from_xp_monotone xp_for_next_level t (t + m.base_reward) (ground arith),
      )

  run-IsShown :
      (ms : List Message) (x : Manager) (c v : String) (n : ℕ) (log : List Message)
      → IsShown c v n log x.profiles
      → let (x', log') = run xp_for_next_level lower ms (x, log) in
        IsShown c v (n + count_of c v ms) log' x'.profiles
  unfolding run count_of
  run-IsShown [] x c v n log h = ground arith
  run-IsShown (m ∷ ms) x c v n log h =
      let r = process_chat_message xp_for_next_level lower m x in
      ground (
        arith,
        run-IsShown ms r.1 c v (if is_to c v m then suc n else n)
            (if r.0.awarded then m ∷ log else log) (process-IsShown m x c v n log h),
      )

  -- After any messages from an empty table, the XP that a viewer's profile shows are those of
  -- the awards to the viewer, the level is that of the XP, and the count is that of the
  -- viewer's messages.
  pub run-shown :
      (g : AntiFarmingGuard) (ms : List Message) (c v : String)
      → let (x, log) =
          run xp_for_next_level lower ms (record { anti_farming = g; profiles = [] }, []) in
        shown (get_by_viewer c v x.profiles) ≡ (
          xp_total c v log,
          calculate_level_from_xp xp_for_next_level (xp_total c v log),
          count_of c v ms,
        )
  unfolding xp_total get_by_viewer calculate_level_from_xp
  run-shown g ms c v =
      ground (arith, run-IsShown ms (record { anti_farming = g; profiles = [] }) c v 0 [] refl)
