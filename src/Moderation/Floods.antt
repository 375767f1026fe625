-- ===== src/Moderation/Floods.antt =====
-- What a message that passes the spam checks of app/moderation/spam.py leaves in the history.
use Prim.Native.Char.{Char}
use ai_modrator.Common.{
  ℕ, ◌+◌, ◌<◌, ◌≤◌, String, ◌≡◌, refl, Bool, false, Option, none, List, [], ◌∷◌, str_eq, eq_iff,
  ltb, if◌then◌else◌, arith, All,
}
use ai_modrator.Common.Dict.{Dict, lookup, lookup-insert}
use ai_modrator.Common.Strip.{strip}
use ai_modrator.Moderation.Models.{ModerationDecision}
use ai_modrator.Moderation.Spam.{
  Entry, count_recent, prune, count_duplicates, append, entries_of, judge, evaluate_spam_signals,
}

-- An entry is not older than 20 seconds.
abbrev pub IsRecent : ℕ → Entry → Type 0
IsRecent now e = now < e.at + 20000000

prune-IsRecent : (now : ℕ) (es : List Entry) → All (IsRecent now) (prune now es)
unfolding prune
prune-IsRecent now [] = ground arith
prune-IsRecent now (e ∷ es) = ground (arith, prune-IsRecent now es)

append-IsRecent :
    (now : ℕ) (es : List Entry) (e : Entry)
    → IsRecent now e
    → All (IsRecent now) es
    → All (IsRecent now) (append es e)
unfolding append
append-IsRecent now [] e h all = ground arith
append-IsRecent now (x ∷ es) e h all = ground (arith, append-IsRecent now es e h)

-- Pruning takes nothing from a window that is not longer.
pub count_recent-prune :
    (age now : ℕ) (es : List Entry)
    → age ≤ 20000000
    → count_recent age now (prune now es) ≡ count_recent age now es
unfolding count_recent prune
count_recent-prune age now [] h = refl
count_recent-prune age now (e ∷ es) h = ground (arith, count_recent-prune age now es h)

count_recent-append :
    (age now : ℕ) (es : List Entry) (e : Entry)
    → count_recent age now (append es e)
      ≡ count_recent age now es + (if ltb now (e.at + age) then 1 else 0)
unfolding count_recent append
count_recent-append age now [] e = ground arith
count_recent-append age now (x ∷ es) e = ground (arith, count_recent-append age now es e)

module _ (is_alpha is_upper : Char → Bool) (lower : String → String) (key text : String) (now : ℕ)
    (history : Dict (List Entry)) where
  abbrev verdict : Option ModerationDecision × Dict (List Entry)
  verdict = evaluate_spam_signals is_alpha is_upper lower key text now history

  abbrev kept : List Entry
  kept = entries_of (lookup key verdict.1)

  -- If a message passes the spam checks, fewer than 5 of the user's recorded messages were
  -- younger than 5 seconds, the message is counted with them, at most 3 of the kept messages
  -- have its text, and all kept messages are younger than 20 seconds.
  pub evaluate_spam_signals_passed :
      verdict.0 ≡ none
      → (count_recent 5000000 now (entries_of (lookup key history)) < 5)
        × (count_recent 5000000 now kept
            ≡ count_recent 5000000 now (entries_of (lookup key history)) + 1)
        × (count_duplicates (lower (strip text)) kept ≤ 3)
        × All (IsRecent now) kept
  unfolding evaluate_spam_signals judge
  evaluate_spam_signals_passed h =
      let old = entries_of (lookup key history) in
      let e : Entry = record { text = lower (strip text); at = now } in
      ground (
        arith,
        lookup-insert key key (append (prune now old) e) history,
        eq_iff key key,
        count_recent-append 5000000 now (prune now old) e,
        count_recent-prune 5000000 now old,
        prune-IsRecent now old,
        append-IsRecent now (prune now old) e,
      )

  -- The spam check under one key leaves the history of every other key as it was.
  pub evaluate_spam_signals_isolated :
      (other : String) → str_eq key other ≡ false → lookup other verdict.1 ≡ lookup other history
  unfolding evaluate_spam_signals
  evaluate_spam_signals_isolated other h =
      let old = entries_of (lookup key history) in
      let e : Entry = record { text = lower (strip text); at = now } in
      ground (arith, lookup-insert key other (append (prune now old) e) history)
