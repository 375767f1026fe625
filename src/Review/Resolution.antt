-- ===== src/Review/Resolution.antt =====
-- A ticket of app/moderation/hitl/service.py is resolved once, and only an approval acts.
use ai_modrator.Common.{
  ℕ, ◌≤◌, String, ◌≡◌, Bool, true, false, Option, none, some, List, [], ◌∷◌, eq_iff, arith,
  Option-cases, inl, inr,
}
use ai_modrator.Common.Text.{or_text}
use ai_modrator.Review.Tickets.{
  ReviewStatus, approved, denied, expired, ModerationReview, is_pending, is_expired, get_review,
  resolved_as, resolve_review, expire_row, expire_rows, expire_stale_reviews, add_row,
}
use ai_modrator.Review.Service.{
  Desk, Answer, approved_as, Subject, create_review, find_review_by_prefix, approve, approve_review,
  deny_review,
}

module _ (i : String) (r : ModerationReview) (done : is_pending r ≡ false) where
  resolve_review-keeps :
      (j : String) (status : ReviewStatus) (a b : Option String) (now : ℕ)
      (rs : List ModerationReview)
      → get_review i rs ≡ some r
      → get_review i (resolve_review j status a b now rs) ≡ some r
  unfolding get_review resolve_review resolved_as
  resolve_review-keeps j status a b now [] h = h
  resolve_review-keeps j status a b now (x ∷ rs) h =
      ground (arith, eq_iff x.id i, eq_iff x.id j, resolve_review-keeps j status a b now rs)

  expire_rows-keeps :
      (now : ℕ) (rs : List ModerationReview)
      → get_review i rs ≡ some r
      → get_review i (expire_rows now rs) ≡ some r
  unfolding get_review expire_rows expire_row
  expire_rows-keeps now [] h = h
  expire_rows-keeps now (x ∷ rs) h = ground (arith, expire_rows-keeps now rs)

  add_row-keeps :
      (x : ModerationReview) (rs : List ModerationReview)
      → get_review i rs ≡ some r
      → get_review i (add_row x rs) ≡ some r
  unfolding get_review add_row
  add_row-keeps x [] h = ground arith
  add_row-keeps x (y ∷ rs) h = ground (arith, add_row-keeps x rs)

-- What happens to the tickets, one after the other.
pub data Event : Type 0 where
  created : Subject → ℕ → ℕ → Event
  approval : String → String → Option String → Option String → ℕ → Event
  denial : String → String → Option String → ℕ → Event
  expiry : ℕ → Event

abbrev pub is_approval : Answer → Bool
is_approval (approved_as final) = true
is_approval _ = false

module _ (lower upper : String → String) where
  unfoldable pub step : Event → Desk → Desk
  step (created s ttl now) desk = (create_review s ttl now desk).1
  step (approval prefix m o n now) desk = (approve_review lower upper prefix m o n now desk).1
  step (denial prefix m n now) desk = (deny_review lower upper prefix m n now desk).1
  step (expiry now) desk = record desk { reviews = (expire_stale_reviews now desk.reviews).1 }

  unfoldable pub run : List Event → Desk → Desk
  run [] desk = desk
  run (e ∷ es) desk = run es (step e desk)

  step-keeps :
      (e : Event) (desk : Desk) (i : String) (r : ModerationReview)
      → is_pending r ≡ false
      → get_review i desk.reviews ≡ some r
      → get_review i (step e desk).reviews ≡ some r
  unfolding step create_review approve_review approve deny_review expire_stale_reviews
  step-keeps (created s ttl now) desk i r done h = add_row-keeps i r done _ desk.reviews h
  step-keeps (approval prefix m o n now) desk i r done h =
      elim (Option-cases (find_review_by_prefix lower upper prefix desk.reviews)) [
        | inl e ↦ ground (arith, e)
        | inr (x, e) ↦ ground (
          arith,
          e,
          resolve_review-keeps i r done x.id expired none (some "SYSTEM_TTL_EXPIRATION") now
              desk.reviews h,
          resolve_review-keeps i r done x.id approved (some (or_text o x.recommended_action))
              (some m) now desk.reviews h,
        )
      ]
  step-keeps (denial prefix m n now) desk i r done h =
      elim (Option-cases (find_review_by_prefix lower upper prefix desk.reviews)) [
        | inl e ↦ ground (arith, e)
        | inr (x, e) ↦ ground (
          arith,
          e,
          resolve_review-keeps i r done x.id denied (some "ALLOW") (some m) now desk.reviews h,
        )
      ]
  step-keeps (expiry now) desk i r done h = expire_rows-keeps i r done now desk.reviews h

  -- A ticket that is not pending stays exactly as it is through any creations, approvals,
  -- denials and expiries.
  pub run-get_review :
      (es : List Event) (desk : Desk) (i : String) (r : ModerationReview)
      → is_pending r ≡ false
      → get_review i desk.reviews ≡ some r
      → get_review i (run es desk).reviews ≡ some r
  unfolding run
  run-get_review [] desk i r done h = h
  run-get_review (e ∷ es) desk i r done h =
      run-get_review es (step e desk) i r done (step-keeps e desk i r done h)

  module _ (prefix moderator : String) (override notes : Option String) (now : ℕ)
      (desk : Desk) where
    abbrev approval_of : Answer × Desk
    approval_of = approve_review lower upper prefix moderator override notes now desk

    -- If `approve_review` answers anything else than that it approved, no action is taken and
    -- no feedback recorded.
    pub approve_review_refused :
        is_approval approval_of.0 ≡ false
        → (approval_of.1.actions ≡ desk.actions) × (approval_of.1.feedback ≡ desk.feedback)
    unfolding approve_review approve
    approve_review_refused h =
        elim (Option-cases (find_review_by_prefix lower upper prefix desk.reviews)) [
          | inl e ↦ ground (arith, e)
          | inr (x, e) ↦ ground (arith, e)
        ]

    -- If `approve_review` answers that it approved, the ticket that the prefix found was
    -- pending and its time was not over.
    pub approve_review_in_time :
        is_approval approval_of.0 ≡ true
        → (r : ModerationReview) × (find_review_by_prefix lower upper prefix desk.reviews ≡ some r)
          × (is_pending r ≡ true)
          × (now ≤ r.expires_at)
    unfolding approve_review is_expired
    approve_review_in_time h =
        elim (Option-cases (find_review_by_prefix lower upper prefix desk.reviews)) [
          | inl e ↦ ground (arith, e)
          | inr (x, e) ↦ (x, e, ground (arith, e), ground (arith, e))
        ]

  pub deny_review-actions :
      (prefix moderator : String) (notes : Option String) (now : ℕ) (desk : Desk)
      → (deny_review lower upper prefix moderator notes now desk).1.actions ≡ desk.actions
  unfolding deny_review
  deny_review-actions prefix moderator notes now desk = ground arith
