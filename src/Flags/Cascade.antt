-- ===== src/Flags/Cascade.antt =====
-- What a call of `set_flag` (app/services/feature_flags.py) changes of the answers of `is_enabled`.
use ai_modrator.Common.{
  String, ◌≡◌, refl, ap, ◌⊎◌, inl, inr, Bool, true, false, ◌&&◌, Option, none, some, List, [], ◌∷◌,
  str_eq, eq_iff, arith, Bool-cases,
}
use ai_modrator.Flags.Service.{
  FeatureFlag, Flags, same, or_default, first_enabled, is_exactly, select_flags, write_flag,
  append_flag, has_key, of_stream, of_creator, of_environment, cascade, is_enabled, set_flag,
  new_flag,
}

-- What a write or a new row with the exact key changes for a test of rows.
module _ (key : String) (c s : Option String) (env : String) (b : Bool) where
  abbrev pub exact : FeatureFlag → Bool
  exact = is_exactly key c s env

  -- A test of the columns that a write leaves.
  abbrev pub Reads : (FeatureFlag → Bool) → Type 0
  Reads p = (f : FeatureFlag) → p (record f { enabled = b }) ≡ p f

  -- The first answer of a test that no row with the exact key passes.
  first_enabled-write_flag :
      (k p : FeatureFlag → Bool) (fs : List FeatureFlag)
      → Reads k
      → Reads p
      → ((f : FeatureFlag) → exact f ≡ true → (k f && p f) ≡ false)
      → first_enabled p (select_flags k (write_flag exact b fs))
        ≡ first_enabled p (select_flags k fs)
  unfolding first_enabled select_flags write_flag
  first_enabled-write_flag k p [] rk rp apart = refl
  first_enabled-write_flag k p (f ∷ fs) rk rp apart =
      ground (arith, rk f, rp f, apart f, first_enabled-write_flag k p fs rk rp apart)

  first_enabled-append_flag :
      (k p : FeatureFlag → Bool) (fs : List FeatureFlag) (g : FeatureFlag)
      → (k g && p g) ≡ false
      → first_enabled p (select_flags k (append_flag fs g)) ≡ first_enabled p (select_flags k fs)
  unfolding first_enabled select_flags append_flag
  first_enabled-append_flag k p [] g apart = ground arith
  first_enabled-append_flag k p (f ∷ fs) g apart =
      ground (arith, first_enabled-append_flag k p fs g apart)

  -- A test that exactly those rows pass has the written answer.
  first_enabled-written :
      (k p : FeatureFlag → Bool) (fs : List FeatureFlag) (g : FeatureFlag) (gs : List FeatureFlag)
      → Reads k
      → Reads p
      → ((f : FeatureFlag) → (k f && p f) ≡ exact f)
      → select_flags exact fs ≡ g ∷ gs
      → first_enabled p (select_flags k (write_flag exact b fs)) ≡ some b
  unfolding first_enabled select_flags write_flag
  first_enabled-written k p [] g gs rk rp both e = cc
  first_enabled-written k p (f ∷ fs) g gs rk rp both e = elim (Bool-cases (exact f)) [
    | inl h ↦ ground (arith, h, rk f, rp f, both f)
    | inr h ↦
        let rest = first_enabled-written k p fs g gs rk rp both (ground (arith, h, e)) in
        ground (arith, h, rk f, rp f, both f, rest)
  ]

  first_enabled-appended :
      (k p : FeatureFlag → Bool) (fs : List FeatureFlag) (g : FeatureFlag)
      → ((f : FeatureFlag) → (k f && p f) ≡ exact f)
      → select_flags exact fs ≡ []
      → exact g ≡ true
      → g.enabled ≡ b
      → first_enabled p (select_flags k (append_flag fs g)) ≡ some b
  unfolding first_enabled select_flags append_flag
  first_enabled-appended k p [] g both e h l = ground (arith, both g)
  first_enabled-appended k p (f ∷ fs) g both e h l = elim (Bool-cases (exact f)) [
    | inl q ↦ ground (arith, q, e)
    | inr q ↦
        ground (arith, q, both f, first_enabled-appended k p fs g both (ground (arith, q, e)) h l)
  ]

rows-cases :
    (fs : List FeatureFlag)
    → (fs ≡ [])
      ⊎ (((f : FeatureFlag) × (fs ≡ f ∷ []))
          ⊎ ((f : FeatureFlag) × (g : FeatureFlag) × (gs : List FeatureFlag) × (fs ≡ f ∷ g ∷ gs)))
rows-cases [] = inl refl
rows-cases (f ∷ []) = inr (inl (f, refl))
rows-cases (f ∷ g ∷ gs) = inr (inr (f, g, gs, refl))

same_sound : (o u : Option String) → same o u ≡ true → o ≡ u
same_sound none none h = refl
same_sound none (some t) h = cc
same_sound (some s) none h = cc
same_sound (some s) (some t) h = ground (arith, h, eq_iff s t)

same_refl : (o : Option String) → same o o ≡ true
same_refl none = refl
same_refl (some s) = ground (arith, eq_iff s s)

module _ (upper : String → String) (app_env : String) where
  is_enabled-cascade :
      (key : String) (c s : Option String) (d : Option Bool) (flags : List FeatureFlag)
      → is_enabled upper app_env key c s d flags
        ≡ cascade upper app_env
            (select_flags (has_key upper app_env key) flags)
            c
            s
            (or_default d (upper key))
  unfolding is_enabled cascade first_enabled
  is_enabled-cascade key c s d flags =
      elim (select_flags (has_key upper app_env key) flags)
        as (λ rows.
          elim rows [
            | [] ↦ or_default d (upper key)
            | f ∷ fs ↦ cascade upper app_env (f ∷ fs) c s (or_default d (upper key))
          ]
          ≡ cascade upper app_env rows c s (or_default d (upper key))) [
            | [] ↦ ground arith
            | f ∷ fs ↦ refl
          ]

  -- A call that succeeds has written the one exact row, or added it.
  set_flag-cases :
      (key actor env : String) (b : Bool) (c s reason : Option String) (x y : Flags)
      → set_flag upper app_env key b c s env actor reason x ≡ some y
      → let found = select_flags (is_exactly (upper key) c s env) x.flags in
        ((found ≡ [])
          × (y.flags ≡ append_flag x.flags (new_flag upper app_env key b c s env reason)))
        ⊎ ((f : FeatureFlag) × ((found ≡ f ∷ [])
              × (y.flags ≡ write_flag (is_exactly (upper key) c s env) b x.flags)))
  unfolding set_flag
  set_flag-cases key actor env b c s reason x y e =
      elim (rows-cases (select_flags (is_exactly (upper key) c s env) x.flags)) [
        | inl h ↦ inl (h, ground (arith, h, e))
        | inr (inl (f, h)) ↦ inr (f, (h, ground (arith, h, e)))
        | inr (inr (f, g, fs, h)) ↦ ground (arith, h, e)
      ]

  -- After a successful `set_flag` for the current environment, without a creator and a stream,
  -- `is_enabled` without a creator and a stream answers what was set.
  pub set_flag-is_enabled :
      (key actor : String) (b : Bool) (reason : Option String) (d : Option Bool) (x y : Flags)
      → set_flag upper app_env key b none none app_env actor reason x ≡ some y
      → is_enabled upper app_env key none none d y.flags ≡ b
  unfolding cascade is_exactly
  set_flag-is_enabled key actor b reason d x y e =
      let k = has_key upper app_env key in
      let p = of_environment upper app_env app_env in
      let g = new_flag upper app_env key b none none app_env reason in
      let set : first_enabled p (select_flags k y.flags) ≡ some b =
        elim (set_flag-cases key actor app_env b none none reason x y e) [
          | inl (h, now) ↦ rw now (
              first_enabled-appended (upper key) none none app_env b k p x.flags g
                (λ f. ground arith) h
                (ground (arith, eq_iff (upper key) (upper key), eq_iff app_env app_env)) refl)
          | inr (f, (h, now)) ↦ rw now (
              first_enabled-written (upper key) none none app_env b k p x.flags f [] (λ f. refl)
                (λ f. refl) (λ f. ground arith) h)
        ] in
      ground (arith, is_enabled-cascade key none none d y.flags, set)

  none_of_stream :
      (key other t : String) (s' : Option String) (f : FeatureFlag)
      → (str_eq (upper key) (upper other) && same (some t) s') ≡ false
      → str_eq f.key (upper key) ≡ true
      → same f.stream_session_id (some t) ≡ true
      → (has_key upper app_env other f && of_stream upper app_env s' f) ≡ false
  none_of_stream key other t s' f apart h l =
      let stream = same_sound f.stream_session_id (some t) l in
      ground (arith, apart, h, eq_iff f.key (upper key), ap (λ o. same o s') stream)

  has_stream :
      (t : String) (f : FeatureFlag)
      → same f.stream_session_id (some t) ≡ true
      → same f.stream_session_id none ≡ false
  has_stream t f l = rw (same_sound f.stream_session_id (some t) l) refl

  -- A successful `set_flag` for a stream leaves every answer of `is_enabled` for another key or
  -- another stream as it was.
  pub set_flag-isolated :
      (key other actor env t : String) (b : Bool) (reason c c' s' : Option String) (d : Option Bool)
      (x y : Flags)
      → set_flag upper app_env key b c (some t) env actor reason x ≡ some y
      → (str_eq (upper key) (upper other) && same (some t) s') ≡ false
      → is_enabled upper app_env other c' s' d y.flags
        ≡ is_enabled upper app_env other c' s' d x.flags
  unfolding cascade is_exactly
  set_flag-isolated key other actor env t b reason c c' s' d x y e apart =
      let k = has_key upper app_env other in
      let g = new_flag upper app_env key b c (some t) env reason in
      let here : is_exactly (upper key) c (some t) env g ≡ true =
        ground (arith, same_refl c, eq_iff (upper key) (upper key), eq_iff t t, eq_iff env env) in
      let same_answer : (p : FeatureFlag → Bool)
          → Reads (upper key) c (some t) env b p
          → ((f : FeatureFlag)
              → is_exactly (upper key) c (some t) env f ≡ true
              → (k f && p f) ≡ false)
          → first_enabled p (select_flags k y.flags) ≡ first_enabled p (select_flags k x.flags) =
        λ p reads none_of. elim (set_flag-cases key actor env b c (some t) reason x y e) [
          | inl (h, now) ↦ rw now (
              first_enabled-append_flag (upper key) c (some t) env b k p x.flags g (none_of g here))
          | inr (f, (h, now)) ↦ rw now (
              first_enabled-write_flag (upper key) c (some t) env b k p x.flags (λ f. refl) reads
                none_of)
        ] in
      let stream =
        same_answer (of_stream upper app_env s') (λ f. refl)
          (λ f h. none_of_stream key other t s' f apart (ground (arith, h)) (ground (arith, h))) in
      let creator =
        same_answer (of_creator upper app_env c') (λ f. refl)
          (λ f h. ground (arith, h, has_stream t f (ground (arith, h)))) in
      let environment =
        same_answer (of_environment upper app_env app_env) (λ f. refl)
          (λ f h. ground (arith, h, has_stream t f (ground (arith, h)))) in
      let everywhere =
        same_answer (of_environment upper app_env "all") (λ f. refl)
          (λ f h. ground (arith, h, has_stream t f (ground (arith, h)))) in
      ground (
        arith,
        is_enabled-cascade other c' s' d x.flags,
        is_enabled-cascade other c' s' d y.flags,
        stream,
        creator,
        environment,
        everywhere,
      )
