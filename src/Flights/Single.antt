-- ===== src/Flights/Single.antt =====
-- The calls of `execute` (app/ai/coalescer.py), in any interleaving: for a key one action is under
-- way at a time.
use ai_modrator.Common.{
  ℕ, suc, ◌≤◌, String, ◌≡◌, refl, true, false, Option, none, some, List, [], ◌∷◌, str_eq, eq_iff,
  if◌then◌else◌, arith,
}
use ai_modrator.Common.Dict.{lookup, lookup-insert, lookup-remove}
use ai_modrator.Flights.Coalescer.{
  Coalescer, new_coalescer, enter, settle, drop_leader, leave, leads,
}

module _ (A : Type 0) where
  -- One step of some call. Only a leader settles, and it leaves once its future is settled.
  pub data Step : Coalescer A → Coalescer A → Type 0 where
    enters : (key : String) (s : Coalescer A) → Step s (enter A key s).1
    settles :
        (key : String) (future : ℕ) (outcome : A) (s : Coalescer A)
        → leads A key future s.leaders ≡ true
        → Step s (settle A future outcome s)
    leaves :
        (key : String) (future : ℕ) (outcome : A) (s : Coalescer A)
        → leads A key future s.leaders ≡ true
        → s.outcomes future ≡ some outcome
        → Step s (leave A key future s)

  pub data Reachable : Coalescer A → Type 0 where
    start : Reachable (new_coalescer A)
    then_step : {s t : Coalescer A} → Reachable s → Step s t → Reachable t

  -- How many actions are under way for a key.
  unfoldable pub under_way : String → List (String × ℕ) → ℕ
  under_way key [] = 0
  under_way key ((k, f) ∷ ls) =
      let rest = under_way key ls in if str_eq k key then suc rest else rest

  abbrev pub flying : Option ℕ → ℕ
  flying none = 0
  flying (some f) = 1

  -- For each key one action is under way if the key is in flight, and none if not; and every leader's
  -- future is the one in flight for its key.
  abbrev pub IsSingle : Coalescer A → Type 0
  IsSingle s =
      ((key : String) → under_way key s.leaders ≡ flying (lookup key s.in_flight))
      × ((key : String) (f : ℕ) → leads A key f s.leaders ≡ true → lookup key s.in_flight ≡ some f)

  under_way-drop_leader :
      (key k : String) (f : ℕ) (ls : List (String × ℕ))
      → leads A key f ls ≡ true
      → under_way k ls ≡ (
          if str_eq key k
          then suc (under_way k (drop_leader A key f ls))
          else under_way k (drop_leader A key f ls))
  unfolding under_way drop_leader leads
  under_way-drop_leader key k f [] h = ground arith
  under_way-drop_leader key k f ((j, g) ∷ ls) h =
      ground (arith, h, eq_iff j key, eq_iff j k, eq_iff key k, under_way-drop_leader key k f ls)

  leads-drop_leader :
      (key k : String) (f g : ℕ) (ls : List (String × ℕ))
      → leads A k g (drop_leader A key f ls) ≡ true
      → leads A k g ls ≡ true
  unfolding drop_leader leads
  leads-drop_leader key k f g [] h = ground (arith, h)
  leads-drop_leader key k f g ((j, e) ∷ ls) h = ground (arith, h, leads-drop_leader key k f g ls)

  leads-under_way :
      (k : String) (g : ℕ) (ls : List (String × ℕ)) → leads A k g ls ≡ true → 1 ≤ under_way k ls
  unfolding under_way leads
  leads-under_way k g [] h = ground arith
  leads-under_way k g ((j, e) ∷ ls) h = ground (arith, h, leads-under_way k g ls)

  step-IsSingle : {s t : Coalescer A} → Step s t → IsSingle s → IsSingle t
  unfolding enter settle leave under_way leads
  step-IsSingle (enters key s) (count, own) = (
    λ k.
        ground (arith, count k, count key, eq_iff key k, lookup-insert key k s.created s.in_flight),
    λ k f l. ground (
      arith,
      l,
      own k f,
      leads-under_way k f s.leaders,
      count k,
      eq_iff key k,
      lookup-insert key k s.created s.in_flight,
    ),
  )
  step-IsSingle (settles key future outcome s h) inv = inv
  step-IsSingle (leaves key future outcome s h done) (count, own) = (
    λ k. ground (
      arith,
      count k,
      count key,
      eq_iff key k,
      lookup-remove key k s.in_flight,
      under_way-drop_leader key k future s.leaders h,
      own key future h,
    ),
    λ k g l. ground (
      arith,
      own k g (leads-drop_leader key k future g s.leaders l),
      own key future h,
      leads-under_way k g (drop_leader A key future s.leaders) l,
      count k,
      eq_iff key k,
      lookup-remove key k s.in_flight,
      under_way-drop_leader key k future s.leaders h,
    ),
  )

  Reachable-IsSingle : {s : Coalescer A} → Reachable s → IsSingle s
  unfolding under_way leads lookup
  Reachable-IsSingle start = (λ key. refl, λ key f l. ground (arith, l))
  Reachable-IsSingle (then_step r e) = step-IsSingle e (Reachable-IsSingle r)

  flying_le : (o : Option ℕ) → flying o ≤ 1
  flying_le none = ground arith
  flying_le (some f) = ground arith

  -- In every interleaving of the calls from a new coalescer, where a leader leaves only after
  -- its future is settled, at most one action for a key is under way, and while one is, a call
  -- that enters with the key begins no action and waits for the future of the one that leads.
  pub single_flight :
      (s : Coalescer A) (key : String)
      → Reachable s
      → (under_way key s.leaders ≤ 1)
        × ((f : ℕ) → leads A key f s.leaders ≡ true → (enter A key s).0 ≡ (false, f))
  unfolding enter
  single_flight s key r =
      let (count, own) = Reachable-IsSingle r in
      (
        ground (arith, count key, flying_le (lookup key s.in_flight)),
        λ f l. rw (own key f l, enter) refl,
      )
