-- ===== src/Quota/Registry.antt =====
-- `YouTubeQuotaCostRegistry` of app/youtube/quota_registry.py: what a method costs, and telemetry.
use ai_modrator.Common.{
  ℕ, ◌+◌, String, ◌≡◌, Bool, not, Option, none, some, [], ◌∷◌, if◌then◌else◌, str_eq, arith,
}
use ai_modrator.Common.Dict.{Dict, lookup, insert, lookup-insert}
use ai_modrator.Common.Int.{ℤ, pos, ◌+ℤ◌, int_laws}

pub record MethodQuotaStats : Type 0 where
  pub method : String
  pub cost_per_call : ℤ
  pub total_calls : ℕ
  pub total_quota_consumed : ℤ
  pub failed_calls : ℕ

pub record Registry : Type 0 where
  pub method_costs : Dict ℤ
  pub stats : Dict MethodQuotaStats

abbrev pub default_method_costs : Dict ℤ
default_method_costs =
    ("videos.list", pos 1)
    ∷ ("channels.list", pos 1)
    ∷ ("liveBroadcasts.list", pos 1)
    ∷ ("liveChatMessages.list", pos 1)
    ∷ ("liveChatMessages.streamList", pos 1)
    ∷ ("liveChatMessages.insert", pos 50)
    ∷ ("liveChatModerators.list", pos 1)
    ∷ ("liveChatBans.insert", pos 50)
    ∷ ("search.list", pos 100)
    ∷ ("default", pos 1)
    ∷ []

-- `override` is the whole number that the environment gives for a method, if it gives one.
unfoldable pub load_overrides : (String → Option ℤ) → Dict ℤ → Dict ℤ → Dict ℤ
load_overrides override [] costs = costs
load_overrides override ((method, default_cost) ∷ rest) costs =
    load_overrides override rest
      (elim (override method) [ none ↦ costs | some cost ↦ insert method cost costs ])

unfoldable pub new_registry : (String → Option ℤ) → Registry
new_registry override = record {
  method_costs = load_overrides override default_method_costs default_method_costs;
  stats = [];
}

abbrev pub or_else {ℓ} : {A : Type ℓ} → Option A → A → A
or_else none d = d
or_else (some a) d = a

unfoldable pub get_cost : String → Registry → ℤ
get_cost method r =
    or_else (lookup method r.method_costs) (or_else (lookup "default" r.method_costs) (pos 1))

unfoldable pub set_cost : String → ℤ → Registry → Registry
set_cost method cost r = record r { method_costs = insert method cost r.method_costs }

abbrev pub fresh_stats : String → ℤ → MethodQuotaStats
fresh_stats method cost = record {
  method = method;
  cost_per_call = cost;
  total_calls = 0;
  total_quota_consumed = pos 0;
  failed_calls = 0;
}

abbrev pub add_call : ℤ → Bool → MethodQuotaStats → MethodQuotaStats
add_call cost success stat = record stat {
  total_calls = stat.total_calls + 1;
  total_quota_consumed = stat.total_quota_consumed +ℤ cost;
  failed_calls = if not success then stat.failed_calls + 1 else stat.failed_calls;
}

unfoldable pub record_usage : String → ℤ → Bool → Registry → Registry
record_usage method cost success r =
    let stat = or_else (lookup method r.stats) (fresh_stats method cost) in
    record r { stats = insert method (add_call cost success stat) r.stats }

unfoldable pub reset_stats : Registry → Registry
reset_stats r = record r { stats = [] }

-- After `set_cost` the method has the given cost, every other method with a cost has that cost as
-- before, and one without has the cost of "default", or 1 if there is none.
pub get_cost-set_cost :
    (m n : String) (cost : ℤ) (r : Registry)
    → get_cost n (set_cost m cost r) ≡ (
        if str_eq m n
        then cost
        else or_else (lookup n r.method_costs) (
            if str_eq m "default" then cost else or_else (lookup "default" r.method_costs) (pos 1)))
unfolding get_cost set_cost
get_cost-set_cost m n cost r =
    ground
      (arith, lookup-insert m n cost r.method_costs, lookup-insert m "default" cost r.method_costs)

-- What all methods have consumed together.
unfoldable pub consumed_total : Dict MethodQuotaStats → ℤ
consumed_total [] = pos 0
consumed_total ((_, stat) ∷ rest) = stat.total_quota_consumed +ℤ consumed_total rest

abbrev pub consumed_of : Option MethodQuotaStats → ℤ
consumed_of none = pos 0
consumed_of (some stat) = stat.total_quota_consumed

consumed_total-insert :
    (m : String) (stat : MethodQuotaStats) (d : Dict MethodQuotaStats)
    → consumed_total (insert m stat d) +ℤ consumed_of (lookup m d)
      ≡ consumed_total d +ℤ stat.total_quota_consumed
unfolding consumed_total insert lookup
consumed_total-insert m stat [] = grind int_laws
consumed_total-insert m stat ((j, x) ∷ d) = grind (int_laws, consumed_total-insert m stat d)

-- A recorded use adds its cost to the total.
pub consumed_total-record_usage :
    (m : String) (cost : ℤ) (success : Bool) (r : Registry)
    → consumed_total (record_usage m cost success r).stats ≡ consumed_total r.stats +ℤ cost
unfolding record_usage
consumed_total-record_usage m cost success r = grind (
  int_laws,
  consumed_total-insert m (add_call cost success (or_else (lookup m r.stats) (fresh_stats m cost)))
      r.stats,
)
