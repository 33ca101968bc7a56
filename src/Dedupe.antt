-- ===== src/Dedupe.antt =====
-- crates/oanda/src/dedupe.rs: claiming each published transaction once. The mutex makes every claim
-- one step; the head of `order` is the front of the deque, and the hash set is a list of its members.
pub mod Window
use trading_gateway.Exit.Index.{member}
use trading_gateway.Base.{
  ℕ, ◌+◌, ◌-◌, ◌*◌, ◌≤◌, ◌<◌, String, ◌⧺◌, Bool, true, false, ◌&&◌, ◌||◌, not, List, [], ◌∷◌, ◌++◌,
  any, retain, length, ltb, ◌==◌, option_eq, string_eq, nat_eq, if◌then◌else◌, ◌≡◌, ◌↔◌, ◌⊎◌,
}
use trading_gateway.Base.Map.{remove}
use trading_gateway.Exit.Types.{leg_eq}
use trading_gateway.Exit.Index.{member}

pub record PublishedTransactions : Type 0 where
  pub capacity : ℕ
  pub seen : List String
  pub order : List String

-- `CAPACITY`
abbrev pub default_capacity : ℕ
default_capacity = 4096

unfoldable pub with_capacity : ℕ → PublishedTransactions
with_capacity capacity = record { capacity = capacity; seen = []; order = [] }

-- `HashSet::remove`
unfoldable pub forget : String → List String → List String
forget id ids = retain (λ x. not (x == id)) ids

-- The oldest id makes room where there are too many.
abbrev pub evict : List String → PublishedTransactions → PublishedTransactions
evict [] p = p
evict (evicted ∷ order) p =
    if ltb p.capacity (length p.order)
    then record p { order = order; seen = forget evicted p.seen }
    else p

-- The turn of one id in the loop of `try_claim_all`.
unfoldable pub claim_one : String → PublishedTransactions → PublishedTransactions
unfolding forget
claim_one id p =
    let grown = record p { seen = p.seen ++ id ∷ []; order = p.order ++ id ∷ [] } in
    if member id p.seen then p else evict grown.order grown

unfoldable pub claim_each : List String → PublishedTransactions → PublishedTransactions
unfolding claim_one
claim_each [] p = p
claim_each (id ∷ ids) p = claim_each ids (claim_one id p)

unfoldable pub try_claim_all : List String → PublishedTransactions → Bool × PublishedTransactions
unfolding claim_each
try_claim_all ids p =
    if any (λ id. member id p.seen) ids then (false, p) else (true, claim_each ids p)

unfoldable pub try_claim : String → PublishedTransactions → Bool × PublishedTransactions
unfolding try_claim_all
try_claim id p = try_claim_all (id ∷ []) p
