-- ===== src/CommandCache.antt =====
-- agent_api.rs: `CommandCache`, the bounded cache that makes commands idempotent. The `HashMap` is
-- an association list; the `VecDeque` holds the identifiers in the order in which they were stored.
pub mod Recent
pub mod Retention
use michoi.Common.{
  ℕ, Bool, true, false, List, [], ◌∷◌, ◌++◌, Option, none, some, leb, if◌then◌else◌,
}
use michoi.Common.{length, lookup, insert, remove, str_key}
use michoi.Common.Bytes.{Str}
use michoi.Api.{CommandResult}

pub record CommandCache : Type 0 where
  pub results : List (Str × CommandResult)
  pub order : List Str
  pub capacity : ℕ

unfoldable pub new : ℕ → CommandCache
new capacity = record { results = []; order = []; capacity = capacity }

abbrev pub as_replayed : Option CommandResult → Option CommandResult
as_replayed none = none
as_replayed (some r) = some (record r { replayed = true })

unfoldable pub get : CommandCache → Str → Option CommandResult
get c command_id = as_replayed (lookup command_id c.results)

-- `if let Some(oldest) = order.pop_front() { results.remove(&oldest) }`
abbrev evict_oldest : List (Str × CommandResult) → List Str → List (Str × CommandResult) × List Str
evict_oldest results [] = (results, [])
evict_oldest results (oldest ∷ rest) = (remove oldest results, rest)

-- What `store` makes room in before it inserts.
abbrev pub make_room : CommandCache → List (Str × CommandResult) × List Str
make_room c =
    if leb c.capacity (length c.results)
    then evict_oldest c.results c.order
    else (c.results, c.order)

unfoldable pub store : CommandCache → CommandResult → CommandCache
store c r = record c {
  results = insert r.command_id r (make_room c).0;
  order = (make_room c).1 ++ (r.command_id ∷ []);
}
