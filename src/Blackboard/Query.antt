-- ===== src/Blackboard/Query.antt =====
-- `query_memory` of gestalt/blackboard.py: which records it answers with, and in which order.
use gestalt_agentic_software.Prelude.Ranking.{
  best-All, IsRanked, best-positive, best-IsDescending, best-IsRanked,
}
use gestalt_agentic_software.Prelude.Sorting.{sort_desc-All, IsDescending}
use gestalt_agentic_software.Blackboard.{
  GestaltBlackboard, newest_first, query_memory, score, recent,
}
use gestalt_agentic_software.Protocol.Models.{Uuid, BlackboardMemoryRecord, BlackboardQuery}
use gestalt_agentic_software.Prelude.{
  Bool, String, List, All, length, length-take-le, ◌≤◌, reverse, ◌<◌, All-reverse, All-take, ◌*◌,
  All-Memᴰ,
}
use gestalt_agentic_software.Python.Values.{Value, Float}
use mathlib.Core.List.{Memᴰ}

module _ (same_value : Value → Value → Bool) (uuid_text : Uuid → String) where
  -- The answer to a query: at most `limit` records, all of them stored and with a positive score, the
  -- greatest scores first; and of the rows that the query looks at, each with a positive score is
  -- among them, unless they are `limit` records with scores at least as great.
  pub record IsAnswer (b : GestaltBlackboard) (q : BlackboardQuery)
      (matches : List BlackboardMemoryRecord) : Type 0 where
    pub within : length matches ≤ q.limit
    pub stored : All (λ m. Memᴰ m b.memories) matches
    pub relevant : All (λ m. 0 < score same_value uuid_text q m) matches
    pub ordered : IsDescending (score same_value uuid_text q) matches
    pub complete :
        All
          (IsRanked (score same_value uuid_text q) q.limit matches)
          (recent same_value uuid_text b q)

  newest_first-All :
      (P : BlackboardMemoryRecord → Type 0) (rows : List BlackboardMemoryRecord)
      → All P rows
      → All P (newest_first (λ r. r.created_at) rows)
  unfolding newest_first
  newest_first-All P rows h = sort_desc-All _ P (reverse rows) (All-reverse P rows h)

  -- `query_memory` answers with at most `limit` records, all of them stored and with a positive score,
  -- the greatest scores first. Of the newest rows, three times `limit`, that it looks at, each with a
  -- positive score is in the answer, unless that has `limit` records with scores at least as great.
  pub query_memory-IsAnswer :
      (b : GestaltBlackboard) (q : BlackboardQuery) (latency : Float)
      → IsAnswer b q (query_memory same_value uuid_text b q latency).matches
  query_memory-IsAnswer b q latency =
      unfold query_memory in
      record {
        within = length-take-le q.limit _;
        stored =
            best-All (score same_value uuid_text q) _ q.limit (recent same_value uuid_text b q)
              (All-take _ (q.limit * 3) _ (newest_first-All _ b.memories (All-Memᴰ b.memories)));
        relevant =
            best-positive (score same_value uuid_text q) q.limit (recent same_value uuid_text b q);
        ordered =
            best-IsDescending (score same_value uuid_text q) q.limit
              (recent same_value uuid_text b q);
        complete =
            best-IsRanked (score same_value uuid_text q) q.limit (recent same_value uuid_text b q);
      }
