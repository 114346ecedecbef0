-- ===== src/Raft/Log.antt =====
-- pkg/raft/node.go, the helpers on the log. Log index i of the protocol is element i - 1 of the list.
-- The slice operations of Go panic out of range: such a read returns `none`.
use edgesim_p2p.Base.{
  ℕ, zero, suc, ◌-◌, Bool, true, false, List, [], ◌∷◌, ◌++◌, Option, none, some, ltb, leb, ◌==◌,
  if◌then◌else◌, length, get_elem?, take,
}
use mathlib.Core.Option
use edgesim_p2p.Raft.Types.{LogEntry}

unfoldable pub last_log_index : List LogEntry → ℕ
last_log_index log = length log

unfoldable pub last_log_term : List LogEntry → ℕ
last_log_term [] = 0
last_log_term (e ∷ []) = e.term
last_log_term (e ∷ f ∷ log) = last_log_term (f ∷ log)

unfoldable pub is_log_up_to_date : List LogEntry → ℕ → ℕ → Bool
unfolding last_log_index
is_log_up_to_date log candidate_index candidate_term =
    let local_term = last_log_term log in
    if candidate_term == local_term
    then leb (last_log_index log) candidate_index
    else ltb local_term candidate_term

-- The read is in range by the two guards before it.
unfoldable pub match_prev_log : List LogEntry → ℕ → ℕ → Bool
match_prev_log log prev_index prev_term =
    if prev_index == 0
    then true
    else if ltb (length log) prev_index
    then false
    else elim (get_elem? log (prev_index - 1)) [ none ↦ false | some e ↦ e.term == prev_term ]

-- The body of the loop of `appendEntries` at one index.
unfoldable pub place_entry : ℕ → LogEntry → List LogEntry → List LogEntry
place_entry index entry log = elim (get_elem? log index) [
  | some old ↦ if old.term == entry.term then log else take index log ++ entry ∷ []
  | none ↦ log ++ entry ∷ []
]

-- `index` is `prevIndex + i`. The conversion to int keeps the value: `matchPrevLog` has bounded it
-- by the length of the log.
unfoldable pub append_entries : ℕ → List LogEntry → List LogEntry → List LogEntry
append_entries index [] log = log
append_entries index (entry ∷ entries) log =
    append_entries (suc index) entries (place_entry index entry log)

-- The loop of `collectCommittedLocked`, for `count` rounds from `last_applied`.
unfoldable pub collect_from : ℕ → ℕ → List LogEntry → Option (List LogEntry)
collect_from zero last_applied log = some []
collect_from (suc count) last_applied log = elim (get_elem? log last_applied) [
  | none ↦ none
  | some entry ↦ Option.map (λ rest. entry ∷ rest) (collect_from count (suc last_applied) log)
]
