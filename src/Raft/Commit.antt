-- ===== src/Raft/Commit.antt =====
-- The commit index, and the entries handed to the callback: pkg/raft/node.go.
use edgesim_p2p.Base.{
  ℕ, zero, suc, ◌+◌, ◌-◌, ◌≤◌, ◌<◌, String, ◌≡◌, refl, ◌∙◌, true, List, [], none, some, arith, leb,
  ◌⊎◌, inl, inr, length, get_elem?, take, drop, Option-cases, get_elem?-some, get_elem?-lt,
  drop-get, length-take, length-drop, Bool-cases, if◌then◌else◌,
}
use edgesim_p2p.Raft.Types.{follower, LogEntry, AppendEntriesRequest, AppendEntriesResponse}
use edgesim_p2p.Raft.Log.{last_log_index, collect_from}
use edgesim_p2p.Raft.Node.{Node, collect_committed, apply_entries, step_down, reset_election_timer}
use edgesim_p2p.Raft.Handlers.{
  observe_term, store_entries, advance_commit, accept_entries, handle_append_entries,
}

collect_from-take :
    (count i : ℕ) (log : List LogEntry)
    → i + count ≤ length log
    → collect_from count i log ≡ some (take count (drop i log))
unfolding collect_from
collect_from-take zero i log h = refl
collect_from-take (suc count) i log h =
    let (a, here) = get_elem?-some log i (omega arith) in
    rw (drop-get i log here)
      (rw (here, collect_from) (rw (collect_from-take count (suc i) log (omega arith)) refl))

collect_from-none :
    (count i : ℕ) (log : List LogEntry)
    → length log < i + count
    → i ≤ length log
    → collect_from count i log ≡ none
unfolding collect_from
collect_from-none zero i log h k = absurd (omega arith)
collect_from-none (suc count) i log h k = elim (Option-cases (get_elem? log i)) [
  | inl e ↦ rw (e, collect_from) refl
  | inr (a, e) ↦
      rw (e, collect_from)
        (rw (collect_from-none count (suc i) log (omega arith) (get_elem?-lt log i e)) refl)
]

-- All branches of the collection: nothing is new; the entries from the last applied one to the
-- committed one, in order, which then count as applied; or, where the commit index has left the log,
-- a panic.
pub collect_committed_lem :
    (n : Node)
    → n.last_applied ≤ length n.log
    → ((n.commit_index ≤ n.last_applied) × (collect_committed n ≡ some (n, [])))
      ⊎ ((n.last_applied < n.commit_index)
          × (n.commit_index ≤ length n.log)
          × (collect_committed n
              ≡ some (
                record n { last_applied = n.commit_index },
                take (n.commit_index - n.last_applied) (drop n.last_applied n.log),
              )))
      ⊎ ((length n.log < n.commit_index)
          × (n.last_applied < n.commit_index)
          × (collect_committed n ≡ none))
unfolding collect_committed
collect_committed_lem n h = ground (
  arith,
  collect_from-take (n.commit_index - n.last_applied) n.last_applied n.log,
  collect_from-none (n.commit_index - n.last_applied) n.last_applied n.log,
)

-- Every entry up to the commit index has been applied.
abbrev pub IsApplied : Node → Type 0
IsApplied n = n.commit_index ≤ n.last_applied

-- What the collection makes of a node: it hands over as many entries as `last_applied` advances by.
pub record Collects (n m : Node) (es : List LogEntry) : Type 0 where
  pub done : collect_committed n ≡ some (m, es)
  pub applied : IsApplied m
  pub counted : m.last_applied ≡ n.last_applied + length es
  pub same_commit : m.commit_index ≡ n.commit_index
  pub same_log : m.log ≡ n.log
  pub same_callback : m.has_apply_fn ≡ n.has_apply_fn

-- No panic where the commit index lies in the log, or has been applied.
pub collects :
    (n : Node)
    → IsApplied n ⊎ (n.commit_index ≤ length n.log)
    → (m : Node) × (es : List LogEntry) × Collects n m es
unfolding collect_committed
collects n h = elim (Bool-cases (leb n.commit_index n.last_applied)) [
  | inl old ↦ (
    n,
    [],
    record {
      done = rw (old, collect_committed) refl;
      applied = ground arith;
      counted = omega arith;
      same_commit = refl;
      same_log = refl;
      same_callback = refl;
    },
  )
  | inr new ↦
      let count : ℕ = n.commit_index - n.last_applied in
      let fits : n.last_applied + count ≤ length n.log = ground arith in
      let entries = take count (drop n.last_applied n.log) in
      (
        record n { last_applied = n.commit_index },
        entries,
        record {
          done =
              rw (new, collect_committed)
                (rw (collect_from-take count n.last_applied n.log fits) refl);
          applied = omega arith;
          counted = ground (
            arith,
            length-take count (drop n.last_applied n.log),
            length-drop n.last_applied n.log,
          );
          same_commit = refl;
          same_log = refl;
          same_callback = refl;
        },
      )
]

-- After the commit index has moved it lies in the log, so the collection does not panic.
advance-fits :
    (leader_commit : ℕ) (n : Node)
    → IsApplied n
    → IsApplied (advance_commit leader_commit n)
      ⊎ ((advance_commit leader_commit n).commit_index
          ≤ length (advance_commit leader_commit n).log)
unfolding advance_commit last_log_index
advance-fits leader_commit n h = ground arith

abbrev before_collect : AppendEntriesRequest → ℕ → Node → Node
before_collect req now n =
    let m = advance_commit req.leader_commit (store_entries req n) in
    record m { last_heartbeat = now }

before_collect-same :
    (req : AppendEntriesRequest) (now : ℕ) (n : Node)
    → ((before_collect req now n).last_applied ≡ n.last_applied)
      × ((before_collect req now n).has_apply_fn ≡ n.has_apply_fn)
unfolding advance_commit store_entries
before_collect-same req now n = ground arith

store-IsApplied :
    (req : AppendEntriesRequest) (n : Node) → IsApplied n → IsApplied (store_entries req n)
unfolding store_entries
store-IsApplied req n h = ground arith

-- The entries that a handler hands to the callback, `count` of them if there is a callback.
abbrev pub Hands : Node → Node → List LogEntry → Type 0
Hands n m out =
    IsApplied m
    × (m.has_apply_fn ≡ n.has_apply_fn)
    × (n.last_applied ≤ m.last_applied)
    × (length out ≡ (if n.has_apply_fn then m.last_applied - n.last_applied else 0))

module _ (draw : ℕ → ℕ → ℕ) where
  accept_collected :
      (req : AppendEntriesRequest) (now : ℕ) (n m : Node) (es : List LogEntry)
      → collect_committed (before_collect req now n) ≡ some (m, es)
      → accept_entries draw req now n
        ≡ some (
          reset_election_timer draw (record m { state = follower; leader_id = req.leader_id }),
          record { term = m.current_term; success = true },
          apply_entries m es,
        )
  unfolding accept_entries
  accept_collected req now n m es h = rw (h, accept_entries) refl

  accept-Hands :
      (req : AppendEntriesRequest) (now : ℕ) (n : Node)
      → IsApplied n
      → (m : Node) × (resp : AppendEntriesResponse) × (out : List LogEntry) × (accept_entries draw
            req now n
          ≡ some (m, resp, out))
        × Hands n m out
  unfolding apply_entries reset_election_timer
  accept-Hands req now n h =
      let (m, es, c) =
        collects (before_collect req now n)
          (advance-fits req.leader_commit (store_entries req n) (store-IsApplied req n h)) in
      let (applied, callback) = before_collect-same req now n in
      (
        _,
        _,
        _,
        accept_collected req now n m es c.done,
        (
          c.applied,
          c.same_callback ∙ callback,
          omega (arith, c.counted, applied),
          ground (arith, c.counted, c.same_callback, applied, callback),
        ),
      )

  observe-IsApplied :
      (term : ℕ) (leader_id : String) (n : Node)
      → IsApplied n
      → IsApplied (observe_term term leader_id n)
  unfolding observe_term step_down
  observe-IsApplied term leader_id n h = ground arith

  observe-same :
      (term : ℕ) (leader_id : String) (n : Node)
      → ((observe_term term leader_id n).last_applied ≡ n.last_applied)
        × ((observe_term term leader_id n).has_apply_fn ≡ n.has_apply_fn)
  unfolding observe_term step_down
  observe-same term leader_id n = ground arith

  -- The handler refuses a request, leaving the log alone, or accepts it.
  handle_cases :
      (req : AppendEntriesRequest) (now : ℕ) (n : Node)
      → ((resp : AppendEntriesResponse) × (handle_append_entries draw req now n
            ≡ some (n, resp, [])))
        ⊎ ((resp : AppendEntriesResponse) × (handle_append_entries draw req now n
              ≡ some (observe_term req.term req.leader_id n, resp, [])))
        ⊎ (handle_append_entries draw req now n
            ≡ accept_entries draw req now (observe_term req.term req.leader_id n))
  unfolding handle_append_entries
  handle_cases req now n = ground arith

  -- Where every committed entry has been applied, `HandleAppendEntries` returns for every request,
  -- with no panic, and keeps it so. The callback gets as many entries as `lastApplied` advances by.
  pub handle_append_entries-Hands :
      (req : AppendEntriesRequest) (now : ℕ) (n : Node)
      → IsApplied n
      → (m : Node) × (resp : AppendEntriesResponse) × (out : List LogEntry) × (handle_append_entries
            draw req now n
          ≡ some (m, resp, out))
        × Hands n m out
  handle_append_entries-Hands req now n h =
      let n' = observe_term req.term req.leader_id n in
      let h' : IsApplied n' = observe-IsApplied req.term req.leader_id n h in
      let (applied, callback) = observe-same req.term req.leader_id n in
      elim (handle_cases req now n) [
        | inl (resp, e) ↦ (n, resp, [], e, (h, refl, omega arith, ground arith))
        | inr (inl (resp, e)) ↦
            (n', resp, [], e, (h', callback, omega (arith, applied), ground (arith, applied)))
        | inr (inr e) ↦
            let (m, resp, out, e', (done, same, up, count)) = accept-Hands req now n' h' in
            (
              m,
              resp,
              out,
              e ∙ e',
              (done, same ∙ callback, omega (arith, applied), ground (arith, applied, callback)),
            )
      ]
