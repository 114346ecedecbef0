-- ===== src/Raft/Replication.antt =====
-- Log matching between a leader and a follower: what a request of pkg/raft/node.go that was cut from
-- the leader's log does to the follower's.
use edgesim_p2p.Base.{
  ℕ, zero, suc, ◌+◌, ◌-◌, ◌≤◌, ◌≡◌, refl, sym, ap, ◌∙◌, subst, true, false, List, [], ◌∷◌, ◌++◌,
  some, arith, ◌==◌, ◌⊎◌, inl, inr, length, get_elem?, take, drop, Bool-cases, take-append_le,
  take_all, ==_iff, take-append_add, take-length-append, get_elem?-lt, take-append-drop,
  length-take, Option-cases,
}
use mathlib.Core.Path.{subst₂}
use edgesim_p2p.Raft.Types.{LogEntry, AppendEntriesRequest, AppendEntriesResponse}
use edgesim_p2p.Raft.Log.{match_prev_log, append_entries}
use edgesim_p2p.Raft.Node.{Node, collect_committed, step_down, reset_election_timer}
use edgesim_p2p.Raft.Handlers.{
  observe_term, store_entries, advance_commit, accept_entries, handle_append_entries,
}
use edgesim_p2p.Raft.Matching.{splice, splice_same, splice_conflict, append_entries-splice}

-- Where two logs have an entry of one term at one index, they agree up to there.
abbrev pub IsMatching : List LogEntry → List LogEntry → Type 0
IsMatching f l =
    (i : ℕ) (a b : LogEntry)
    → get_elem? f i ≡ some a
    → get_elem? l i ≡ some b
    → a.term ≡ b.term
    → take (suc i) f ≡ take (suc i) l

IsMatching-prefix : (es r : List LogEntry) → IsMatching es (es ++ r)
IsMatching-prefix es r i a b p q t =
    sym (take-append_le (suc i) es r (omega (arith, get_elem?-lt es i p)))

IsMatching-cons :
    (x y : LogEntry) (f l : List LogEntry) → x ≡ y → IsMatching f l → IsMatching (x ∷ f) (y ∷ l)
IsMatching-cons x y f l e h zero a b p q t = ap (λ z. z ∷ []) e
IsMatching-cons x y f l e h (suc i) a b p q t = rw e (ap (◌∷◌ y) (h i a b p q t))

IsMatching-tail :
    (x y : LogEntry) (f l : List LogEntry) → IsMatching (x ∷ f) (y ∷ l) → IsMatching f l
IsMatching-tail x y f l h i a b p q t = ap (drop 1) (h (suc i) a b p q t)

IsMatching-head :
    (x y : LogEntry) (f l : List LogEntry) → IsMatching (x ∷ f) (y ∷ l) → x.term ≡ y.term → x ≡ y
IsMatching-head x y f l h t = cc (h 0 x y refl refl t)

IsMatching-append : (p f l : List LogEntry) → IsMatching f l → IsMatching (p ++ f) (p ++ l)
IsMatching-append [] f l h = h
IsMatching-append (x ∷ p) f l h = IsMatching-cons x x _ _ refl (IsMatching-append p f l h)

IsMatching-drop : (n : ℕ) (f l : List LogEntry) → IsMatching f l → IsMatching (drop n f) (drop n l)
IsMatching-drop zero f l h = h
IsMatching-drop (suc n) [] l h = λ i a b p q t. absurd (ground arith)
IsMatching-drop (suc n) (x ∷ f) [] h = λ i a b p q t. absurd (ground arith)
IsMatching-drop (suc n) (x ∷ f) (y ∷ l) h = IsMatching-drop n f l (IsMatching-tail x y f l h)

-- A log that holds the entries, and matches the leader's log `es ++ r` they were cut from.
abbrev Holds : List LogEntry → List LogEntry → List LogEntry → Type 0
Holds es r f = IsMatching f (es ++ r) × (take (length es) f ≡ es)

splice-IsMatching : (f es r : List LogEntry) → IsMatching f (es ++ r) → Holds es r (splice f es)
unfolding splice
splice-IsMatching [] es r h = (IsMatching-prefix es r, take_all (length es) es (omega arith))
splice-IsMatching (x ∷ f) [] r h = (h, refl)
splice-IsMatching (x ∷ f) (e ∷ es) r h = elim (Bool-cases (x.term == e.term)) [
  | inl same ↦
      let head : x ≡ e = IsMatching-head x e f (es ++ r) h ((==_iff x.term e.term).0 same) in
      let (keeps, holds) = splice-IsMatching f es r (IsMatching-tail x e f (es ++ r) h) in
      subst (Holds (e ∷ es) r) (sym (splice_same x e f es same))
        (IsMatching-cons x e _ _ head keeps, ground (arith, head, holds))
  | inr conflict ↦
      subst (Holds (e ∷ es) r) (sym (splice_conflict x e f es conflict))
        (IsMatching-prefix (e ∷ es) r, ap (◌∷◌ e) (take_all (length es) es (omega arith)))
]

-- The test of the previous entry finds its index in the log, and its term there.
match-inv :
    (log : List LogEntry) (i t : ℕ)
    → match_prev_log log i t ≡ true
    → (i ≡ 0)
      ⊎ ((a : LogEntry) × (get_elem? log (i - 1) ≡ some a) × (a.term ≡ t) × (i ≡ suc (i - 1)))
unfolding match_prev_log
match-inv log zero t h = inl refl
match-inv log (suc i) t h = elim (Option-cases (get_elem? log (suc i - 1))) [
  | inl g ↦ absurd (ground arith)
  | inr (a, g) ↦ inr (a, g, ground arith, omega arith)
]

match-le : (log : List LogEntry) (i t : ℕ) → match_prev_log log i t ≡ true → i ≤ length log
match-le log i t h = elim (match-inv log i t h) [
  | inl z ↦ omega arith
  | inr (a, g, _, e) ↦ omega (arith, get_elem?-lt log (i - 1) g)
]

match-take :
    (f l : List LogEntry) (i t : ℕ)
    → IsMatching f l
    → match_prev_log f i t ≡ true
    → match_prev_log l i t ≡ true
    → take i f ≡ take i l
match-take f l i t h p q = elim (match-inv f i t p) [
  | inl z ↦ rw z refl
  | inr (a, ga, ta, e) ↦ elim (match-inv l i t q) [
    | inl z ↦ rw z refl
    | inr (b, gb, tb, _) ↦ rw e (h (i - 1) a b ga gb (ta ∙ sym tb))
  ]
]

-- Two logs agree in the first `k` entries, and match.
abbrev Agree : ℕ → List LogEntry → List LogEntry → Type 0
Agree k f l = IsMatching f l × (take k f ≡ take k l)

Agree-append :
    (i : ℕ) (p s es r : List LogEntry)
    → length p ≡ i
    → Holds es r s
    → Agree (i + length es) (p ++ s) (p ++ (es ++ r))
Agree-append i p s es r h (keeps, holds) = (
  IsMatching-append p s (es ++ r) keeps,
  take-append_add i (length es) p s h
      ∙ ap (◌++◌ p) (holds ∙ sym (take-length-append es r))
      ∙ sym (take-append_add i (length es) p (es ++ r) h),
)

-- The log that the loop leaves, where both logs pass the test of the previous entry.
append-IsMatching :
    (f l es r : List LogEntry) (i t : ℕ)
    → IsMatching f l
    → match_prev_log f i t ≡ true
    → match_prev_log l i t ≡ true
    → drop i l ≡ es ++ r
    → Agree (i + length es) (append_entries i es f) l
append-IsMatching f l es r i t h p q c =
    let short : i ≤ length f = match-le f i t p in
    let leader_log : take i f ++ (es ++ r) ≡ l =
      rw (match-take f l i t h p q, ← c) (take-append-drop i l) in
    subst₂ (Agree (i + length es)) (sym (append_entries-splice es f i short)) leader_log (
      Agree-append i (take i f) (splice (drop i f) es) es r (omega (arith, length-take i f)) (
        splice-IsMatching (drop i f) es r
          (subst (IsMatching (drop i f)) c (IsMatching-drop i f l h))))

module _ (draw : ℕ → ℕ → ℕ) where
  -- The log after a request: as it was, or with the entries put in behind a previous entry that fits.
  handle-log :
      (req : AppendEntriesRequest) (now : ℕ) (n m : Node) (resp : AppendEntriesResponse)
      (out : List LogEntry)
      → handle_append_entries draw req now n ≡ some (m, resp, out)
      → ((m.log ≡ n.log) × ((resp.success ≡ false) ⊎ (req.entries ≡ [])))
        ⊎ ((match_prev_log n.log req.prev_log_index req.prev_log_term ≡ true)
            × (m.log ≡ append_entries req.prev_log_index req.entries n.log))
  unfolding handle_append_entries accept_entries collect_committed advance_commit store_entries
      observe_term step_down reset_election_timer
  handle-log req now n m resp out h = ground arith

  -- A request whose entries were cut from the leader's log `l`, at an index where `l` has the stated
  -- term, keeps log matching between the follower and `l` on every branch; if the follower accepts
  -- any entries, it then has the log of the leader up to the last of them.
  pub replicated-IsMatching :
      (req : AppendEntriesRequest) (now : ℕ) (n m : Node) (resp : AppendEntriesResponse)
      (out l r : List LogEntry)
      → IsMatching n.log l
      → match_prev_log l req.prev_log_index req.prev_log_term ≡ true
      → drop req.prev_log_index l ≡ req.entries ++ r
      → handle_append_entries draw req now n ≡ some (m, resp, out)
      → IsMatching m.log l
        × ((resp.success ≡ false)
            ⊎ (req.entries ≡ [])
            ⊎ (take (req.prev_log_index + length req.entries) m.log
                ≡ take (req.prev_log_index + length req.entries) l))
  replicated-IsMatching req now n m resp out l r h q c e =
      elim (handle-log req now n m resp out e) [
        | inl (same, inl no_success) ↦ (rw same h, inl no_success)
        | inl (same, inr nothing) ↦ (rw same h, inr (inl nothing))
        | inr (p, appended) ↦
            let (keeps, agrees) =
              append-IsMatching n.log l req.entries r req.prev_log_index req.prev_log_term h p q
                c in
            (rw appended keeps, inr (inr (rw appended agrees)))
      ]
